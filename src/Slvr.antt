-- ===== src/Slvr.antt =====
-- sliod/slvr.c, sliod/slvr.h: the cache of slivers of the I/O server, with blocking I/O. A sliver is
-- known by a number that stands for its bmap and `slvr_num`; the tree of the slivers is a function on
-- these numbers. The references on the bmap, the pools, the statistics and the buffer itself are left
-- out; an error number is kept without its sign. `none` stands for a failed `psc_assert`.
pub mod Users
pub mod Use
pub mod Leave
pub mod Thread
pub mod Reap
pub mod Safe
pub mod Other
pub mod Stranded
pub mod Race
pub mod Fits
use slash.Prelude.{
  ℕ, ◌+◌, ◌-◌, List, [], ◌∷◌, ◌++◌, Option, none, some, Bool, true, false, not, ◌&&◌, ◌||◌, ◌==◌,
  leb, length, if◌then◌else◌,
}
use slash.Residency.{arr_set}

-- `struct slvr` with the flags SLVRF_* of `slvr_flags`.
pub record Slvr : Type 0 where
  pub faulting : Bool
  pub datardy : Bool
  pub dataerr : Bool
  pub lru : Bool
  pub crcdirty : Bool
  pub freeing : Bool
  pub readahead : Bool
  pub refcnt : ℕ
  pub err : ℕ
  pub ts : ℕ

-- The slivers, `sli_lruslvrs` and `sli_crcqslvrs`.
pub record SlvrCache : Type 0 where
  pub slvrs : ℕ → Option Slvr
  pub lruslvrs : List ℕ
  pub crcqslvrs : List ℕ

-- A list less one entry, where the lists of the source unlink.
unfoldable pub lc_remove : ℕ → List ℕ → List ℕ
lc_remove i [] = []
lc_remove i (j ∷ q) = if i == j then q else j ∷ lc_remove i q

abbrev pub put_slvr : ℕ → Slvr → SlvrCache → SlvrCache
put_slvr i s c = record c { slvrs = arr_set c.slvrs i (some s) }

-- What `_slvr_lookup` makes of a new sliver.
abbrev pub new_slvr : Slvr
new_slvr = record {
  faulting = false;
  datardy = false;
  dataerr = false;
  lru = true;
  crcdirty = false;
  freeing = false;
  readahead = false;
  refcnt = 1;
  err = 0;
  ts = 0;
}

-- A round of `_slvr_lookup`; `none` means that it has to try again.
unfoldable pub slvr_lookup : ℕ → SlvrCache → Option SlvrCache
slvr_lookup i c = elim (c.slvrs i) [
  | some s ↦
      if s.freeing || s.dataerr
      then none
      else some (put_slvr i (record s { refcnt = s.refcnt + 1 }) c)
  | none ↦ some (record (put_slvr i new_slvr c) { lruslvrs = c.lruslvrs ++ (i ∷ []) })
]

-- `slvr_io_prep` after its wait for SLVRF_FAULTING: the sliver, whether a read is needed, and the
-- error of the sliver. `whole` says that it is a write of the whole sliver, `ahead` is
-- SLVRF_READAHEAD in `flags`.
unfoldable pub slvr_io_prep : Bool → Bool → Slvr → Slvr × Bool × ℕ
slvr_io_prep whole ahead s =
    if s.dataerr
    then (s, false, s.err)
    else let s1 = record s { faulting = true } in
      if s.datardy || whole
      then (s1, false, 0)
      else (record s1 { readahead = s.readahead || ahead }, true, 0)

-- `slvr_io_done`
unfoldable pub slvr_io_done : ℕ → Slvr → Slvr
slvr_io_done rc s =
    if rc == 0
    then record s { faulting = false; datardy = true }
    else record s { faulting = false; datardy = false; dataerr = true; err = rc }

-- `slvr_remove`
unfoldable pub slvr_remove : ℕ → SlvrCache → SlvrCache
slvr_remove i c = elim (c.slvrs i) [
  | none ↦ c
  | some s ↦
      if s.lru
      then record c { slvrs = arr_set c.slvrs i none; lruslvrs = lc_remove i c.lruslvrs }
      else record c { slvrs = arr_set c.slvrs i none; crcqslvrs = lc_remove i c.crcqslvrs }
]

-- `slvr_lru_tryunpin_locked` on a sliver up to where it drops the lock of the sliver, and whether the
-- thread then goes on to `slvr_remove`.
unfoldable pub slvr_tryunpin : ℕ → Slvr → SlvrCache → Option (SlvrCache × Bool)
slvr_tryunpin i s c =
    if not (s.refcnt == 0) || s.crcdirty
    then some (c, false)
    else if s.dataerr || s.freeing
    then some (c, true)
    else if not (s.lru && s.datardy)
    then none
    else some (record c { lruslvrs = lc_remove i c.lruslvrs ++ (i ∷ []) }, false)

-- `slvr_rio_done` up to there; a sliver that is not there is a wild pointer.
unfoldable pub rio_unlock : ℕ → SlvrCache → Option (SlvrCache × Bool)
rio_unlock i c = elim (c.slvrs i) [
  | none ↦ none
  | some s ↦
      let s1 = record s { refcnt = s.refcnt - 1 } in
      if s.refcnt == 0 then none else slvr_tryunpin i s1 (put_slvr i s1 c)
]

-- The rest, when no other thread comes between.
unfoldable pub unpinned : ℕ → Option (SlvrCache × Bool) → Option SlvrCache
unpinned i none = none
unpinned i (some (c, gone)) = some (if gone then slvr_remove i c else c)

-- `slvr_rio_done` by a thread that runs alone.
unfoldable pub slvr_rio_done : ℕ → SlvrCache → Option SlvrCache
slvr_rio_done i c = unpinned i (rio_unlock i c)

-- `slvr_schedule_crc_locked` at a time.
unfoldable pub slvr_schedule_crc : ℕ → ℕ → Slvr → SlvrCache → SlvrCache
slvr_schedule_crc now i s c =
    record (put_slvr i (record s { lru = false; crcdirty = true; ts = now }) c) {
      lruslvrs = lc_remove i c.lruslvrs;
      crcqslvrs = c.crcqslvrs ++ (i ∷ []);
    }

-- `slvr_wio_done` up to where the lock of the sliver is dropped, and by a thread that runs alone.
unfoldable pub wio_unlock : ℕ → Bool → ℕ → SlvrCache → Option (SlvrCache × Bool)
wio_unlock now repl i c = elim (c.slvrs i) [
  | none ↦ none
  | some s ↦
      let s1 = record s { refcnt = s.refcnt - 1 } in
      let c1 = put_slvr i s1 c in
      if s.refcnt == 0
      then none
      else if s.dataerr || repl
      then slvr_tryunpin i s1 c1
      else if s.lru
      then some (slvr_schedule_crc now i s1 c1, false)
      else some (c1, false)
]

unfoldable pub slvr_wio_done : ℕ → Bool → ℕ → SlvrCache → Option SlvrCache
slvr_wio_done now repl i c = unpinned i (wio_unlock now repl i c)

-- The scan of `slvr_buffer_reap` over the list: what it marks, and the slivers that it collects. `free`
-- says whose lock can be had, `most` is how many threads wait. It stops when it has as many.
unfoldable pub reap_scan : (ℕ → Bool) → ℕ → List ℕ → List ℕ → SlvrCache → SlvrCache × List ℕ
reap_scan free most [] a c = (c, a)
reap_scan free most (i ∷ is) a c = elim (c.slvrs i) [
  | none ↦ reap_scan free most is a c
  | some s ↦
      let skip = reap_scan free most is a c in
      let c1 = put_slvr i (record s { freeing = true }) c in
      let a1 = a ++ (i ∷ []) in
      let more = reap_scan free most is a1 c1 in
      if not (free i) || not (s.refcnt == 0) || s.freeing
      then skip
      else if leb most (length a1)
      then (c1, a1)
      else more
]

unfoldable pub remove_each : List ℕ → SlvrCache → SlvrCache
remove_each [] c = c
remove_each (i ∷ is) c = remove_each is (slvr_remove i c)

-- `slvr_buffer_reap` by a thread that runs alone.
unfoldable pub slvr_buffer_reap : (ℕ → Bool) → ℕ → SlvrCache → SlvrCache × ℕ
slvr_buffer_reap free most c =
    let r = reap_scan free most c.lruslvrs [] c in (remove_each r.1 r.0, length r.1)

-- One round of the loop of `slvr_remove_all` on a sliver that is not being faulted in, up to where it
-- drops the lock of the sliver, and whether it then goes on to `slvr_remove`.
unfoldable pub remove_round : ℕ → SlvrCache → SlvrCache × Bool
remove_round i c = elim (c.slvrs i) [
  | none ↦ (c, false)
  | some s ↦
      if s.freeing then (c, false) else (put_slvr i (record s { freeing = true }) c, s.refcnt == 0)
]
