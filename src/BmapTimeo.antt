-- ===== src/BmapTimeo.antt =====
-- slashd/mds_bmap_timeo.c: the table of leases that can time out, and the sequence numbers of leases
-- with their water marks. Sequence numbers are 64-bit integers.
pub mod Order
use slash.Prelude.{
  ℕ, ◌+◌, ◌-◌, ◌%◌, ◌^◌, List, [], ◌∷◌, ◌++◌, Option, none, some, Bool, true, false, not, ◌==◌, ltb,
  leb, if◌then◌else◌,
}
use slash.Lease.{Lease}

abbrev pub bmapseq_any : ℕ
bmapseq_any = 18446744073709551615

abbrev pub bmap_seqlog_factor : ℕ
bmap_seqlog_factor = 100

abbrev pub bmap_timeo_max : ℕ
bmap_timeo_max = 240

-- An entry of the list: the address of the lease, and its `bml_seq`.
pub record Queued : Type 0 where
  pub ptr : ℕ
  pub seq : ℕ

-- `struct bmap_timeo_table`, with the counter of `mds_bmap_timeotbl_journal_seqno` and what it wrote
-- to the journal, newest first: high and low water mark.
pub record Timeo : Type 0 where
  pub maxseq : ℕ
  pub minseq : ℕ
  pub queue : List Queued
  pub log : ℕ
  pub journal : List (ℕ × ℕ)

-- `mds_bmap_setcurseq`, `mds_bmap_getcurseq`
unfoldable pub setcurseq : ℕ → ℕ → Timeo → Timeo
setcurseq maxseq minseq t = record t { maxseq = maxseq; minseq = minseq }

unfoldable pub getcurseq : Timeo → ℕ × ℕ
getcurseq t = (t.maxseq, t.minseq)

-- `mds_bmap_timeotbl_journal_seqno` with `mds_bmap_journal_bmapseq`. The counter of the source is
-- an `int`; here it does not overflow.
unfoldable pub journal_seqno : Timeo → Timeo
journal_seqno t =
    if (t.log + 1) % bmap_seqlog_factor == 0
    then record t { log = t.log + 1; journal = (t.maxseq, t.minseq) ∷ t.journal }
    else record t { log = t.log + 1 }

-- The number that `mds_bmap_timeotbl_getnextseq` counts on to.
unfoldable pub next_seq : ℕ → ℕ
next_seq maxseq = let s = (maxseq + 1) % 2 ^ 64 in if s == bmapseq_any then 1 else s

-- `mds_bmap_timeotbl_getnextseq`: the table, whose high water mark is the number returned.
unfoldable pub getnextseq : Timeo → Timeo
getnextseq t = journal_seqno (record t { maxseq = next_seq t.maxseq })

-- `pll_remove` and `pll_peekhead`
unfoldable pub unlink : ℕ → List Queued → List Queued
unlink p [] = []
unlink p (x ∷ xs) = if x.ptr == p then xs else x ∷ unlink p xs

abbrev pub is_head : ℕ → List Queued → Bool
is_head p [] = false
is_head p (x ∷ xs) = x.ptr == p

abbrev pub head_seq : ℕ → List Queued → ℕ
head_seq d [] = d
head_seq d (x ∷ xs) = x.seq

-- `mds_bmap_timeotbl_remove`
unfoldable pub timeo_remove : ℕ → Timeo → Timeo
timeo_remove p t =
    let q = unlink p t.queue in
    if is_head p t.queue
    then journal_seqno (record t { queue = q; minseq = head_seq t.maxseq q })
    else record t { queue = q }

pub data TimeoOp : Type 0 where
  bte_add bte_del bte_reattach : TimeoOp

-- The sequence number under BTE_REATTACH, with the table.
unfoldable pub reattach : ℕ → Timeo → ℕ × Timeo
reattach seq t =
    if ltb t.maxseq seq
    then (seq, record t { maxseq = seq })
    else if ltb seq t.minseq
    then (bmapseq_any, t)
    else (seq, t)

-- The end of `mds_bmap_timeotbl_mdsi`, which puts the lease last.
unfoldable pub requeue : Lease → Timeo → Timeo
requeue l t =
    let t1 = if l.timeoq then timeo_remove l.ptr t else t in
    record t1 { queue = t1.queue ++ (record { ptr = l.ptr; seq = l.seq } ∷ []) }

-- `mds_bmap_timeotbl_mdsi`: the number returned, the lease and the table.
unfoldable pub mdsi : TimeoOp → Lease → Timeo → ℕ × (Lease × Timeo)
mdsi bte_del l t = (bmapseq_any, (record l { timeoq = false }, timeo_remove l.ptr t))
mdsi bte_add l t = let t1 = getnextseq t in (t1.maxseq, (record l { timeoq = true }, requeue l t1))
mdsi bte_reattach l t =
    let (seq, t1) = reattach l.seq t in (seq, (record l { timeoq = true }, requeue l t1))

-- An assignment to `bml_seq`, as the list sees it.
unfoldable pub set_seq : ℕ → ℕ → List Queued → List Queued
set_seq p s [] = []
set_seq p s (x ∷ xs) = (if x.ptr == p then record { ptr = p; seq = s } else x) ∷ set_seq p s xs

-- What a turn of the loop of `slmbmaptimeothr_begin` comes to.
pub data TimeoAction : Type 0 where
  sleep_for : ℕ → TimeoAction
  release_lease : Lease → TimeoAction

-- That loop, given the lease at the head, whether its lock could be taken, and the time.
unfoldable pub timeo_turn : Option Lease → Bool → ℕ → TimeoAction
timeo_turn none trylock now = sleep_for bmap_timeo_max
timeo_turn (some l) trylock now =
    if not trylock
    then sleep_for 1
    else if not (l.refcnt == 0)
    then sleep_for 1
    else if l.freeing
    then release_lease l
    else if ltb now l.expire
    then sleep_for (l.expire - now)
    else release_lease (record l { freeing = true })
