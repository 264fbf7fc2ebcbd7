-- ===== src/SlvrAio.antt =====
-- sliod/slvr.c `slvr_fsaio_done`, `slvr_aio_tryreply` and the two replies, sliod/ric.c: the part of
-- `sli_ric_handle_io` that waits for asynchronous reads. The slivers are those of Slvr; a reply that
-- waits stands at a sliver. Whether a service and a request can be had is part of a reply; what the
-- message says beyond its result is left out. `none` stands for a failed `psc_assert`.
pub mod Order
use slash.Prelude.{
  ℕ, ◌+◌, List, [], ◌∷◌, Option, none, some, Bool, true, false, not, ◌&&◌, ◌||◌, ◌==◌, length,
  if◌then◌else◌,
}
use slash.Residency.{arr_set}
use slash.Slvr.{Slvr, SlvrCache, put_slvr, slvr_rio_done, slvr_wio_done}

-- `struct sli_aiocb_reply`
pub record AioReply : Type 0 where
  pub id : ℕ
  pub slvrs : List ℕ
  pub read : Bool
  pub repl : Bool
  pub has_csvc : Bool
  pub new_req : Bool

-- The cache, `slvr_aioreply` of each sliver, and what was sent: the number of the reply and its result.
pub record AioSite : Type 0 where
  pub cache : SlvrCache
  pub aioreply : ℕ → Option AioReply
  pub sent : List (ℕ × ℕ)

-- `slvr_aio_chkslvrs`: the error of the first sliver that has one.
unfoldable pub aio_chkslvrs : List ℕ → SlvrCache → Option ℕ
aio_chkslvrs [] c = some 0
aio_chkslvrs (i ∷ is) c = elim (c.slvrs i) [
  | none ↦ none
  | some s ↦
      let rest = aio_chkslvrs is c in
      if not (s.datardy || s.dataerr)
      then none
      else if s.dataerr && not (s.err == 0)
      then some s.err
      else rest
]

-- The references that a reply gives back.
unfoldable pub aio_release : Bool → ℕ → List ℕ → SlvrCache → Option SlvrCache
aio_release read now [] c = some c
aio_release read now (i ∷ is) c =
    elim (if read then slvr_rio_done i c else slvr_wio_done now false i c) [
      | none ↦ none
      | some c1 ↦ aio_release read now is c1
    ]

-- The end of `slvr_aio_reply`, behind `out`.
abbrev pub aio_out : ℕ → AioReply → List (ℕ × ℕ) → AioSite → Option AioSite
aio_out now a sent y = elim (aio_release a.read now a.slvrs y.cache) [
  | none ↦ none
  | some c ↦ some (record y { cache = c; sent = sent })
]

-- `slvr_aio_reply`
unfoldable pub aio_reply : ℕ → AioReply → AioSite → Option AioSite
aio_reply now a y =
    if not (a.has_csvc && a.new_req)
    then aio_out now a y.sent y
    else elim (aio_chkslvrs a.slvrs y.cache) [
      | none ↦ none
      | some rc ↦ aio_out now a ((a.id, rc) ∷ y.sent) y
    ]

-- `slvr_aio_replreply`; without a service or a request it keeps the reference.
unfoldable pub aio_replreply : AioReply → AioSite → Option AioSite
aio_replreply a y =
    if not (length a.slvrs == 1)
    then none
    else if not (a.has_csvc && a.new_req)
    then some y
    else elim (aio_chkslvrs a.slvrs y.cache) [
      | none ↦ none
      | some rc ↦ elim (aio_release true 0 a.slvrs y.cache) [
        | none ↦ none
        | some c ↦ some (record y { cache = c; sent = (a.id, rc) ∷ y.sent })
      ]
    ]

-- Whether a sliver is still being read.
abbrev pub is_faulting : SlvrCache → ℕ → Bool
is_faulting c i = elim (c.slvrs i) [ none ↦ false | some s ↦ s.faulting ]

unfoldable pub any_faulting : List ℕ → SlvrCache → Bool
any_faulting [] c = false
any_faulting (i ∷ is) c = is_faulting c i || any_faulting is c

-- `slvr_aio_tryreply`
unfoldable pub aio_tryreply : ℕ → AioReply → AioSite → Option AioSite
aio_tryreply now a y =
    if any_faulting a.slvrs y.cache
    then some y
    else if a.repl
    then aio_replreply a y
    else aio_reply now a y

-- What `slvr_fsaio_done` makes of the sliver.
abbrev pub fsaio_slvr : ℕ → Slvr → Slvr
fsaio_slvr rc s =
    if rc == 0
    then record s { faulting = false; datardy = true }
    else record s { faulting = false; dataerr = true; err = rc }

-- `slvr_fsaio_done`
unfoldable pub fsaio_done : ℕ → ℕ → ℕ → AioSite → Option AioSite
fsaio_done now rc i y = elim (y.cache.slvrs i) [
  | none ↦ none
  | some s ↦
      let y1 = record y {
        cache = put_slvr i (fsaio_slvr rc s) y.cache;
        aioreply = arr_set y.aioreply i none;
      } in
      if not s.faulting || s.datardy || s.dataerr
      then none
      else elim (y.aioreply i) [ none ↦ some y1 | some a ↦ aio_tryreply now a y1 ]
]

-- The loop of `sli_ric_handle_io` that looks for a sliver to wait for: whether there is one.
unfoldable pub aio_attach : AioReply → List ℕ → AioSite → AioSite × Bool
aio_attach a [] y = (y, false)
aio_attach a (i ∷ is) y =
    let rest = aio_attach a is y in
    if is_faulting y.cache i
    then (record y { aioreply = arr_set y.aioreply i (some a) }, true)
    else rest
