-- ===== src/UpQueue.antt =====
-- slashd/up_sched_res.c `upsch_enqueue`, the turn of `slmupschthr_main` with `upd_proc`, and UPD_INCREF
-- and UPD_DECREF of slashd/up_sched_res.h: the queue of the scheduler, and the references that it holds
-- on bmaps. An update is known by a number, its type is a parameter.
pub mod Counted
use slash.Prelude.{
  ℕ, ◌+◌, ◌-◌, List, [], ◌∷◌, ◌++◌, Option, none, some, Bool, true, false, not, ◌&&◌, ◌==◌,
  if◌then◌else◌,
}
use slash.Residency.{arr_set, iosidx_in}

-- UPDT_*
pub data UpdType : Type 0 where
  updt_bmap updt_hldrop updt_pagein updt_pagein_unit : UpdType

abbrev pub is_bmap : UpdType → Bool
is_bmap updt_bmap = true
is_bmap updt_hldrop = false
is_bmap updt_pagein = false
is_bmap updt_pagein_unit = false

-- `slm_upschq`, the references of type BMAP_OPCNT_UPSCH that are held for each update, the update that
-- the thread works on, and how many updates went back to the pool.
pub record UpSchq : Type 0 where
  pub queue : List ℕ
  pub refs : ℕ → ℕ
  pub running : Option ℕ
  pub returned : ℕ

-- UPD_INCREF and UPD_DECREF. Their default case asserts a string, which never fails; the release of a
-- reference that is not held is `none`.
unfoldable pub upd_incref : (ℕ → UpdType) → ℕ → UpSchq → UpSchq
upd_incref type u s =
    if is_bmap (type u) then record s { refs = arr_set s.refs u (s.refs u + 1) } else s

unfoldable pub upd_decref : (ℕ → UpdType) → ℕ → UpSchq → Option UpSchq
upd_decref type u s =
    if not (is_bmap (type u))
    then some s
    else if s.refs u == 0
    then none
    else some (record s { refs = arr_set s.refs u (s.refs u - 1) })

-- `upsch_enqueue`, with FCMH_MDS_IN_PTRUNC of the file of a bmap.
unfoldable pub upsch_enqueue : (ℕ → UpdType) → Bool → ℕ → UpSchq → UpSchq
upsch_enqueue type in_ptrunc u s =
    if iosidx_in u s.queue
    then s
    else upd_incref type u (record s {
      queue = if is_bmap (type u) && not in_ptrunc then s.queue ++ (u ∷ []) else u ∷ s.queue;
    })

-- The thread takes an update, if there is one and it has none.
unfoldable pub take_upd : UpSchq → UpSchq
take_upd s = elim s.running [
  | some u ↦ s
  | none ↦ elim s.queue [ [] ↦ s | u ∷ us ↦ record s { queue = us; running = some u } ]
]

-- The end of `upd_proc`: a bmap's update drops its reference, another goes back to the pool.
unfoldable pub finish_upd : (ℕ → UpdType) → UpSchq → Option UpSchq
finish_upd type s = elim s.running [
  | none ↦ some s
  | some u ↦
      if is_bmap (type u)
      then upd_decref type u (record s { running = none })
      else some (record s { running = none; returned = s.returned + 1 })
]
