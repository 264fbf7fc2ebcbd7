-- ===== src/InvExcept.antt =====
-- slashd/repl_mds.c `_mds_repl_inv_except`: after new data has reached one replica, the others are
-- out of date.
pub mod Laws
use slash.Prelude.{
  ℕ, ◌+◌, ◌%◌, ◌^◌, List, [], ◌∷◌, ◌++◌, Option, none, some, Bool, true, false, ◌==◌, if◌then◌else◌,
}
use slash.BmapMds.{
  Bmap, breplst_invalid, breplst_repl_sched, breplst_repl_queued, breplst_valid, breplst_garbage,
  brpol_persist,
}
use slash.BmapWrite.{WriteOutcome, bmap_write}
use slash.Residency.{Tract, Retif, arr_set, brepls_init, brepls_init_idx, walk, bmap_walk}

-- The changes and return values for the replica that has the new data.
abbrev pub active_tract : Tract
active_tract =
    arr_set (arr_set (brepls_init none) breplst_invalid (some breplst_valid)) breplst_garbage
      (some breplst_valid)

abbrev pub active_retif : Retif
active_retif = arr_set (arr_set brepls_init_idx breplst_invalid 0) breplst_valid 0

-- Those for the others, by the replication policy.
abbrev pub stale_tract : ℕ → Tract
stale_tract policy =
    arr_set
      (arr_set (brepls_init none) breplst_valid
        (some (if policy == brpol_persist then breplst_repl_queued else breplst_garbage)))
      breplst_repl_sched (some breplst_repl_queued)

abbrev pub stale_retif : Retif
stale_retif = arr_set (brepls_init 0) breplst_valid 1

-- `mds_repl_inv_requeue`, with the indices in place of the IDs.
abbrev pub inv_requeue : ℕ → ℕ → List ℕ → List ℕ
inv_requeue idx val qv = if val == breplst_valid then qv ++ (idx ∷ []) else qv

-- BHGEN_INCREMENT, on a 32-bit generation.
abbrev pub bhgen_increment : Bmap → Bmap
bhgen_increment b = record b { bgen = (b.bgen + 1) % 2 ^ 32 }

-- Both walks and the new generation: the bmap, and the return code of the first walk.
unfoldable pub inv_walks : ℕ → Bmap → ℕ → Option (Bmap × ℕ)
inv_walks nr b iosidx =
    elim (bmap_walk nr b (some active_tract) (some active_retif) false (iosidx ∷ [])) [
      | none ↦ none
      | some (b1, rc) ↦
          elim (walk nr b1 (some (stale_tract b1.replpol)) (some stale_retif) false true
            (iosidx ∷ []) inv_requeue []) [
              | none ↦ none
              | some (b2, found, qv) ↦ some ((if found == 0 then b2 else bhgen_increment b2), rc)
            ]
    ]

-- `_mds_repl_inv_except`, with the outcome of the write that it makes unless `defer` is set.
unfoldable pub inv_except : ℕ → WriteOutcome → Bmap → ℕ → Bool → Option (Bmap × ℕ)
inv_except nr out b iosidx defer = elim (inv_walks nr b iosidx) [
  | none ↦ none
  | some (b1, rc) ↦ elim defer [
    | true ↦ some (b1, rc)
    | false ↦ elim (bmap_write nr false out b1) [
      | none ↦ none
      | some (b2, rc') ↦ some (
        (if b1.replpol == brpol_persist then record b2 { enqueued = b2.enqueued + 1 } else b2),
        rc',
      )
    ]
  ]
]
