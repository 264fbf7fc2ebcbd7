-- ===== src/UpdWrite/Laws.antt =====
-- `slm_repl_upd_write`: which changes of a replica give which statements.
use slash.Prelude.{ℕ, ◌≡◌, ◌≢◌, ◌⊎◌, Option, none, some, Bool, arith}
use slash.BmapMds.{job_scheduled}
use slash.UpdWrite.{keep, push_chg, classify}

-- The status "S" is written for one change only, that to TRUNCPNDG from GARBAGE, GARBAGE_SCHED,
-- VALID, INVALID or a queued replication; the change from a queued to a scheduled replication does
-- not write it, nor does any other.
classify-scheduled :
    (notsup : Bool) (sprio uprio : Option ℕ) (vold vnew : ℕ)
    → classify notsup sprio uprio vold vnew ≡ push_chg (some job_scheduled)
    → (vnew ≡ 4) × (vold ≢ 4) × (vold ≢ 1) × (vold ≢ 5)
unfolding classify
classify-scheduled notsup sprio uprio vold vnew e =
    (ground arith, ground arith, ground arith, ground arith)

-- A replication that goes from queued to scheduled changes no status: there is a statement only for
-- a priority.
classify_schedule_lem :
    (notsup : Bool) (sprio uprio : Option ℕ)
    → (classify notsup sprio uprio 2 1 ≡ keep) ⊎ (classify notsup sprio uprio 2 1 ≡ push_chg none)
unfolding classify
classify_schedule_lem notsup sprio uprio = ground arith
