-- ===== src/UpReclaim.antt =====
-- slashd/up_sched_res.c: the resolution of a truncation within a bmap (`slm_upsch_tryptrunc`,
-- `slm_upsch_finish_ptrunc`, `slm_upsch_wk_finish_ptrunc`), the reclaim of a dropped replica
-- (`slm_upsch_trypreclaim`, `slm_batch_preclaim_cb`), and the updates that wait for a server
-- (`upd_rpmi_add`, `upd_rpmi_remove`). RPC outcomes are arguments.
pub mod Garbage
pub mod Ptrunc
use mathlib.Core.Option
use slash.Prelude.{
  ℕ, List, [], ◌∷◌, ◌++◌, none, some, Bool, true, false, not, ◌&&◌, ◌||◌, ◌==◌, if◌then◌else◌,
}
use slash.Prelude.{Option}
use slash.Bandwidth.{Ios}
use slash.BmapMds.{
  Bmap, breplst_invalid, breplst_truncpndg, breplst_truncpndg_sched, breplst_garbage,
  breplst_garbage_sched,
}
use slash.BmapWrite.{WriteOutcome, bmap_write, repl_bmap_rel}
use slash.Request.{write_logrepls}
use slash.Residency.{
  Tract, Retif, arr_set, brepls_init, brepls_init_idx, bmap_walk, bmap_walk_all, iosidx_in,
}
use slash.UpSched.{bmap_apply, one_change}

-- `upd_rpmi_add` and `upd_rpmi_remove`, on the update of the bmap with a number.
unfoldable pub upd_rpmi_add : ℕ → Ios → Ios
upd_rpmi_add upd x = record x {
  upschq = if iosidx_in upd x.upschq then x.upschq else x.upschq ++ (upd ∷ []);
}

unfoldable pub remove_first : ℕ → List ℕ → List ℕ
remove_first n [] = []
remove_first n (x ∷ xs) = if x == n then xs else x ∷ remove_first n xs

unfoldable pub upd_rpmi_remove : ℕ → Ios → Ios
upd_rpmi_remove upd x = record x { upschq = remove_first upd x.upschq }

abbrev pub revert_ptrunc : Tract
revert_ptrunc = one_change breplst_truncpndg_sched breplst_truncpndg

-- `slm_upsch_finish_ptrunc` with a bmap; with none it changes nothing.
unfoldable pub finish_ptrunc : ℕ → ℕ → ℕ → Bmap → Ios → Option (Bmap × Ios)
finish_ptrunc upd rc off b x =
    if rc == 0 then some (b, x) else elim (bmap_apply b revert_ptrunc none off) [
      | none ↦ none
      | some (b', val) ↦ some (b', upd_rpmi_remove upd x)
    ]

-- `slm_upsch_wk_finish_ptrunc`: `none` outside tells that the file is busy and the item is kept.
unfoldable pub wk_finish_ptrunc : Bool → ℕ → ℕ → ℕ → Bmap → Ios → Option (Option (Bmap × Ios))
wk_finish_ptrunc trybusy upd rc off b x =
    if not trybusy
    then none
    else some (
        Option.map (λ r. (record r.0 { fcmh_busy = false }, r.1))
          (finish_ptrunc upd rc off (record b { fcmh_busy = true }) x))

-- -1, 0 and 1.
pub data Verdict : Type 0 where
  give_up unsuccessful success : Verdict

-- What the RPC layer makes of it: whether there is a connection, and the codes of SL_RSX_NEWREQ and
-- SL_NBRQSET_ADD.
pub record Rpc : Type 0 where
  pub online : Bool
  pub newreq_rc : ℕ
  pub add_rc : ℕ

abbrev pub ptrunc_retif : Retif
ptrunc_retif = arr_set (brepls_init 0) breplst_truncpndg_sched 1

-- The part of `slm_upsch_tryptrunc` that has a request.
unfoldable pub send_ptrunc : ℕ → Rpc → ℕ → Bmap → Ios → Option (Bmap × Ios × Verdict)
send_ptrunc upd q off b x =
    elim (bmap_apply b (one_change breplst_truncpndg breplst_truncpndg_sched) (some brepls_init_idx)
      off) [
        | none ↦ none
        | some (b1, val) ↦
            if not (val == breplst_truncpndg)
            then some (b1, x, unsuccessful)
            else if q.add_rc == 0
            then some (repl_bmap_rel b1, upd_rpmi_add upd x, success)
            else Option.map (λ r. (r.0, r.1, unsuccessful))
                (finish_ptrunc upd q.add_rc off b1 (upd_rpmi_add upd x))
      ]

-- `slm_upsch_tryptrunc`.
unfoldable pub tryptrunc : ℕ → ℕ → Rpc → ℕ → Bmap → Ios → Option (Bmap × Ios × Verdict)
tryptrunc nr upd q off b x = elim (bmap_walk_all nr b none (some ptrunc_retif) true) [
  | none ↦ none
  | some (b1, rc) ↦
      if not (rc == 0)
      then some (b1, x, give_up)
      else if not q.online || not (q.newreq_rc == 0)
      then some (b1, x, unsuccessful)
      else send_ptrunc upd q off b1 x
]

-- `slm_upsch_trypreclaim`, with the codes of the connection and of `batchrq_add`.
unfoldable pub trypreclaim : ℕ → WriteOutcome → Bool → ℕ → ℕ → Bmap → Ios → Option (Bmap × Bool)
trypreclaim nr out online batch_rc off b x =
    if x.notsup || (not online || not (batch_rc == 0))
    then some (b, false)
    else elim (bmap_apply b (one_change breplst_garbage breplst_garbage_sched)
        (some brepls_init_idx) off) [
          | none ↦ none
          | some (b1, val) ↦ elim (bmap_write nr true out b1) [
            | none ↦ none
            | some (b2, rc) ↦ some (b2, rc == 0)
          ]
        ]

-- The part of `slm_batch_preclaim_cb` on the bmap of an entry, with the code of the batch and the
-- index that `mds_repl_iosv_lookup` found. `none` for the index is a failed lookup: its code is a
-- positive number, so that the test `rc >= 0` lets it pass, and the walk reads outside the table.
unfoldable pub preclaim_finish : ℕ → WriteOutcome → ℕ → Option ℕ → Bmap → Option Bmap
preclaim_finish nr out rc none b = none
preclaim_finish nr out rc (some idx) b =
    elim (bmap_walk nr b
      (some
        (one_change breplst_garbage_sched (if rc == 0 then breplst_invalid else breplst_garbage)))
      none false (idx ∷ [])) [ none ↦ none | some (b1, val) ↦ write_logrepls nr out b1 ]

-- What it does to the server first, for the code PFLERR_NOTSUP.
unfoldable pub preclaim_notsup : ℕ → ℕ → Ios → Ios
preclaim_notsup notsup rc x = if rc == notsup then record x { notsup = true } else x
