-- ===== src/UpSched.antt =====
-- slashd/up_sched_res.c: the work that the metadata server arranges with I/O servers for one replica of
-- a bmap, and what it does once they have answered: `slm_upsch_tryrepl`, `slm_batch_repl_cb`,
-- `slm_upsch_tryptrunc`, `slm_upsch_finish_ptrunc`, `slm_upsch_trypreclaim` and
-- `slm_batch_preclaim_cb`. Connections and batches are the RPC layer's: their outcomes are arguments.
-- As in Residency, `none` stands for a failed assertion or a fatal message.
pub mod Apply
pub mod Finish
pub mod Undo
pub mod Try
use mathlib.Core.Option
use slash.Prelude.{
  ℕ, ◌+◌, ◌-◌, ◌*◌, List, [], ◌∷◌, ◌++◌, none, some, Bool, true, false, not, ◌&&◌, ◌||◌, ltb, ◌==◌,
  if◌then◌else◌,
}
use slash.Prelude.{Option}
use slash.Prelude.Ints.{pos, neg}
use slash.Bandwidth.{Ios, resmpair_bw_adj, upschq_resm}
use slash.BmapMds.{
  Bmap, update_job, job_queued, job_scheduled, breplst_invalid, breplst_repl_sched,
  breplst_repl_queued, breplst_valid, breplst_truncpndg, breplst_truncpndg_sched, breplst_garbage,
  breplst_garbage_sched,
}
use slash.BmapWrite.{WriteOutcome, bmap_write, repl_bmap_rel}
use slash.Errors.{slerr_gen_old, slerr_ion_offline}
use slash.Request.{slash_bmap_size, write_logrepls}
use slash.Residency.{
  Tract, Retif, arr_set, brepls_init, brepls_init_idx, apply, bmap_walk, bmap_walk_all,
}
use slash.Traffic.{Slivers, lastbno, calc_repltraffic}

-- `mds_repl_bmap_apply`: a change of one slot with no callback.
unfoldable pub bmap_apply : Bmap → Tract → Option Retif → ℕ → Option (Bmap × ℕ)
bmap_apply b t r off =
    Option.map (λ x. (x.0, x.1)) (apply b (some t) r false off (λ i v s. s) (tt {0}))

-- One entry of the table of changes that is set.
abbrev pub one_change : ℕ → ℕ → Tract
one_change old new = arr_set (brepls_init none) old (some new)

-- The statement "UPDATE upsch SET status" for a server.
abbrev pub set_status : ℕ → Bool → Bmap → Bmap
set_status resid queued b = record b {
  jobs =
      b.jobs
      ++ (update_job resid (some (if queued then job_queued else job_scheduled)) none none ∷ []);
}

-- The answer for one entry of a batch: whether it stands in the reply, and the code that is read.
pub record Answer : Type 0 where
  pub within : Bool
  pub rc : ℕ

-- What `slm_batch_repl_cb` has for an entry: the generation that was asked for, the offset into the
-- table, and the answer if there is a reply at all.
pub record ReplEntry : Type 0 where
  pub bgen : ℕ
  pub off : ℕ
  pub answer : Option Answer

abbrev pub repl_done_tract : Tract
repl_done_tract =
    arr_set (one_change breplst_repl_sched breplst_valid) breplst_repl_queued (some breplst_valid)

abbrev pub repl_done_retif : Retif
repl_done_retif = arr_set (arr_set (brepls_init 0) breplst_repl_sched 1) breplst_repl_queued 1

abbrev pub repl_fail_retif : Retif
repl_fail_retif = arr_set (brepls_init 0) breplst_repl_sched 1

-- The code of the answer, once the generation is compared.
abbrev pub answer_rc : ReplEntry → ℕ → Answer → ℕ
answer_rc e bgen a = if a.rc == 0 && not (e.bgen == bgen) then slerr_gen_old else a.rc

abbrev pub repl_succeeded : ℕ → ReplEntry → ℕ → Bool
repl_succeeded ecode e bgen = elim e.answer [
  | none ↦ false
  | some a ↦ ecode == 0 && (a.within && answer_rc e bgen a == 0)
]

abbrev pub repl_retry : ReplEntry → ℕ → Bool
repl_retry e bgen = elim e.answer [ none ↦ true | some a ↦ answer_rc e bgen a == slerr_ion_offline ]

-- The change with its write and the release, which `slm_batch_repl_cb` ends with.
unfoldable pub apply_write : ℕ → WriteOutcome → Bmap → Tract → Option Retif → ℕ → Option Bmap
apply_write nr out b t r off = elim (bmap_apply b t r off) [
  | none ↦ none
  | some (b1, rc) ↦
      if rc == 0
      then some (repl_bmap_rel b1)
      else Option.map repl_bmap_rel (write_logrepls nr out b1)
]

-- The part of `slm_batch_repl_cb` on the bmap of an entry.
unfoldable pub repl_finish : ℕ → WriteOutcome → ℕ → ℕ → ReplEntry → Bmap → Option Bmap
repl_finish nr out ecode resid e b =
    if repl_succeeded ecode e b.bgen
    then apply_write nr out b repl_done_tract (some repl_done_retif) e.off
    else if repl_retry e b.bgen
    then apply_write nr out (set_status resid true b)
        (one_change breplst_repl_sched breplst_repl_queued) (some repl_fail_retif) e.off
    else apply_write nr out b (one_change breplst_repl_sched breplst_garbage) (some repl_fail_retif)
        e.off

-- What is known of an attempt to arrange a replication: the numbers of the servers, what the traffic
-- depends on, whether the destination is connected, and the return code of `batchrq_add`.
pub record Attempt : Type 0 where
  pub src : ℕ
  pub dst : ℕ
  pub slivers : Slivers
  pub online : Bool
  pub batch_rc : ℕ

-- `struct srt_replwk_reqent`, less the names of file and bmap.
pub record ReplReq : Type 0 where
  pub bgen : ℕ
  pub src_resid : ℕ
  pub len : ℕ

-- The size of what is left of the file at the bmap, and the length that is asked for, which is shorter
-- for the last bmap.
unfoldable pub size_at : Slivers → ℕ
size_at s = if ltb (s.bno * slash_bmap_size) s.fsz then s.fsz - s.bno * slash_bmap_size else s.fsz

unfoldable pub req_len : Slivers → ℕ
req_len s =
    if s.bno == lastbno s.fsz
    then (if ltb (size_at s) slash_bmap_size then size_at s else slash_bmap_size)
    else slash_bmap_size

-- The bmap, the servers, the request that was put into a batch, and the return value.
pub record Tried : Type 0 where
  pub bmap : Bmap
  pub ios : ℕ → Ios
  pub sent : Option ReplReq
  pub ok : Bool

abbrev pub page_in : ℕ → (ℕ → Ios) → ℕ → Ios
page_in dst ios = arr_set ios dst (upschq_resm (ios dst))

-- `fail` of `slm_upsch_tryrepl`, once the state is as it was: the reservation is dropped.
unfoldable pub unreserve : Attempt → Bmap → (ℕ → Ios) → Option Tried
unreserve a b ios = elim (resmpair_bw_adj ios a.src a.dst (neg (calc_repltraffic a.slivers))) [
  | none ↦ none
  | some (ios', rc, more) ↦ some (record { bmap = b; ios = ios'; sent = none; ok = false })
]

-- `fail` once the state may have been changed.
unfoldable pub undo_repl : Attempt → ℕ → Bmap → (ℕ → Ios) → Option Tried
undo_repl a off b ios =
    elim (bmap_apply b (one_change breplst_repl_sched breplst_repl_queued) none off) [
      | none ↦ none
      | some (b', rc) ↦ unreserve a (repl_bmap_rel b') ios
    ]

-- The part of `slm_upsch_tryrepl` that has found a server and bandwidth.
unfoldable pub mark_repl : Attempt → ℕ → Bmap → (ℕ → Ios) → Bool → Option Tried
mark_repl a off b ios more =
    elim (bmap_apply b (one_change breplst_repl_queued breplst_repl_sched) (some brepls_init_idx)
      off) [
        | none ↦ none
        | some (b1, val) ↦
            if val == breplst_valid || val == breplst_repl_sched
            then none
            else if not (val == breplst_repl_queued)
            then undo_repl a off b1 ios
            else if not (a.batch_rc == 0)
            then undo_repl a off (set_status a.dst true (set_status a.dst false b1)) ios
            else some (record {
              bmap = repl_bmap_rel (set_status a.dst false b1);
              ios = if more then page_in a.dst ios else ios;
              sent = some (record { bgen = b.bgen; src_resid = a.src; len = req_len a.slivers });
              ok = true;
            })
      ]

-- `slm_upsch_tryrepl`.
unfoldable pub tryrepl : ℕ → WriteOutcome → Attempt → ℕ → Bmap → (ℕ → Ios) → Option Tried
tryrepl nr out a off b ios =
    let amt = calc_repltraffic a.slivers in
    if amt == 0
    then elim (bmap_apply b (one_change breplst_repl_queued breplst_valid) none off) [
      | none ↦ none
      | some (b1, rc) ↦
          Option.map (λ b2. record { bmap = b2; ios = page_in a.dst ios; sent = none; ok = true })
            (write_logrepls nr out b1)
    ]
    else elim (resmpair_bw_adj ios a.src a.dst (pos amt)) [
      | none ↦ none
      | some (ios1, rc, more) ↦
          if not rc
          then some (record { bmap = b; ios = ios1; sent = none; ok = false })
          else if not a.online || req_len a.slivers == 0
          then unreserve a b ios1
          else mark_repl a off b ios1 more
    ]
