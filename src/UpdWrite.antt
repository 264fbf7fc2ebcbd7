-- ===== src/UpdWrite.antt =====
-- slashd/repl_mds.c `slm_repl_upd_write`: a change of the replica table becomes statements on the
-- table of scheduled work.
pub mod Laws
use slash.Prelude.{
  ℕ, zero, suc, List, [], ◌∷◌, ◌++◌, map, Option, none, some, Bool, true, false, not, ◌&&◌, ◌||◌,
  ◌==◌, if◌then◌else◌,
}
use slash.BmapMds.{
  Bmap, Job, JobStatus, job_queued, job_scheduled, insert_job, delete_job, update_job,
  breplst_invalid, breplst_repl_sched, breplst_repl_queued, breplst_valid, breplst_truncpndg,
  breplst_truncpndg_sched, breplst_garbage, breplst_garbage_sched,
}
use slash.Residency.{upto}
use slash.Residency.Apply.{slot}

-- What happens for one replica: the list it is pushed to, with the status there.
pub data Change : Type 0 where
  keep push_add push_del : Change
  push_chg : Option JobStatus → Change

abbrev is_some : Option ℕ → Bool
is_some none = false
is_some (some x) = true

-- The chain of conditions in the loop; `notsup` is SIF_PRECLAIM_NOTSUP.
unfoldable pub classify : Bool → Option ℕ → Option ℕ → ℕ → ℕ → Change
classify notsup sprio uprio vold vnew =
    if vold == vnew
    then keep
    else if (not (vold == breplst_repl_sched) && vnew == breplst_repl_queued)
        || (vnew == breplst_garbage && not notsup)
    then push_add
    else if (vold == breplst_repl_queued
          || vold == breplst_repl_sched
          || vold == breplst_truncpndg_sched
          || vold == breplst_truncpndg
          || vold == breplst_garbage_sched
          || vold == breplst_valid)
        && (vnew == breplst_garbage || vnew == breplst_valid || vnew == breplst_invalid)
    then push_del
    else if vold == breplst_repl_sched || vold == breplst_truncpndg_sched
    then push_chg (some job_queued)
    else if (not (vold == breplst_repl_queued) && vnew == breplst_repl_queued)
        || (not (vold == breplst_truncpndg) && vnew == breplst_truncpndg)
    then push_chg (some job_scheduled)
    else if is_some sprio || is_some uprio
    then push_chg none
    else keep

-- The three lists, as the statements that the loops behind make of them.
pub record Changes : Type 0 where
  pub adds : List Job
  pub dels : List Job
  pub chgs : List Job

abbrev no_changes : Changes
no_changes = record { adds = []; dels = []; chgs = [] }

-- PUSH_IOS. `slm_upsch_insert` runs no statement for a resource that is not configured.
unfoldable pub push_ios : Bool → Option ℕ → Option ℕ → ℕ → Change → Changes → Changes
push_ios known sprio uprio resid keep c = c
push_ios known sprio uprio resid push_add c =
    if known then record c { adds = c.adds ++ (insert_job resid sprio uprio ∷ []) } else c
push_ios known sprio uprio resid push_del c = record c { dels = c.dels ++ (delete_job resid ∷ []) }
push_ios known sprio uprio resid (push_chg st) c = record c {
  chgs = c.chgs ++ (update_job resid st sprio uprio ∷ []);
}

-- `libsl_id2res`: nothing, or whether the resource cannot reclaim parts of a file. One that is not
-- configured counts as `slm_null_iosinfo`, which cannot.
abbrev pub notsup_of : Option Bool → Bool
notsup_of none = true
notsup_of (some n) = n

abbrev pub known_of : Option Bool → Bool
known_of none = false
known_of (some n) = true

abbrev pub change_at : (ℕ → ℕ) → (ℕ → Option Bool) → Bmap → ℕ → Change
change_at repl res b n =
    classify (notsup_of (res (repl n))) b.sys_prio b.usr_prio (slot b.orepls n) (slot b.repls n)

-- The loop over the replicas; `repl` is `fcmh_2_repl`.
unfoldable pub collect : (ℕ → ℕ) → (ℕ → Option Bool) → Bmap → ℕ → Changes
collect repl res b zero = no_changes
collect repl res b (suc n) =
    push_ios (known_of (res (repl n))) b.sys_prio b.usr_prio (repl n) (change_at repl res b n)
      (collect repl res b n)

-- `slm_repl_upd_write(b, rel)`. With `rel`, the read mode is dropped if it was taken here.
unfoldable pub repl_upd_write : ℕ → (ℕ → ℕ) → (ℕ → Option Bool) → Bool → Bmap → Bmap
repl_upd_write nr repl res rel b =
    let c = collect repl res b nr in
    let b1 = record b {
      jobs = b.jobs ++ (c.adds ++ (c.dels ++ c.chgs));
      sys_prio = none;
      usr_prio = none;
      rdlock = if b.wrlock then b.rdlock else true;
    } in
    if rel
    then record b1 {
      rdlock = b.rdlock;
      fcmh_busy = false;
      replmodwr = false;
      busy = false;
      upd_busy = false;
    }
    else b1
