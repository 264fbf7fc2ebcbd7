-- ===== src/BmapMds.antt =====
-- include/bmap.h and slashd/bmap_mds.h: the states of a replica, and the part of a bmap that the
-- metadata server's replication code works on.
use slash.Prelude.{ℕ, List, Option, Bool}

-- BREPLST_*
abbrev pub breplst_invalid : ℕ
breplst_invalid = 0

abbrev pub breplst_repl_sched : ℕ
breplst_repl_sched = 1

abbrev pub breplst_repl_queued : ℕ
breplst_repl_queued = 2

abbrev pub breplst_valid : ℕ
breplst_valid = 3

abbrev pub breplst_truncpndg : ℕ
breplst_truncpndg = 4

abbrev pub breplst_truncpndg_sched : ℕ
breplst_truncpndg_sched = 5

abbrev pub breplst_garbage : ℕ
breplst_garbage = 6

abbrev pub breplst_garbage_sched : ℕ
breplst_garbage_sched = 7

abbrev pub nbreplst : ℕ
nbreplst = 8

-- BRPOL_*
abbrev pub brpol_onetime : ℕ
brpol_onetime = 0

abbrev pub brpol_persist : ℕ
brpol_persist = 1

-- The statements that go to the table of scheduled work, for a resource ID. A status or a priority
-- that is passed as SQL NULL, or a priority of -1, is `none`.
pub data JobStatus : Type 0 where
  job_queued job_scheduled : JobStatus

pub data Job : Type 0 where
  insert_job : ℕ → Option ℕ → Option ℕ → Job
  delete_job : ℕ → Job
  update_job : ℕ → Option JobStatus → Option ℕ → Option ℕ → Job

-- `struct bmap` with its `struct bmap_mds_info`, as the calling thread sees them. The lock fields
-- say what this thread holds: `fcmh_busy` and `busy` the busy flags of the file and of the bmap,
-- `wrlock` and `rdlock` the two modes of `bmi_rwlock`. `upd` tells whether `bmi_upd` has been
-- initialised, `upd_busy` whether it is marked busy. `journal` is what was logged of the table, newest first; `work` counts the pending
-- `slm_wkcb_wr_brepl` items; `enqueued` counts the calls of `upsch_enqueue`. A priority of -1 is
-- `none`. `jobs` holds the statements run so far, oldest first.
pub record Bmap : Type 0 where
  pub repls : List ℕ
  pub orepls : List ℕ
  pub bgen : ℕ
  pub replpol : ℕ
  pub fcmh_busy : Bool
  pub busy : Bool
  pub wrlock : Bool
  pub rdlock : Bool
  pub replmodwr : Bool
  pub sys_prio : Option ℕ
  pub usr_prio : Option ℕ
  pub upd : Bool
  pub upd_busy : Bool
  pub journal : List (List ℕ)
  pub work : ℕ
  pub enqueued : ℕ
  pub jobs : List Job
