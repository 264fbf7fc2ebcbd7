-- ===== src/UpProc.antt =====
-- slashd/up_sched_res.c `upd_proc_bmap`, which looks for something to do for a bmap, with the two
-- routines that take a bmap into and out of the scheduler: `upd_proc_pagein_unit` and
-- `slm_upsch_revert_cb`.
pub mod Paging
pub mod Revert
pub mod Offline
pub mod Arrange
use mathlib.Core.Option
use slash.Prelude.{
  ℕ, ◌+◌, ◌*◌, List, [], ◌∷◌, none, some, Bool, true, false, not, ◌&&◌, ◌||◌, ◌==◌, if◌then◌else◌,
}
use slash.Prelude.{Option}
use slash.Bandwidth.{Ios}
use slash.BmapMds.{
  Bmap, breplst_repl_sched, breplst_repl_queued, breplst_valid, breplst_truncpndg, breplst_garbage,
  breplst_garbage_sched,
}
use slash.BmapWrite.{WriteOutcome, bmap_write}
use slash.Request.{write_logrepls}
use slash.Residency.{Tract, Retif, arr_set, brepls_init, bmap_walk, bmap_walk_all}
use slash.ReplTable.{get_bmap_ios_stat, sl_bits_per_replica}
use slash.Traffic.{Slivers}
use slash.UpReclaim.{Rpc, Verdict, give_up, unsuccessful, success, tryptrunc, trypreclaim}
use slash.UpSched.{ReplReq, Tried, Attempt, bmap_apply, one_change, tryrepl}

-- What is configured of a server, and the outcomes of the RPC layer with it: `later` joins the type
-- SLREST_ARCHIVAL_FS and the flags SIF_DISABLE_LEASE and SIF_DISABLE_ADVLEASE.
pub record Res : Type 0 where
  pub later : Bool
  pub batch_rc : ℕ
  pub rpc : Rpc

-- What `upd_proc_bmap` reads beside the bmap and the servers: the number of replicas, the outcome of a
-- write, the IDs of the replicas, the configuration, whether a write lease is out, what the traffic
-- depends on, and the orders that the two random iterations take.
pub record Proc : Type 0 where
  pub nr : ℕ
  pub out : WriteOutcome
  pub repl : ℕ → ℕ
  pub res : ℕ → Option Res
  pub wr_ion : Bool
  pub slivers : Slivers
  pub dsts : List ℕ
  pub srcs : ℕ → Bool → List ℕ

-- The bmap and the servers, what was asked of them, and `valid_exists`.
pub record Work : Type 0 where
  pub bmap : Bmap
  pub ios : ℕ → Ios
  pub sent : List ReplReq
  pub valid_exists : Bool

abbrev keep_sent : Option ReplReq → List ReplReq → List ReplReq
keep_sent none xs = xs
keep_sent (some x) xs = x ∷ xs

abbrev pub tried_work : Work → Tried → Work
tried_work w t = record w { bmap = t.bmap; ios = t.ios; sent = keep_sent t.sent w.sent }

-- The body of the loop over the sources, with the destination's index and its outcomes: the flag tells
-- that a replication was arranged, which ends it all.
unfoldable pub try_src : Proc → ℕ → Res → Bool → ℕ → Work → Option (Work × Bool)
try_src p dst d pass src w = elim (p.res (p.repl src)) [
  | none ↦ some (w, false)
  | some s ↦
      if src == dst
        || not (get_bmap_ios_stat w.bmap.repls (sl_bits_per_replica * src) == breplst_valid)
      then some (w, false)
      else let w1 = record w { valid_exists = true } in
        if not (if pass then s.later else not s.later) || not s.rpc.online
        then some (w1, false)
        else Option.map (λ t. (tried_work w1 t, t.ok))
            (tryrepl p.nr p.out
              (record {
                src = p.repl src;
                dst = p.repl dst;
                slivers = p.slivers;
                online = d.rpc.online;
                batch_rc = d.batch_rc;
              })
              (sl_bits_per_replica * dst) w1.bmap w1.ios)
]

unfoldable pub try_srcs : Proc → ℕ → Res → Bool → List ℕ → Work → Option (Work × Bool)
try_srcs p dst d pass [] w = some (w, false)
try_srcs p dst d pass (src ∷ srcs) w = elim (try_src p dst d pass src w) [
  | none ↦ none
  | some (w', true) ↦ some (w', true)
  | some (w', false) ↦ try_srcs p dst d pass srcs w'
]

abbrev cancel_retif : Retif
cancel_retif = arr_set (brepls_init 0) breplst_repl_queued 1

-- A request with no source is canceled.
unfoldable pub cancel : Proc → ℕ → Work → Option (Work × Bool)
cancel p dst w =
    elim (bmap_apply w.bmap (one_change breplst_repl_queued breplst_garbage) (some cancel_retif)
      (sl_bits_per_replica * dst)) [
        | none ↦ none
        | some (b, rc) ↦
            if rc == 0
            then some (record w { bmap = b }, false)
            else Option.map (λ b'. (record w { bmap = b' }, true)) (write_logrepls p.nr p.out b)
      ]

-- The case of BREPLST_REPL_QUEUED: two passes over the sources.
unfoldable pub arrange : Proc → ℕ → Res → Work → Option (Work × Bool)
arrange p dst d w =
    if p.wr_ion then some (w, false) else elim (try_srcs p dst d false (p.srcs dst false) w) [
      | none ↦ none
      | some (w1, true) ↦ some (w1, true)
      | some (w1, false) ↦ elim (try_srcs p dst d true (p.srcs dst true) w1) [
        | none ↦ none
        | some (w2, true) ↦ some (w2, true)
        | some (w2, false) ↦ if w2.valid_exists then some (w2, false) else cancel p dst w2
      ]
    ]

abbrev pub is_success : Verdict → Bool
is_success give_up = false
is_success unsuccessful = false
is_success success = true

-- The body of the loop over the destinations.
unfoldable pub proc_dst : Proc → ℕ → Work → Option (Work × Bool)
proc_dst p dst w = elim (p.res (p.repl dst)) [
  | none ↦ some (w, false)
  | some d ↦
      let id = p.repl dst in
      let off = sl_bits_per_replica * dst in
      let val = get_bmap_ios_stat w.bmap.repls off in
      if val == breplst_repl_queued
      then arrange p dst d w
      else if val == breplst_truncpndg
      then Option.map (λ r. (record w { bmap = r.0; ios = arr_set w.ios id r.1 }, is_success r.2))
          (tryptrunc p.nr p.slivers.bno d.rpc off w.bmap (w.ios id))
      else if val == breplst_garbage
      then Option.map (λ r. (record w { bmap = r.0 }, r.1))
          (trypreclaim p.nr p.out d.rpc.online d.batch_rc off w.bmap (w.ios id))
      else some (w, false)
]

unfoldable pub proc_dsts : Proc → List ℕ → Work → Option (Work × Bool)
proc_dsts p [] w = some (w, false)
proc_dsts p (dst ∷ dsts) w = elim (proc_dst p dst w) [
  | none ↦ none
  | some (w', true) ↦ some (w', true)
  | some (w', false) ↦ proc_dsts p dsts w'
]

-- BMAPOD_MODIFY_DONE, BMAP_UNBUSY and FCMH_UNBUSY, which assert that the busy flags are held.
unfoldable pub proc_end : Bmap → Option Bmap
proc_end b =
    if b.busy && b.fcmh_busy
    then some (record b { wrlock = false; busy = false; fcmh_busy = false })
    else none

-- `upd_proc_bmap`, from a thread that holds neither mode of the lock.
unfoldable pub proc_bmap : Proc → Bmap → (ℕ → Ios) → Option Work
proc_bmap p b ios =
    let w : Work = record { bmap = b; ios = ios; sent = []; valid_exists = false } in
    if b.replmodwr
    then some w
    else elim (proc_dsts p p.dsts
        (record w { bmap = record b { fcmh_busy = true; busy = true; upd_busy = true } })) [
          | none ↦ none
          | some (w', true) ↦ some w'
          | some (w', false) ↦ Option.map (λ b'. record w' { bmap = b' }) (proc_end w'.bmap)
        ]

abbrev pub pagein_retif : Retif
pagein_retif = arr_set (arr_set (brepls_init 0) breplst_repl_queued 1) breplst_truncpndg 1

-- `upd_proc_pagein_unit` for a bmap that was found: the flag tells that its rows are purged.
unfoldable pub pagein_unit : ℕ → Bmap → Option (Bmap × Bool)
pagein_unit nr b =
    elim (bmap_walk_all nr (record b { busy = true; wrlock = true }) none (some pagein_retif)
      true) [
        | none ↦ none
        | some (b1, rc) ↦
            let b2 = record b1 { wrlock = false; busy = false } in
            some (if rc == 0 then (b2, true) else (record b2 { enqueued = b2.enqueued + 1 }, false))
      ]

abbrev pub revert_tract : Tract
revert_tract =
    arr_set (one_change breplst_repl_sched breplst_repl_queued) breplst_garbage_sched
      (some breplst_garbage)

abbrev pub revert_retif : Retif
revert_retif = arr_set (arr_set (brepls_init 0) breplst_repl_sched 1) breplst_garbage_sched 1

-- `slm_upsch_revert_cb` for a bmap that was found.
unfoldable pub revert_cb : ℕ → WriteOutcome → Bmap → Option Bmap
revert_cb nr out b = elim (bmap_walk_all nr b (some revert_tract) (some revert_retif) false) [
  | none ↦ none
  | some (b1, rc) ↦
      Option.map (λ (b2 : Bmap). record b2 { busy = false; fcmh_busy = false })
        (if rc == 0
          then some (record b1 { wrlock = false })
          else Option.map (λ r. r.0) (bmap_write nr false out b1))
]
