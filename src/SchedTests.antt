-- ===== src/SchedTests.antt =====
-- The theorems on the update scheduler and on the history of a table at small concrete states.
use slash.Prelude.{
  ℕ, ◌+◌, ◌*◌, ◌≡◌, refl, [], ◌∷◌, some, Bool, true, false, ◌==◌, ◌||◌, replicate, arith,
}
use slash.Bandwidth.{Bw, Ios, pair_has_bw, has_bw, howmany_units}
use slash.BmapMds.{Bmap}
use slash.Errors.{done}
use slash.History.{begin, next, delrq}
use slash.History.Kept.{Keeps}
use slash.History.Safe.{Happens-Keeps, History-has_valid}
use slash.InvExcept.{inv_walks}
use slash.InvExcept.Laws.{inv_walks-lost}
use slash.Prelude.Below.{some_below}
use slash.ReplTable.{get_bmap_ios_stat}
use slash.ReplTable.Slots.{IsTable}
use slash.Request.LastReplica.{has_valid}
use slash.Residency.{iosidx_in}
use slash.Residency.Apply.{slot, CanModify}
use slash.Tests.{
  bytes, bytes-IsTable, bmap, bmap-CanModify, out, one_two, one_two-AllLt, one_two-Distinct,
  has_valid_before, del_one_run, dropped, slot_zero,
}
use slash.Traffic.{Slivers, calc_repltraffic, tally, lastbno, lastslvr, lastsize}
use slash.UpProc.{Res, Proc}
use slash.UpProc.Arrange.{Ready, Arranged, proc_bmap-arranges, Copied, proc_bmap-copies}
use slash.UpProc.Offline.{NoneQueued, Ends, proc_bmap-offline}
use slash.UpProc.Revert.{Reverts, revert_cb_lem}
use slash.UpSched.{Attempt, ReplEntry, req_len, size_at}
use slash.UpSched.Finish.{Finishes, repl_finish_lem}
use slash.UpSched.Try.{Tries, tryrepl_lem, arranged, can_reserve}

History-has_valid_example : IsTable dropped.repls × (has_valid (slot dropped.repls) 3 ≡ true)
History-has_valid_example =
    History-has_valid 3 bytes dropped.repls (omega arith) bytes-IsTable has_valid_before (
      next bytes dropped.repls begin (
        delrq out 1 (2 ∷ []) bmap dropped (done 0)
          (record { free = bmap-CanModify; from = refl; to = refl }) one_two-AllLt one_two-Distinct
          del_one_run))

Happens-Keeps_example : Keeps 3 bytes dropped.repls
Happens-Keeps_example =
    Happens-Keeps 3 bytes dropped.repls (omega arith) bytes-IsTable has_valid_before (
      delrq out 1 (2 ∷ []) bmap dropped (done 0)
        (record { free = bmap-CanModify; from = refl; to = refl }) one_two-AllLt one_two-Distinct
        del_one_run)

-- A copy to replica 2 that was made for the generation that the bmap has.
abbrev entry : ReplEntry
entry = record { bgen = 7; off = 6; answer = some (record { within = true; rc = 0 }) }

repl_finish_lem_example : Finishes 3 out 0 30 entry 2 bmap
repl_finish_lem_example =
    repl_finish_lem 3 out 0 30 entry 2 0 bmap (omega arith) bmap-CanModify bytes-IsTable
      (omega arith) (omega arith) slot_zero refl

abbrev idle : Bw
idle = record { queued = 0; inflight = 0; assigned = 0 }

abbrev pub ios : ℕ → Ios
ios i = record {
  ingress = idle;
  egress = idle;
  aggr = idle;
  paging = false;
  notsup = false;
  pageins = 0;
  upschq = [];
}

-- A file of two bmaps and a bit, with data in the first sliver of bmap 0.
abbrev slivers : Slivers
slivers = record { fsz = 300000000; bno = 0; data_at = λ i. i == 0 }

abbrev copy : Attempt
copy = record { src = 10; dst = 30; slivers = slivers; online = true; batch_rc = 0 }

slot_two : slot bytes 2 ≡ 2
unfolding get_bmap_ios_stat
slot_two = refl

fits : can_reserve copy ios ≡ true
unfolding calc_repltraffic tally lastbno lastslvr lastsize req_len size_at pair_has_bw has_bw
    howmany_units
fits = refl

tryrepl_lem_example : Tries 3 out copy 2 bmap ios
tryrepl_lem_example =
    tryrepl_lem 3 out copy 2 0 bmap ios (omega arith) (omega arith) (omega arith) bmap-CanModify
      bytes-IsTable slot_two slot_zero fits

abbrev server : Bool → Res
server online = record {
  later = false;
  batch_rc = 0;
  rpc = record { online = online; newreq_rc = 0; add_rc = 0 };
}

abbrev proc : Bool → Proc
proc online = record {
  nr = 3;
  out = out;
  repl = λ i. 10 + 10 * i;
  res = λ id. some (server online);
  wr_ion = false;
  slivers = slivers;
  dsts = 2 ∷ one_two;
  srcs = λ k pass. 0 ∷ one_two;
}

goes : (calc_repltraffic slivers == 0 || arranged copy ios) ≡ true
unfolding calc_repltraffic tally lastbno lastslvr lastsize req_len size_at pair_has_bw has_bw
goes = refl

ready : Ready (proc true) 2 0 (server true) (server true) bmap ios
ready = record {
  fits = fits;
  few = omega arith;
  dst_in = omega arith;
  src_in = omega arith;
  dst = refl;
  src = refl;
  soon = refl;
  online = refl;
  lease = refl;
  queued = slot_two;
  valid = slot_zero;
  table = bytes-IsTable;
  clean = refl;
  goes = goes;
}

run : Arranged (proc true) 2 bmap ios
run =
    proc_bmap-arranges (proc true) 2 0 one_two one_two (server true) (server true) bmap ios refl
      refl ready

proc_bmap-copies_example :
    Copied (proc true) 0 30 entry 2 bmap (record bmap { repls = run.0.bmap.repls })
proc_bmap-copies_example =
    proc_bmap-copies (proc true) 2 0 one_two one_two (server true) (server true) bmap
      (record bmap { repls = run.0.bmap.repls }) ios run.0 0 30 entry refl refl ready run.1
      (record { clean = refl; held = λ e. cc }) refl refl refl

-- Replica 0 is valid, replica 1 is to be truncated.
abbrev pub cut : Bmap
cut = record bmap { repls = 35 ∷ replicate 23 0; orepls = 35 ∷ replicate 23 0 }

pub cut-IsTable : IsTable cut.repls
cut-IsTable = record { bytes = omega arith; size = refl }

slot_cut : slot cut.repls 1 ≡ 4
unfolding get_bmap_ios_stat
slot_cut = refl

none_queued : NoneQueued cut.repls (2 ∷ one_two)
unfolding get_bmap_ios_stat
none_queued = (refl, (refl, (refl, tt)))

proc_bmap-offline_example : Ends (proc false) cut ios
proc_bmap-offline_example =
    proc_bmap-offline (proc false) cut ios (omega arith) (λ k d e. ground (arith, e)) cut-IsTable
      none_queued refl refl refl

revert_cb_lem_example : Reverts 3 out bmap
revert_cb_lem_example =
    revert_cb_lem 3 out 0 bmap (omega arith) (omega arith) bmap-CanModify bytes-IsTable slot_zero

pub cut-CanModify : CanModify cut
cut-CanModify = record { clean = refl; held = λ e. cc }

not_waiting : iosidx_in 5 [] ≡ false
unfolding iosidx_in
not_waiting = refl

abbrev hole : Slivers
hole = record { fsz = 300000000; bno = 0; data_at = λ i. false }

hole_run : calc_repltraffic hole ≡ 0
unfolding calc_repltraffic tally lastbno lastslvr lastsize
hole_run = refl

inv_walks-lost_example :
    (b' : Bmap) × (inv_walks 3 bmap 2 ≡ some (b', 2))
    × (slot b'.repls 2 ≡ 2)
    × (some_below (λ j. slot b'.repls j == 3) 3 ≡ false)
inv_walks-lost_example =
    inv_walks-lost 3 2 bmap (omega arith) (omega arith) bmap-CanModify bytes-IsTable slot_two
