-- ===== src/Tests.antt =====
-- The theorems at small concrete states.
use slash.Prelude.{
  ℕ, ◌+◌, ◌*◌, ◌≡◌, refl, List, [], ◌∷◌, none, some, true, false, replicate, arith, inr,
}
use slash.BmapMds.{Bmap}
use slash.BmapWrite.{ensure_valid, mdslog_bmap_repls, repl_bmap_rel, WriteOutcome, bmap_write}
use slash.Errors.{done}
use slash.Inode.{Inoh, block, plain, add, lookup_each, ios_lookup, search_from, repl_at}
use slash.Inode.Table.{IsInoh, replicas}
use slash.Inode.Lookup.{Performs, lookup_spec, ios_lookup_lem}
use slash.InvExcept.Laws.{Invalidates, inv_walks_lem}
use slash.ReplTable.{store_first, store_second, get_bmap_ios_stat, set_bmap_ios_stat}
use slash.ReplTable.Slots.{IsTable, get-set_bmap_ios_stat}
use slash.Prelude.Below.{some_below}
use slash.Request.{
  del_all, del_each, count_valid, countvalid_cb, Site, Prios, del_one, del_tract, del_retif,
}
use slash.Request.AllBmaps.{del_all-has_valid}
use slash.Request.LastReplica.{Drops, has_valid, del_one_lem, del_one-has_valid}
use slash.Request.Queued.{Adds, add_one_lem}
use slash.Residency.{
  arr_set, walk, walk_each, visited, upto, apply, apply_start, modify_start, apply_locked, retif,
  apply_end, translate, iosidx_in, bmap_walk, bmap_walk_all, read_start,
}
use slash.Residency.Apply.{slot, CanModify, IsTract}
use slash.Residency.Spec.{Walks, walk_lem}
use slash.Residency.Walk.{AllLt, Distinct}

-- Replicas 0 and 1 are valid, replica 2 is queued.
abbrev pub bytes : List ℕ
bytes = 155 ∷ replicate 23 0

pub bytes-IsTable : IsTable bytes
bytes-IsTable = record { bytes = omega arith; size = refl }

abbrev pub bmap : Bmap
bmap = record {
  repls = bytes;
  orepls = bytes;
  bgen = 7;
  replpol = 1;
  fcmh_busy = false;
  busy = false;
  wrlock = false;
  rdlock = false;
  replmodwr = false;
  sys_prio = none;
  usr_prio = none;
  upd = true;
  upd_busy = false;
  journal = [];
  work = 0;
  enqueued = 0;
  jobs = [];
}

pub bmap-CanModify : CanModify bmap
bmap-CanModify = record { clean = refl; held = λ e. cc }

abbrev pub out : WriteOutcome
out = record { rc = 0; logged = true }

abbrev pub one_two : List ℕ
one_two = 1 ∷ (2 ∷ [])

pub one_two-AllLt : AllLt 3 one_two
one_two-AllLt = (omega arith, (omega arith, tt))

pub one_two-Distinct : Distinct one_two
unfolding iosidx_in
one_two-Distinct = (refl, (refl, tt))

del_one_lem_example : Drops 3 out one_two bmap
del_one_lem_example =
    del_one_lem 3 out 1 (2 ∷ []) bmap (omega arith) bmap-CanModify bytes-IsTable one_two-AllLt
      one_two-Distinct

-- Both named replicas become GARBAGE; replica 0 stays valid.
abbrev pub dropped : Bmap
dropped = record bmap {
  repls = 179 ∷ (1 ∷ replicate 22 0);
  fcmh_busy = true;
  busy = true;
  wrlock = true;
  replmodwr = true;
  journal = (179 ∷ (1 ∷ replicate 22 0)) ∷ [];
  work = 1;
}

pub del_one_run : del_one 3 out one_two bmap ≡ some (dropped, done 0)
unfolding del_one count_valid walk walk_each visited upto apply apply_start modify_start
    apply_locked get_bmap_ios_stat retif apply_end translate countvalid_cb iosidx_in bmap_walk
    set_bmap_ios_stat bmap_write ensure_valid mdslog_bmap_repls repl_bmap_rel store_first
    store_second bmap_walk_all read_start
del_one_run = refl

pub has_valid_before : has_valid (slot bmap.repls) 3 ≡ true
unfolding some_below get_bmap_ios_stat
has_valid_before = refl

del_one-has_valid_example : has_valid (slot dropped.repls) 3 ≡ true
del_one-has_valid_example =
    del_one-has_valid 3 out 1 (2 ∷ []) bmap dropped (done 0) (omega arith) bmap-CanModify
      bytes-IsTable one_two-AllLt one_two-Distinct has_valid_before del_one_run

-- Three replicas, all in the inode.
abbrev pub inoh : Inoh
inoh = record { ino_repls = 10 ∷ (20 ∷ (30 ∷ (0 ∷ []))); extras = none; nrepls = 3; synced = 0 }

inoh-IsInoh : IsInoh (block (replicate 60 0)) inoh
inoh-IsInoh = record { size_ino = refl; size_ext = refl; bound = omega arith }

both_found :
    lookup_each (block []) (λ i. true) plain (20 ∷ (30 ∷ [])) inoh ≡ some (inr (1 ∷ (2 ∷ [])), inoh)
unfolding lookup_each ios_lookup search_from repl_at
both_found = refl

abbrev site : Site
site = record {
  inox = block [];
  isfs = λ i. true;
  res = λ i. some false;
  out = out;
  bmap_get = λ n. none;
  already = 600;
}

abbrev prios : Prios
prios = record { sys = none; usr = some 5 }

abbrev pub locked_bmap : Bmap
locked_bmap = record bmap { fcmh_busy = true; busy = true; wrlock = true }

pub slot_zero : slot bytes 0 ≡ 3
unfolding get_bmap_ios_stat
slot_zero = refl

zero-Distinct : Distinct (0 ∷ [])
unfolding iosidx_in
zero-Distinct = (refl, tt)

del_tract-IsTract : IsTract del_tract
del_tract-IsTract v w e = ground arith

walk_lem_example : Walks 3 bmap del_tract (some del_retif) true (0 ∷ []) (λ i v n. n + v) 5
walk_lem_example =
    walk_lem 3 bmap del_tract (some del_retif) true (0 ∷ []) (λ i v n. n + v) 5 (omega arith)
      del_tract-IsTract bmap-CanModify bytes-IsTable (omega arith, tt) zero-Distinct

add_one_lem_example : Adds site inoh prios one_two bmap
add_one_lem_example =
    add_one_lem site inoh prios 1 (2 ∷ []) bmap (omega arith) bmap-CanModify bytes-IsTable
      one_two-AllLt one_two-Distinct

inv_walks_lem_example : Invalidates 3 1 bmap
inv_walks_lem_example =
    inv_walks_lem 3 1 bmap (omega arith) (omega arith) bmap-CanModify bytes-IsTable

get-set_bmap_ios_stat_example : get_bmap_ios_stat (set_bmap_ios_stat bytes (2 * 3) 5) (2 * 3) ≡ 5
get-set_bmap_ios_stat_example =
    get-set_bmap_ios_stat bytes 2 2 5 bytes-IsTable (omega arith) (omega arith)

ios_lookup_lem_example :
    Performs
      (block (replicate 60 0))
      (ios_lookup (block (replicate 60 0)) (λ i. true) 40 add inoh)
      (lookup_spec (λ i. true) 40 add (replicas (block (replicate 60 0)) inoh))
ios_lookup_lem_example = ios_lookup_lem (block (replicate 60 0)) (λ i. true) 40 add inoh inoh-IsInoh

del_all_run : del_all site 3 one_two 1 (λ m. bmap) ≡ some (arr_set (λ m. bmap) 0 dropped, done 0, 0)
unfolding del_all del_each count_valid walk walk_each visited upto apply apply_start modify_start
    apply_locked get_bmap_ios_stat retif apply_end translate countvalid_cb iosidx_in bmap_walk
    set_bmap_ios_stat bmap_write ensure_valid mdslog_bmap_repls repl_bmap_rel store_first
    store_second bmap_walk_all read_start
del_all_run = refl

del_all-has_valid_example : has_valid (slot dropped.repls) 3 ≡ true
del_all-has_valid_example =
    del_all-has_valid site 3 1 (2 ∷ []) (λ m. bmap) (omega arith) one_two-AllLt one_two-Distinct
      (λ m. bmap-CanModify) (λ m. bytes-IsTable) 1 (arr_set (λ m. bmap) 0 dropped) (done 0) 0 0
      del_all_run has_valid_before
