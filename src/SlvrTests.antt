-- ===== src/SlvrTests.antt =====
-- The theorems on the cache of slivers at small concrete states.
use slash.Prelude.{◌≡◌, ◌≢◌, refl, [], ◌∷◌, none, some, Bool, true, false, if◌then◌else◌, arith}
use slash.Slvr.{
  Slvr, SlvrCache, put_slvr, new_slvr, lc_remove, slvr_lookup, slvr_io_prep, slvr_io_done,
  rio_unlock, wio_unlock, slvr_schedule_crc, slvr_tryunpin, reap_scan, remove_round,
}
use slash.SlvrCrc.{CrcSlot, proc_slvr}
use slash.Slvr.Users.{
  Sys, count, take_slvr, looked_up, prepared, ended, write_done, marked, took, Steps, here, next,
}
use slash.Slvr.Fits.{IsCache}
use slash.Slvr.Thread.{worked_cache}
use slash.Slvr.Safe.{Steps-IsCache, inside-Steps, release-Steps, proc-Steps}
use slash.Slvr.Race.{rio_unlock-twice}
use slash.Slvr.Stranded.{remove_round-stranded}

abbrev pub empty : Sys
empty = record {
  cache = record { slvrs = λ i. none; lruslvrs = []; crcqslvrs = [] };
  waiting = [];
  inside = [];
  refused = [];
  leaving = [];
  at_work = [];
  removing = [];
}

empty-IsCache : IsCache empty
unfolding count
empty-IsCache = λ k. record { lists = refl; nobody = refl; users = refl }

-- A user looks sliver 7 up, prepares it for a write of the whole, and ends its I/O.
abbrev found : Sys
found = record empty {
  cache = record (put_slvr 7 new_slvr empty.cache) { lruslvrs = 7 ∷ [] };
  waiting = 7 ∷ [];
}

abbrev open_slvr : Slvr
open_slvr = (slvr_io_prep true false new_slvr).0

abbrev writing : Sys
writing = record found {
  cache = put_slvr 7 open_slvr found.cache;
  waiting = lc_remove 7 found.waiting;
  inside = 7 ∷ found.inside;
}

abbrev ready_slvr : Slvr
ready_slvr = slvr_io_done 0 open_slvr

abbrev written : Sys
written = record writing {
  cache = put_slvr 7 ready_slvr writing.cache;
  inside = lc_remove 7 writing.inside;
  leaving = 7 ∷ writing.leaving;
}

found-Steps : Steps empty found
unfolding slvr_lookup
found-Steps = next empty found here (looked_up 7 found.cache refl)

writing-Steps : Steps empty writing
unfolding count
writing-Steps =
    next found writing found-Steps (prepared 7 new_slvr true false refl refl refl (ground arith))

written-Steps : Steps empty written
unfolding count slvr_io_prep
written-Steps = next writing written writing-Steps (ended 7 open_slvr 0 refl (ground arith))

in_writing : count 7 writing.inside ≢ 0
unfolding count
in_writing = ground arith

in_written : count 7 written.leaving ≢ 0
unfolding count
in_written = ground arith

inside-Steps_example :
    (s : Slvr) × (writing.cache.slvrs 7 ≡ some s)
    × (s.refcnt ≢ 0)
    × (s.dataerr ≡ false)
    × (count 7 writing.inside ≡ 1)
    × (count 7 writing.at_work ≡ 0)
inside-Steps_example = inside-Steps empty writing 7 empty-IsCache writing-Steps in_writing

release-Steps_example :
    ((r : SlvrCache × Bool) × (rio_unlock 7 written.cache ≡ some r))
    × ((r : SlvrCache × Bool) × (wio_unlock 50 false 7 written.cache ≡ some r))
release-Steps_example =
    release-Steps empty written 7 50 false empty-IsCache written-Steps in_written

-- It gives the sliver back, and it is queued for its checksum.
abbrev left_slvr : Slvr
left_slvr = record ready_slvr { refcnt = 0 }

abbrev queued : Sys
queued = record written {
  cache = slvr_schedule_crc 50 7 left_slvr (put_slvr 7 left_slvr written.cache);
  leaving = lc_remove 7 written.leaving;
}

queued-Steps : Steps empty queued
unfolding count wio_unlock slvr_io_done slvr_io_prep
queued-Steps =
    next written queued written-Steps (write_done 50 7 false queued.cache false in_written refl)

-- A second write of it fails; the thread then takes the sliver, which has the error.
abbrev dirty_slvr : Slvr
dirty_slvr = record left_slvr { lru = false; crcdirty = true; ts = 50 }

abbrev again_slvr : Slvr
again_slvr = record dirty_slvr { refcnt = 1 }

abbrev again : Sys
again = record queued { cache = put_slvr 7 again_slvr queued.cache; waiting = 7 ∷ queued.waiting }

abbrev failing_slvr : Slvr
failing_slvr = (slvr_io_prep true false again_slvr).0

abbrev failing : Sys
failing = record again {
  cache = put_slvr 7 failing_slvr again.cache;
  waiting = lc_remove 7 again.waiting;
  inside = 7 ∷ again.inside;
}

abbrev bad_slvr : Slvr
bad_slvr = slvr_io_done 110 failing_slvr

abbrev bad : Sys
bad = record failing {
  cache = put_slvr 7 bad_slvr failing.cache;
  inside = lc_remove 7 failing.inside;
  leaving = 7 ∷ failing.leaving;
}

abbrev bad_left : Slvr
bad_left = record bad_slvr { refcnt = 0 }

abbrev left : Sys
left = record bad { cache = put_slvr 7 bad_left bad.cache; leaving = lc_remove 7 bad.leaving }

abbrev working : Sys
working = record left { cache = take_slvr 7 bad_left left.cache; at_work = 7 ∷ left.at_work }

bad-Steps : Steps empty bad
unfolding count slvr_lookup slvr_schedule_crc slvr_io_prep slvr_io_done lc_remove
bad-Steps =
    next failing bad
      (next again failing (next queued again queued-Steps (looked_up 7 again.cache refl))
        (prepared 7 again_slvr true false refl refl refl (ground arith)))
      (ended 7 failing_slvr 110 refl (ground arith))

working-Steps : Steps empty working
unfolding count slvr_lookup slvr_schedule_crc slvr_io_prep slvr_io_done lc_remove wio_unlock
    slvr_tryunpin
working-Steps =
    next left working
      (next bad left bad-Steps (write_done 60 7 false left.cache false (ground arith) refl))
      (took 7 100 bad_left refl (ground arith) refl refl refl)

at_working : count 7 working.at_work ≢ 0
unfolding count
at_working = ground arith

abbrev no_crc : CrcSlot
no_crc = record { value = 0; has_data = false; has_crc = false; absent = false }

proc-Steps_example :
    (s : Slvr) × (working.cache.slvrs 7 ≡ some s)
    × (proc_slvr 99 7 no_crc working.cache ≡ (
        if s.dataerr
        then none
        else some (
          worked_cache 7 s working.cache,
          record no_crc { value = 99; has_data = true; has_crc = true },
        )))
proc-Steps_example = proc-Steps empty working 99 7 no_crc empty-IsCache working-Steps at_working

proc_fails : proc_slvr 99 7 no_crc working.cache ≡ none
unfolding proc_slvr slvr_io_prep slvr_io_done
proc_fails = refl

-- The first write is under way when the slivers of the file are removed.
abbrev marked_slvr : Slvr
marked_slvr = record ready_slvr { freeing = true }

abbrev being_freed : Sys
being_freed = record written { cache = put_slvr 7 marked_slvr written.cache }

being_freed-Steps : Steps empty being_freed
unfolding remove_round slvr_io_done slvr_io_prep count
being_freed-Steps = next written being_freed written-Steps (marked 7 ready_slvr refl refl refl)

being_freed-IsCache : IsCache being_freed
being_freed-IsCache = Steps-IsCache empty being_freed being_freed-Steps empty-IsCache

abbrev after : SlvrCache
after =
    slvr_schedule_crc 50 7 (record marked_slvr { refcnt = 0 })
      (put_slvr 7 (record marked_slvr { refcnt = 0 }) being_freed.cache)

abbrev stranded : Sys
stranded = record being_freed { cache = after; leaving = lc_remove 7 being_freed.leaving }

in_marked : count 7 being_freed.leaving ≢ 0
unfolding count
in_marked = ground arith

released : wio_unlock 50 false 7 being_freed.cache ≡ some (after, false)
unfolding wio_unlock slvr_io_done slvr_io_prep
released = refl

marked_flags : (marked_slvr.dataerr ≡ false) × (marked_slvr.lru ≡ true) × (marked_slvr.refcnt ≡ 1)
unfolding slvr_io_done slvr_io_prep
marked_flags = (refl, refl, refl)

remove_round-stranded_example :
    (stranded.cache.slvrs 7
      ≡ some (record marked_slvr { refcnt = 0; lru = false; crcdirty = true; ts = 50 }))
    × (remove_round 7 stranded.cache ≡ (stranded.cache, false))
remove_round-stranded_example =
    remove_round-stranded being_freed stranded 50 7 marked_slvr after false being_freed-IsCache refl
      refl marked_flags.0 marked_flags.1 marked_flags.2 in_marked released here

-- A read of sliver 7 failed, and its one user gives it back.
abbrev erred : Slvr
erred = record new_slvr { dataerr = true; err = 5 }

abbrev erring : SlvrCache
erring = record (put_slvr 7 erred empty.cache) { lruslvrs = 7 ∷ [] }

rio_unlock-twice_example :
    (c1 : SlvrCache) × (rio_unlock 7 erring ≡ some (c1, true))
    × ((reap_scan (λ i. true) 1 c1.lruslvrs [] c1).1 ≡ 7 ∷ [])
rio_unlock-twice_example =
    rio_unlock-twice 7 [] erred erring (λ i. true) refl refl refl refl refl refl refl
