-- ===== src/Slvr/Users.antt =====
-- Threads that use slivers and the thread that computes checksums, as steps on the cache. A user has
-- looked a sliver up (`waiting`), holds it prepared (`inside`), was refused by its error (`refused`), or
-- has ended its I/O and still has its reference (`leaving`); `at_work` are the slivers that the
-- thread has taken off its list, and `removing` those that a thread is about to remove, having dropped
-- their lock. Each of these lists has one entry for each user or thread.
use slash.Prelude.{
  ℕ, ◌+◌, ◌≡◌, ◌≢◌, List, [], ◌∷◌, ◌++◌, some, Bool, true, false, ◌==◌, ltb, if◌then◌else◌,
}
use slash.Slvr.{
  Slvr, SlvrCache, put_slvr, lc_remove, slvr_lookup, slvr_io_prep, slvr_io_done, slvr_remove,
  rio_unlock, wio_unlock, reap_scan, remove_round,
}
use slash.SlvrCrc.{CrcSlot, proc_slvr}

pub record Sys : Type 0 where
  pub cache : SlvrCache
  pub waiting : List ℕ
  pub inside : List ℕ
  pub refused : List ℕ
  pub leaving : List ℕ
  pub at_work : List ℕ
  pub removing : List ℕ

-- How often a number stands in a list.
unfoldable pub count : ℕ → List ℕ → ℕ
count i [] = 0
count i (j ∷ q) = if i == j then count i q + 1 else count i q

-- The round of `crc_scan` on a sliver that it takes.
abbrev pub take_slvr : ℕ → Slvr → SlvrCache → SlvrCache
take_slvr i s c = record (put_slvr i (record s { faulting = true }) c) {
  crcqslvrs = lc_remove i c.crcqslvrs;
}

-- The threads that are about to remove a sliver, with one more if its lock was dropped for that.
abbrev pub then_remove : Bool → ℕ → List ℕ → List ℕ
then_remove gone i q = if gone then i ∷ q else q

-- One step of a thread. The reaper and the loop that removes slivers take up no sliver that another
-- thread is about to remove.
pub data Step (y : Sys) : Sys → Type 0 where
  looked_up :
      (i : ℕ) (c : SlvrCache)
      → slvr_lookup i y.cache ≡ some c
      → Step y (record y { cache = c; waiting = i ∷ y.waiting })
  prepared :
      (i : ℕ) (s : Slvr) (whole ahead : Bool)
      → y.cache.slvrs i ≡ some s
      → s.faulting ≡ false
      → s.dataerr ≡ false
      → count i y.waiting ≢ 0
      → Step y (record y {
        cache = put_slvr i (slvr_io_prep whole ahead s).0 y.cache;
        waiting = lc_remove i y.waiting;
        inside = i ∷ y.inside;
      })
  turned_away :
      (i : ℕ) (s : Slvr) (whole ahead : Bool)
      → y.cache.slvrs i ≡ some s
      → s.faulting ≡ false
      → s.dataerr ≡ true
      → count i y.waiting ≢ 0
      → Step y (record y {
        cache = put_slvr i (slvr_io_prep whole ahead s).0 y.cache;
        waiting = lc_remove i y.waiting;
        refused = i ∷ y.refused;
      })
  ended :
      (i : ℕ) (s : Slvr) (rc : ℕ)
      → y.cache.slvrs i ≡ some s
      → count i y.inside ≢ 0
      → Step y (record y {
        cache = put_slvr i (slvr_io_done rc s) y.cache;
        inside = lc_remove i y.inside;
        leaving = i ∷ y.leaving;
      })
  failed :
      (i : ℕ) (s : Slvr) (rc : ℕ)
      → y.cache.slvrs i ≡ some s
      → count i y.refused ≢ 0
      → (rc == 0) ≡ false
      → Step y (record y {
        cache = put_slvr i (slvr_io_done rc s) y.cache;
        refused = lc_remove i y.refused;
        leaving = i ∷ y.leaving;
      })
  read_done :
      (i : ℕ) (c : SlvrCache) (gone : Bool)
      → count i y.leaving ≢ 0
      → rio_unlock i y.cache ≡ some (c, gone)
      → Step y (record y {
        cache = c;
        leaving = lc_remove i y.leaving;
        removing = then_remove gone i y.removing;
      })
  write_done :
      (now i : ℕ) (repl : Bool) (c : SlvrCache) (gone : Bool)
      → count i y.leaving ≢ 0
      → wio_unlock now repl i y.cache ≡ some (c, gone)
      → Step y (record y {
        cache = c;
        leaving = lc_remove i y.leaving;
        removing = then_remove gone i y.removing;
      })
  reaped :
      (free : ℕ → Bool) (most : ℕ)
      → ((i : ℕ) → free i ≡ true → count i y.removing ≡ 0)
      → Step y (record y {
        cache = (reap_scan free most y.cache.lruslvrs [] y.cache).0;
        removing = (reap_scan free most y.cache.lruslvrs [] y.cache).1 ++ y.removing;
      })
  marked :
      (i : ℕ) (s : Slvr)
      → y.cache.slvrs i ≡ some s
      → s.faulting ≡ false
      → count i y.removing ≡ 0
      → Step y (record y {
        cache = (remove_round i y.cache).0;
        removing = then_remove (remove_round i y.cache).1 i y.removing;
      })
  removed :
      (i : ℕ)
      → count i y.removing ≢ 0
      → Step y (record y { cache = slvr_remove i y.cache; removing = lc_remove i y.removing })
  took :
      (i expire : ℕ) (s : Slvr)
      → y.cache.slvrs i ≡ some s
      → count i y.cache.crcqslvrs ≢ 0
      → (s.refcnt == 0) ≡ true
      → s.freeing ≡ false
      → ltb s.ts expire ≡ true
      → Step y (record y { cache = take_slvr i s y.cache; at_work = i ∷ y.at_work })
  worked :
      (crc i : ℕ) (k k' : CrcSlot) (c : SlvrCache)
      → count i y.at_work ≢ 0
      → proc_slvr crc i k y.cache ≡ some (c, k')
      → Step y (record y { cache = c; at_work = lc_remove i y.at_work })

pub data Steps (y : Sys) : Sys → Type 0 where
  here : Steps y y
  next : (z w : Sys) → Steps y z → Step z w → Steps y w
