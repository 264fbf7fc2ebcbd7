-- ===== src/Slvr/Thread.antt =====
-- The thread that computes checksums, and the two ways to throw slivers out, keep what fits together.
use slash.Prelude.{
  ℕ, ◌≡◌, refl, ◌≢◌, [], ◌∷◌, ◌++◌, none, some, true, false, ◌==◌, if◌then◌else◌, arith, Bool-cases,
  Option-cases, inl, inr,
}
use slash.Slvr.{Slvr, SlvrCache, put_slvr, lc_remove, remove_round}
use slash.SlvrCrc.{CrcSlot, slvr_do_crc, proc_slvr}
use slash.Slvr.Users.{Sys, count, take_slvr, then_remove}
use slash.Slvr.Fits.{
  count-lc_remove, count-snoc, count-cons, view, IsCache, at_some, at_none, from_some, change,
}
use slash.Slvr.Leave.{doom-IsCache}

pub took-IsCache :
    (y : Sys) (i : ℕ) (s : Slvr)
    → IsCache y
    → y.cache.slvrs i ≡ some s
    → count i y.cache.crcqslvrs ≢ 0
    → (s.refcnt == 0) ≡ true
    → s.freeing ≡ false
    → IsCache (record y { cache = take_slvr i s y.cache; at_work = i ∷ y.at_work })
took-IsCache y i s h e q r f =
    let z : Sys = record y { cache = take_slvr i s y.cache; at_work = i ∷ y.at_work } in
    let g = at_some (view y i) s e (h i) in
    change y z i h
      (from_some (view z i) (record s { faulting = true }) (ground arith)
        (ground (arith, g, count-lc_remove i i y.cache.crcqslvrs, count-cons i i y.at_work)))
      (λ k n. ground (arith, count-lc_remove k i y.cache.crcqslvrs, count-cons k i y.at_work))

-- The sliver in the thread's hands after its work.
abbrev pub worked_cache : ℕ → Slvr → SlvrCache → SlvrCache
worked_cache i s c =
    record (put_slvr i (record s { lru = true; crcdirty = false; faulting = false }) c) {
      lruslvrs = c.lruslvrs ++ (i ∷ []);
    }

back-IsCache :
    (y : Sys) (i : ℕ) (s : Slvr)
    → IsCache y
    → y.cache.slvrs i ≡ some s
    → count i y.at_work ≢ 0
    → IsCache (record y { cache = worked_cache i s y.cache; at_work = lc_remove i y.at_work })
back-IsCache y i s h e w =
    let s1 : Slvr = record s { lru = true; crcdirty = false; faulting = false } in
    let z : Sys = record y { cache = worked_cache i s y.cache; at_work = lc_remove i y.at_work } in
    let g = at_some (view y i) s e (h i) in
    change y z i h
      (from_some (view z i) s1 (ground arith)
        (ground (arith, g, count-snoc i i y.cache.lruslvrs, count-lc_remove i i y.at_work)))
      (λ k n. ground (arith, count-snoc k i y.cache.lruslvrs, count-lc_remove k i y.at_work))

-- What the thread has taken it can give back, unless an I/O error was recorded on the sliver before:
-- then an assertion fails.
pub proc_slvr_lem :
    (y : Sys) (crc i : ℕ) (k : CrcSlot)
    → IsCache y
    → count i y.at_work ≢ 0
    → (s : Slvr) × (y.cache.slvrs i ≡ some s)
      × (proc_slvr crc i k y.cache ≡ (
          if s.dataerr
          then none
          else some (
            worked_cache i s y.cache,
            record k { value = crc; has_data = true; has_crc = true },
          )))
unfolding proc_slvr slvr_do_crc
proc_slvr_lem y crc i k h w = elim (Option-cases (y.cache.slvrs i)) [
  | inl a ↦ absurd (ground (arith, at_none (view y i) a (h i)))
  | inr (s, a) ↦ let g = at_some (view y i) s a (h i) in (s, a, ground (arith, a, g))
]

pub worked-IsCache :
    (y : Sys) (crc i : ℕ) (k k' : CrcSlot) (c : SlvrCache)
    → IsCache y
    → count i y.at_work ≢ 0
    → proc_slvr crc i k y.cache ≡ some (c, k')
    → IsCache (record y { cache = c; at_work = lc_remove i y.at_work })
worked-IsCache y crc i k k' c h w p =
    let (s, e, q) = proc_slvr_lem y crc i k h w in
    let same : c ≡ worked_cache i s y.cache = ground (arith, p, q) in
    rw same (back-IsCache y i s h e w)

-- Marking a sliver as being freed.
pub mark-IsCache :
    (y : Sys) (c : SlvrCache) (i : ℕ) (s : Slvr)
    → IsCache (record y { cache = c })
    → c.slvrs i ≡ some s
    → IsCache (record y { cache = put_slvr i (record s { freeing = true }) c })
mark-IsCache y c i s h e =
    let y1 : Sys = record y { cache = c } in
    let z : Sys = record y { cache = put_slvr i (record s { freeing = true }) c } in
    let g = at_some (view y1 i) s e (h i) in
    change y1 z i h
      (from_some (view z i) (record s { freeing = true }) (ground arith) (ground (arith, g)))
      (λ k n. ground arith)

pub marked-IsCache :
    (y : Sys) (i : ℕ) (s : Slvr)
    → IsCache y
    → y.cache.slvrs i ≡ some s
    → s.faulting ≡ false
    → count i y.removing ≡ 0
    → IsCache (record y {
      cache = (remove_round i y.cache).0;
      removing = then_remove (remove_round i y.cache).1 i y.removing;
    })
unfolding remove_round
marked-IsCache y i s h e f n =
    let g = at_some (view y i) s e (h i) in
    let s1 : Slvr = record s { freeing = true } in
    let c1 = put_slvr i s1 y.cache in
    let h1 = mark-IsCache y y.cache i s h e in
    elim (Bool-cases s.freeing) [
      | inl a ↦
          let same : remove_round i y.cache ≡ (y.cache, false) = ground (arith, e, a) in rw same h
      | inr a ↦ elim (Bool-cases (s.refcnt == 0)) [
        | inl b ↦
            let same : remove_round i y.cache ≡ (c1, true) = ground (arith, e, a, b) in
            let d =
              doom-IsCache (record y { cache = c1 }) i s1 h1 (ground arith) (ground arith)
                (ground (arith, g)) refl n in
            rw same d
        | inr b ↦
            let same : remove_round i y.cache ≡ (c1, false) = ground (arith, e, a, b) in rw same h1
      ]
    ]
