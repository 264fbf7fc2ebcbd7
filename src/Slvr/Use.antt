-- ===== src/Slvr/Use.antt =====
-- The steps of a user up to the end of its I/O keep what fits together.
use slash.Prelude.{
  ℕ, ◌+◌, ◌≡◌, ◌≢◌, [], ◌∷◌, ◌++◌, some, Bool, true, false, ◌==◌, arith, Option-cases, inl, inr,
}
use slash.Slvr.{
  Slvr, SlvrCache, put_slvr, new_slvr, lc_remove, slvr_lookup, slvr_io_prep, slvr_io_done,
}
use slash.Slvr.Users.{Sys, count}
use slash.Slvr.Fits.{
  count-lc_remove, count-snoc, count-cons, view, IsCache, at_some, at_none, from_some, change,
}

pub prepared-IsCache :
    (y : Sys) (i : ℕ) (s : Slvr) (whole ahead : Bool)
    → IsCache y
    → y.cache.slvrs i ≡ some s
    → s.faulting ≡ false
    → s.dataerr ≡ false
    → count i y.waiting ≢ 0
    → IsCache (record y {
      cache = put_slvr i (slvr_io_prep whole ahead s).0 y.cache;
      waiting = lc_remove i y.waiting;
      inside = i ∷ y.inside;
    })
unfolding slvr_io_prep
prepared-IsCache y i s whole ahead h e f d w =
    let z : Sys = record y {
      cache = put_slvr i (slvr_io_prep whole ahead s).0 y.cache;
      waiting = lc_remove i y.waiting;
      inside = i ∷ y.inside;
    } in
    let g = at_some (view y i) s e (h i) in
    change y z i h
      (from_some (view z i) (slvr_io_prep whole ahead s).0 (ground arith)
        (ground (arith, g, count-lc_remove i i y.waiting, count-cons i i y.inside)))
      (λ k n. ground (arith, count-lc_remove k i y.waiting, count-cons k i y.inside))

pub turned_away-IsCache :
    (y : Sys) (i : ℕ) (s : Slvr) (whole ahead : Bool)
    → IsCache y
    → y.cache.slvrs i ≡ some s
    → s.dataerr ≡ true
    → count i y.waiting ≢ 0
    → s.faulting ≡ false
    → IsCache (record y {
      cache = put_slvr i (slvr_io_prep whole ahead s).0 y.cache;
      waiting = lc_remove i y.waiting;
      refused = i ∷ y.refused;
    })
unfolding slvr_io_prep
turned_away-IsCache y i s whole ahead h e d w f =
    let z : Sys = record y {
      cache = put_slvr i (slvr_io_prep whole ahead s).0 y.cache;
      waiting = lc_remove i y.waiting;
      refused = i ∷ y.refused;
    } in
    let g = at_some (view y i) s e (h i) in
    change y z i h
      (from_some (view z i) (slvr_io_prep whole ahead s).0 (ground arith)
        (ground (arith, g, count-lc_remove i i y.waiting, count-cons i i y.refused)))
      (λ k n. ground (arith, count-lc_remove k i y.waiting, count-cons k i y.refused))

pub ended-IsCache :
    (y : Sys) (i : ℕ) (s : Slvr) (rc : ℕ)
    → IsCache y
    → y.cache.slvrs i ≡ some s
    → count i y.inside ≢ 0
    → IsCache (record y {
      cache = put_slvr i (slvr_io_done rc s) y.cache;
      inside = lc_remove i y.inside;
      leaving = i ∷ y.leaving;
    })
unfolding slvr_io_done
ended-IsCache y i s rc h e w =
    let z : Sys = record y {
      cache = put_slvr i (slvr_io_done rc s) y.cache;
      inside = lc_remove i y.inside;
      leaving = i ∷ y.leaving;
    } in
    let g = at_some (view y i) s e (h i) in
    change y z i h
      (from_some (view z i) (slvr_io_done rc s) (ground arith)
        (ground (arith, g, count-lc_remove i i y.inside, count-cons i i y.leaving)))
      (λ k n. ground (arith, count-lc_remove k i y.inside, count-cons k i y.leaving))

pub failed-IsCache :
    (y : Sys) (i : ℕ) (s : Slvr) (rc : ℕ)
    → IsCache y
    → y.cache.slvrs i ≡ some s
    → count i y.refused ≢ 0
    → (rc == 0) ≡ false
    → IsCache (record y {
      cache = put_slvr i (slvr_io_done rc s) y.cache;
      refused = lc_remove i y.refused;
      leaving = i ∷ y.leaving;
    })
unfolding slvr_io_done
failed-IsCache y i s rc h e w r =
    let z : Sys = record y {
      cache = put_slvr i (slvr_io_done rc s) y.cache;
      refused = lc_remove i y.refused;
      leaving = i ∷ y.leaving;
    } in
    let g = at_some (view y i) s e (h i) in
    change y z i h
      (from_some (view z i) (slvr_io_done rc s) (ground arith)
        (ground (arith, g, count-lc_remove i i y.refused, count-cons i i y.leaving)))
      (λ k n. ground (arith, count-lc_remove k i y.refused, count-cons k i y.leaving))

pub looked_up-IsCache :
    (y : Sys) (i : ℕ) (c : SlvrCache)
    → IsCache y
    → slvr_lookup i y.cache ≡ some c
    → IsCache (record y { cache = c; waiting = i ∷ y.waiting })
unfolding slvr_lookup
looked_up-IsCache y i c h e = elim (Option-cases (y.cache.slvrs i)) [
  | inl a ↦
      let c1 : SlvrCache = record (put_slvr i new_slvr y.cache) {
        lruslvrs = y.cache.lruslvrs ++ (i ∷ []);
      } in
      let same : c ≡ c1 = ground (arith, a) in
      let z : Sys = record y { cache = c1; waiting = i ∷ y.waiting } in
      let g = at_none (view y i) a (h i) in
      rw same (
        change y z i h
          (from_some (view z i) new_slvr (ground arith)
            (ground (arith, g, count-snoc i i y.cache.lruslvrs, count-cons i i y.waiting)))
          (λ k n. ground (arith, count-snoc k i y.cache.lruslvrs, count-cons k i y.waiting)))
  | inr (s, a) ↦
      let s1 : Slvr = record s { refcnt = s.refcnt + 1 } in
      let same : c ≡ put_slvr i s1 y.cache = ground (arith, a) in
      let z : Sys = record y { cache = put_slvr i s1 y.cache; waiting = i ∷ y.waiting } in
      let g = at_some (view y i) s a (h i) in
      rw same (
        change y z i h
          (from_some (view z i) s1 (ground arith) (ground (arith, g, count-cons i i y.waiting)))
          (λ k n. ground (arith, count-cons k i y.waiting)))
]
