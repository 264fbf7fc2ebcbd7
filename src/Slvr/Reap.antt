-- ===== src/Slvr/Reap.antt =====
-- `slvr_buffer_reap` keeps what fits together: what it collects has no user and is in nobody's hands.
use slash.Prelude.{
  ℕ, ◌≡◌, ◌≢◌, ◌≤◌, refl, List, [], ◌∷◌, ◌++◌, some, Bool, true, false, not, ◌||◌, ◌==◌, arith,
  Bool-cases, Option-cases, inl, inr, leb, length,
}
use slash.Slvr.{Slvr, SlvrCache, put_slvr, reap_scan}
use slash.Slvr.Users.{Sys, count}
use slash.Slvr.Fits.{count-snoc, count-cons, count-append, view, IsCache, at_some, same_view}
use slash.Slvr.Leave.{doom-IsCache}
use slash.Slvr.Thread.{mark-IsCache}

abbrev AllListed : List ℕ → List ℕ → Type 0
AllListed q [] = Unit {0}
AllListed q (i ∷ is) = (count i q ≢ 0) × AllListed q is

AllListed-of : (q is : List ℕ) → ((k : ℕ) → count k is ≤ count k q) → AllListed q is
unfolding count
AllListed-of q [] h = tt
AllListed-of q (i ∷ is) h = (ground (arith, h i), AllListed-of q is (λ k. ground (arith, h k)))

-- What is collected is marked.
abbrev AllMarked : SlvrCache → List ℕ → Type 0
AllMarked c a = (k : ℕ) (s : Slvr) → c.slvrs k ≡ some s → s.freeing ≡ false → count k a ≡ 0

AllMarked-snoc :
    (c : SlvrCache) (i : ℕ) (s : Slvr) (a : List ℕ)
    → s.freeing ≡ true
    → AllMarked c a
    → AllMarked (put_slvr i s c) (a ++ (i ∷ []))
AllMarked-snoc c i s a f m k t e g = elim (Bool-cases (i == k)) [
  | inl q ↦ let st : s ≡ t = ground arith in absurd (ground (arith, st))
  | inr q ↦ let n = m k t (ground arith) g in ground (arith, n, count-snoc k i a)
]

-- A sliver of the list that has no user is marked, and about to be removed.
take-IsCache :
    (y : Sys) (i : ℕ) (s : Slvr) (a : List ℕ) (c : SlvrCache)
    → IsCache (record y { cache = c; removing = a ++ y.removing })
    → c.slvrs i ≡ some s
    → s.refcnt ≡ 0
    → count i c.lruslvrs ≢ 0
    → count i a ≡ 0
    → count i y.removing ≡ 0
    → IsCache (record y {
      cache = put_slvr i (record s { freeing = true }) c;
      removing = (a ++ (i ∷ [])) ++ y.removing;
    })
take-IsCache y i s a c h e r l n m =
    let y1 : Sys = record y { removing = a ++ y.removing } in
    let s1 : Slvr = record s { freeing = true } in
    let y2 : Sys = record y1 { cache = put_slvr i s1 c } in
    let g = at_some (view (record y1 { cache = c }) i) s e (h i) in
    let h1 = mark-IsCache y1 c i s h e in
    let d =
      doom-IsCache y2 i s1 h1 (ground arith) r (ground (arith, g)) refl
        (ground (arith, count-append i a y.removing)) in
    same_view (record y2 { removing = i ∷ y2.removing })
      (record y2 { removing = (a ++ (i ∷ [])) ++ y.removing })
      (λ k.
        let p = count-append k (a ++ (i ∷ [])) y.removing in
        let q = count-snoc k i a in
        let t = count-append k a y.removing in
        let u = count-cons k i (a ++ y.removing) in ground (arith, p, q, t, u))
      d

-- The scan over the list.
reap_scan-IsCache :
    (y : Sys) (free : ℕ → Bool) (most : ℕ) (is a : List ℕ) (c : SlvrCache)
    → ((i : ℕ) → free i ≡ true → count i y.removing ≡ 0)
    → IsCache (record y { cache = c; removing = a ++ y.removing })
    → AllListed c.lruslvrs is
    → AllMarked c a
    → IsCache (record y {
      cache = (reap_scan free most is a c).0;
      removing = (reap_scan free most is a c).1 ++ y.removing;
    })
unfolding reap_scan
reap_scan-IsCache y free most [] a c o h l d = h
reap_scan-IsCache y free most (i ∷ is) a c o h l d = elim (Option-cases (c.slvrs i)) [
  | inl e ↦
      let same : reap_scan free most (i ∷ is) a c ≡ reap_scan free most is a c =
        ground (arith, e) in
      rw same (reap_scan-IsCache y free most is a c o h l.1 d)
  | inr (s, e) ↦
      let s1 : Slvr = record s { freeing = true } in
      let c1 = put_slvr i s1 c in
      let a1 = a ++ (i ∷ []) in
      let skip = reap_scan-IsCache y free most is a c o h l.1 d in
      elim (Bool-cases (not (free i) || not (s.refcnt == 0) || s.freeing)) [
        | inl b ↦
            let same : reap_scan free most (i ∷ is) a c ≡ reap_scan free most is a c =
              ground (arith, e, b) in
            rw same skip
        | inr b ↦
            let h1 =
              take-IsCache y i s a c h e (ground (arith, b)) l.0 (d i s e (ground (arith, b)))
                (o i (ground (arith, b))) in
            let d1 = AllMarked-snoc c i s1 a refl d in
            elim (Bool-cases (leb most (length a1))) [
              | inl f ↦
                  let same : reap_scan free most (i ∷ is) a c ≡ (c1, a1) =
                    ground (arith, e, b, f) in
                  rw same h1
              | inr f ↦
                  let same : reap_scan free most (i ∷ is) a c ≡ reap_scan free most is a1 c1 =
                    ground (arith, e, b, f) in
                  rw same (reap_scan-IsCache y free most is a1 c1 o h1 l.1 d1)
            ]
      ]
]

pub reap-IsCache :
    (y : Sys) (free : ℕ → Bool) (most : ℕ)
    → ((i : ℕ) → free i ≡ true → count i y.removing ≡ 0)
    → IsCache y
    → IsCache (record y {
      cache = (reap_scan free most y.cache.lruslvrs [] y.cache).0;
      removing = (reap_scan free most y.cache.lruslvrs [] y.cache).1 ++ y.removing;
    })
unfolding count
reap-IsCache y free most o h =
    let q = y.cache.lruslvrs in
    reap_scan-IsCache y free most q [] y.cache o h (AllListed-of q q (λ k. omega arith))
      (λ k s e f. refl)
