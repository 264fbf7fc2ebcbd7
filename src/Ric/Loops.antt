-- ===== src/Ric/Loops.antt =====
-- The two loops of a request as steps on the cache of slivers.
use slash.Prelude.{
  ℕ, ◌+◌, ◌≡◌, ◌≢◌, refl, ◌∙◌, List, [], ◌∷◌, none, some, Bool, true, false, ◌&&◌, ◌==◌,
  if◌then◌else◌, arith, Bool-cases, Option-cases, inl, inr,
}
use slash.Traffic.{slash_slvr_size}
use slash.Slvr.{
  Slvr, SlvrCache, put_slvr, slvr_lookup, slvr_io_prep, slvr_io_done, slvr_rio_done, slvr_wio_done,
  lc_remove, slvr_remove, rio_unlock, wio_unlock, unpinned,
}
use slash.Slvr.Users.{
  Sys, count, looked_up, prepared, ended, read_done, write_done, removed, then_remove, Steps, next,
}
use slash.Slvr.Fits.{count-lc_remove}
use slash.Ric.{IoSite, Piece, prep_each, done_each, slvr_fsio}

-- The users of a state are those of another with some more inside.
pub record Holds (ins : List ℕ) (y z : Sys) : Type 0 where
  pub inside : (k : ℕ) → count k z.inside ≡ count k y.inside + count k ins
  pub refused : (k : ℕ) → count k z.refused ≡ count k y.refused
  pub waiting : (k : ℕ) → count k z.waiting ≡ count k y.waiting
  pub leaving : (k : ℕ) → count k z.leaving ≡ count k y.leaving
  pub work : (k : ℕ) → count k z.at_work ≡ count k y.at_work
  pub removing : (k : ℕ) → count k z.removing ≡ count k y.removing

-- A sliver that was just looked up has no error.
lookup_fresh :
    (i : ℕ) (c c1 : SlvrCache) (s : Slvr)
    → slvr_lookup i c ≡ some c1
    → c1.slvrs i ≡ some s
    → s.dataerr ≡ false
unfolding slvr_lookup
lookup_fresh i c c1 s l e = elim (Option-cases (c.slvrs i)) [
  | inl a ↦ ground (arith, a)
  | inr (t, a) ↦ ground (arith, a)
]

-- The steps of one sliver: its look-up and its preparation.
module _ (y z : Sys) (i : ℕ) (s : Slvr) (c1 : SlvrCache) (whole : Bool) where
  abbrev prep_to : Sys
  prep_to = record z {
    cache = put_slvr i (slvr_io_prep whole false s).0 c1;
    waiting = lc_remove i (i ∷ z.waiting);
    inside = i ∷ z.inside;
  }

  prep_Steps :
      Steps y z
      → slvr_lookup i z.cache ≡ some c1
      → c1.slvrs i ≡ some s
      → s.faulting ≡ false
      → Steps y prep_to
  unfolding count
  prep_Steps p l e f =
      let m : Sys = record z { cache = c1; waiting = i ∷ z.waiting } in
      next m prep_to (next z m p (looked_up i c1 l))
        (prepared i s whole false e f (lookup_fresh i z.cache c1 s l e) (ground arith))

  Holds-prep_to : (ins : List ℕ) (w : Sys) → Holds ins prep_to w → Holds (i ∷ ins) z w
  unfolding count
  Holds-prep_to ins w h = record {
    inside = λ k. ground (arith, h.inside k);
    refused = λ k. ground (arith, h.refused k);
    waiting = λ k. ground (arith, h.waiting k, count-lc_remove k i (i ∷ z.waiting));
    leaving = λ k. ground (arith, h.leaving k);
    work = λ k. ground (arith, h.work k);
    removing = λ k. ground (arith, h.removing k);
  }

pub Holds-refl : (y : Sys) → Holds [] y y
unfolding count
Holds-refl y = record {
  inside = λ k. ground arith;
  refused = λ k. refl;
  waiting = λ k. refl;
  leaving = λ k. refl;
  work = λ k. refl;
  removing = λ k. refl;
}

-- What the loop over the parts leaves is reached by steps, with those slivers inside.
abbrev pub Prepped : Sys → Sys → SlvrCache → List ℕ → Type 0
Prepped y z c is = (w : Sys) × Steps y w × (w.cache ≡ c) × Holds is z w

pub prep_each-Steps :
    (e : IoSite) (write : Bool) (ps : List Piece) (y z : Sys) (c : SlvrCache) (is : List ℕ) (rc : ℕ)
    → Steps y z
    → prep_each e write ps z.cache ≡ some (c, is, rc)
    → Prepped y z c is
unfolding prep_each
prep_each-Steps e write [] y z c is rc p h =
    let same : z.cache ≡ c = ground arith in
    let none_in : is ≡ [] = ground arith in (z, p, same, rw none_in (Holds-refl z))
prep_each-Steps e write (q ∷ ps) y z c is rc p h =
    elim (Option-cases (slvr_lookup (e.base + q.slvr) z.cache)) [
      | inl a ↦ absurd (ground (arith, a))
      | inr (c1, a) ↦ elim (Option-cases (c1.slvrs (e.base + q.slvr))) [
        | inl b ↦ absurd (ground (arith, a, b))
        | inr (s, b) ↦
            let i = e.base + q.slvr in
            let whole = write && q.roff == 0 && q.len == slash_slvr_size in
            let r = slvr_io_prep whole false s in
            let rv = if r.1 then slvr_fsio e.backfile (e.reads q.slvr) else r.2 in
            let c2 = put_slvr i r.0 c1 in
            let f : s.faulting ≡ false = ground (arith, a, b) in
            let z1 = prep_to y z i s c1 whole in
            let p1 = prep_Steps y z i s c1 whole p a b f in
            elim (Bool-cases (rv == 0)) [
              | inr v ↦
                  let same : c2 ≡ c = ground (arith, a, b, f, v) in
                  let only : is ≡ i ∷ [] = ground (arith, a, b, f, v) in
                  (z1, p1, same, rw only (Holds-prep_to y z i s c1 whole [] z1 (Holds-refl z1)))
              | inl v ↦ elim (Option-cases (prep_each e write ps c2)) [
                | inl x ↦ absurd (ground (arith, a, b, f, v, x))
                | inr ((c3, js, rc3), x) ↦
                    let (w, pw, ew, hw) = prep_each-Steps e write ps y z1 c3 js rc3 p1 x in
                    let same : c3 ≡ c = ground (arith, a, b, f, v, x) in
                    let more : is ≡ i ∷ js = ground (arith, a, b, f, v, x) in
                    (w, pw, ew ∙ same, rw more (Holds-prep_to y z i s c1 whole js w hw))
              ]
            ]
      ]
    ]

-- A release by a thread that runs alone.
unpinned-none : (i : ℕ) (c : SlvrCache) → unpinned i none ≢ some c
unfolding unpinned
unpinned-none i c e = absurd (ground (arith, e))

unpinned-Steps :
    (y z : Sys) (i : ℕ) (c c' : SlvrCache) (gone : Bool)
    → Steps y (record z { cache = c; removing = then_remove gone i z.removing })
    → unpinned i (some (c, gone)) ≡ some c'
    → Steps y (record z { cache = c' })
unfolding unpinned count lc_remove
unpinned-Steps y z i c c' false p e = let same : c ≡ c' = ground (arith, e) in rw (← same) p
unpinned-Steps y z i c c' true p e =
    let m : Sys = record z { cache = c; removing = i ∷ z.removing } in
    let q =
      next m (record m { cache = slvr_remove i c; removing = lc_remove i m.removing }) p
        (removed i (ground arith)) in
    let same : slvr_remove i c ≡ c' = ground (arith, e) in
    let rest : lc_remove i (i ∷ z.removing) ≡ z.removing = ground arith in rw (← same, ← rest) q

rio_done_Steps :
    (i : ℕ) (m y : Sys) (c : SlvrCache)
    → Steps y m
    → count i m.leaving ≢ 0
    → slvr_rio_done i m.cache ≡ some c
    → Steps y (record m { cache = c; leaving = lc_remove i m.leaving })
unfolding slvr_rio_done
rio_done_Steps i m y c p l e = elim (Option-cases (rio_unlock i m.cache)) [
  | inl a ↦ absurd (unpinned-none i c (rw a at e))
  | inr ((c1, gone), a) ↦
      unpinned-Steps y (record m { leaving = lc_remove i m.leaving }) i c1 c gone
        (next m _ p (read_done i c1 gone l a)) (rw a at e)
]

wio_done_Steps :
    (now i : ℕ) (repl : Bool) (m y : Sys) (c : SlvrCache)
    → Steps y m
    → count i m.leaving ≢ 0
    → slvr_wio_done now repl i m.cache ≡ some c
    → Steps y (record m { cache = c; leaving = lc_remove i m.leaving })
unfolding slvr_wio_done
wio_done_Steps now i repl m y c p l e = elim (Option-cases (wio_unlock now repl i m.cache)) [
  | inl a ↦ absurd (unpinned-none i c (rw a at e))
  | inr ((c1, gone), a) ↦
      unpinned-Steps y (record m { leaving = lc_remove i m.leaving }) i c1 c gone
        (next m _ p (write_done now i repl c1 gone l a)) (rw a at e)
]

-- The end of the I/O on a sliver, and its release.
module _ (e : IoSite) (write : Bool) (rc i : ℕ) (s : Slvr) (z : Sys) (c : SlvrCache) where
  abbrev done_to : Sys
  done_to = record z {
    cache = c;
    inside = lc_remove i z.inside;
    leaving = lc_remove i (i ∷ z.leaving);
  }

  abbrev out_cache : SlvrCache
  out_cache = put_slvr i (slvr_io_done rc s) z.cache

  done_Steps :
      (y : Sys)
      → Steps y z
      → z.cache.slvrs i ≡ some s
      → count i z.inside ≢ 0
      → (if write then slvr_wio_done e.now false i out_cache else slvr_rio_done i out_cache)
        ≡ some c
      → Steps y done_to
  unfolding count
  done_Steps y p a n f =
      let m : Sys = record z {
        cache = out_cache;
        inside = lc_remove i z.inside;
        leaving = i ∷ z.leaving;
      } in
      let q = next z m p (ended i s rc a n) in
      let l : count i m.leaving ≢ 0 = ground arith in
      elim (Bool-cases write) [
        | inl b ↦
            let g : slvr_wio_done e.now false i out_cache ≡ some c = ground (arith, b) in
            wio_done_Steps e.now i false m y c q l g
        | inr b ↦
            let g : slvr_rio_done i out_cache ≡ some c = ground (arith, b) in
            rio_done_Steps i m y c q l g
      ]

  Holds-done_to : (o : Sys) (is : List ℕ) → Holds (i ∷ is) o z → Holds is o done_to
  unfolding count
  Holds-done_to o is h = record {
    inside = λ k. ground (arith, h.inside k, count-lc_remove k i z.inside);
    refused = λ k. ground (arith, h.refused k);
    waiting = λ k. ground (arith, h.waiting k);
    leaving = λ k. ground (arith, h.leaving k, count-lc_remove k i (i ∷ z.leaving));
    work = λ k. ground (arith, h.work k);
    removing = λ k. ground (arith, h.removing k);
  }

pub done_each-Steps :
    (e : IoSite) (write : Bool) (rc : ℕ) (is : List ℕ) (o y z : Sys) (c : SlvrCache)
    → Steps y z
    → Holds is o z
    → done_each e write rc is z.cache ≡ some c
    → (w : Sys) × Steps y w × (w.cache ≡ c) × Holds [] o w
unfolding done_each count
done_each-Steps e write rc [] o y z c p h d = (z, p, ground arith, h)
done_each-Steps e write rc (i ∷ is) o y z c p h d = elim (Option-cases (z.cache.slvrs i)) [
  | inl a ↦ absurd (ground (arith, a))
  | inr (s, a) ↦
      let c1 = out_cache e write rc i s z z.cache in
      elim (Option-cases (if write then slvr_wio_done e.now false i c1 else slvr_rio_done i c1)) [
        | inl b ↦ absurd (ground (arith, a, b))
        | inr (c2, b) ↦
            let z1 = done_to e write rc i s z c2 in
            let n : count i z.inside ≢ 0 = ground (arith, h.inside i) in
            let p1 = done_Steps e write rc i s z c2 y p a n b in
            done_each-Steps e write rc is o y z1 c p1 (Holds-done_to e write rc i s z c2 o is h)
              (ground (arith, a, b))
      ]
]
