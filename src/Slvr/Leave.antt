-- ===== src/Slvr/Leave.antt =====
-- The release of a sliver never fails an assertion and keeps what fits together.
use slash.Prelude.{
  ℕ, ◌-◌, ◌≡◌, ◌≢◌, [], ◌∷◌, ◌++◌, some, Bool, true, false, not, ◌&&◌, ◌||◌, ◌==◌, arith, refl,
  Option, Bool-cases, Option-cases, inl, inr,
}
use slash.Slvr.{
  Slvr, SlvrCache, put_slvr, lc_remove, slvr_remove, slvr_tryunpin, rio_unlock, wio_unlock,
  slvr_schedule_crc,
}
use slash.Slvr.Users.{Sys, count, then_remove}
use slash.Slvr.Fits.{
  count-lc_remove, count-snoc, count-cons, view, IsCache, at_some, at_none, from_some, from_none,
  change,
}

-- A sliver that a thread is about to remove is taken out.
pub remove-IsCache :
    (y : Sys) (i : ℕ)
    → IsCache y
    → count i y.removing ≢ 0
    → IsCache (record y { cache = slvr_remove i y.cache; removing = lc_remove i y.removing })
unfolding slvr_remove
remove-IsCache y i h r =
    let z : Sys = record y { cache = slvr_remove i y.cache; removing = lc_remove i y.removing } in
    elim (Option-cases (y.cache.slvrs i)) [
      | inl e ↦ absurd (ground (arith, at_none (view y i) e (h i)))
      | inr (s, e) ↦
          let g = at_some (view y i) s e (h i) in
          let c = y.cache in
          change y z i h
            (from_none (view z i) (ground (arith, e)) (
              ground (
                arith,
                e,
                g,
                count-lc_remove i i c.lruslvrs,
                count-lc_remove i i c.crcqslvrs,
                count-lc_remove i i y.removing,
              )))
            (λ k n. ground (
              arith,
              e,
              count-lc_remove k i c.lruslvrs,
              count-lc_remove k i c.crcqslvrs,
              count-lc_remove k i y.removing,
            ))
    ]

-- A thread is about to remove a sliver that nobody uses and nobody can take up.
pub doom-IsCache :
    (y : Sys) (i : ℕ) (s : Slvr)
    → IsCache y
    → y.cache.slvrs i ≡ some s
    → s.refcnt ≡ 0
    → count i y.at_work ≡ 0
    → (s.freeing || (s.dataerr && s.lru)) ≡ true
    → count i y.removing ≡ 0
    → IsCache (record y { removing = i ∷ y.removing })
doom-IsCache y i s h e r w f d =
    let z : Sys = record y { removing = i ∷ y.removing } in
    let g = at_some (view y i) s e (h i) in
    change y z i h (from_some (view z i) s e (ground (arith, g, count-cons i i y.removing)))
      (λ k n. ground (arith, count-cons k i y.removing))

-- The state after a user that was leaving gave its reference back.
abbrev less_one : ℕ → Slvr → Sys → Sys
less_one i s y = record y {
  cache = put_slvr i (record s { refcnt = s.refcnt - 1 }) y.cache;
  leaving = lc_remove i y.leaving;
}

less_one-IsCache :
    (y : Sys) (i : ℕ) (s : Slvr)
    → IsCache y
    → y.cache.slvrs i ≡ some s
    → count i y.leaving ≢ 0
    → IsCache (less_one i s y)
less_one-IsCache y i s h e w =
    let z = less_one i s y in
    let g = at_some (view y i) s e (h i) in
    change y z i h
      (from_some (view z i) (record s { refcnt = s.refcnt - 1 }) (ground arith)
        (ground (arith, g, count-lc_remove i i y.leaving)))
      (λ k n. ground (arith, count-lc_remove k i y.leaving))

-- Moving a sliver to the tail of the LRU list.
move-IsCache :
    (y : Sys) (i : ℕ)
    → IsCache y
    → count i y.cache.lruslvrs ≢ 0
    → IsCache (record y {
      cache = record y.cache { lruslvrs = lc_remove i y.cache.lruslvrs ++ (i ∷ []) };
    })
move-IsCache y i h w =
    let z : Sys = record y {
      cache = record y.cache { lruslvrs = lc_remove i y.cache.lruslvrs ++ (i ∷ []) };
    } in
    let same : view z i ≡ view y i = ground (
      arith,
      count-snoc i i (lc_remove i y.cache.lruslvrs),
      count-lc_remove i i y.cache.lruslvrs,
    ) in
    change y z i h (rw same (h i)) (λ k n.
      ground (
        arith,
        count-snoc k i (lc_remove i y.cache.lruslvrs),
        count-lc_remove k i y.cache.lruslvrs,
      ))

-- What a release up to the unlock comes to.
abbrev pub Unlocks : Sys → ℕ → Option (SlvrCache × Bool) → Type 0
Unlocks y i o =
    (c : SlvrCache) × (gone : Bool) × (o ≡ some (c, gone))
    × IsCache (record y { cache = c; removing = then_remove gone i y.removing })

-- A sliver that a user has just left can be unpinned.
tryunpin-IsCache :
    (y : Sys) (i : ℕ) (s : Slvr)
    → IsCache y
    → y.cache.slvrs i ≡ some s
    → (s.dataerr || s.datardy) ≡ true
    → count i y.at_work ≡ 0
    → count i y.removing ≡ 0
    → Unlocks y i (slvr_tryunpin i s y.cache)
unfolding slvr_tryunpin
tryunpin-IsCache y i s h e d w n =
    let g = at_some (view y i) s e (h i) in
    elim (Bool-cases (not (s.refcnt == 0) || s.crcdirty)) [
      | inl a ↦ (y.cache, false, rw a refl, h)
      | inr a ↦ elim (Bool-cases (s.dataerr || s.freeing)) [
        | inl b ↦ (
          y.cache,
          true,
          rw (a, b) refl,
          doom-IsCache y i s h e (ground (arith, a)) w (ground (arith, a, b, g)) n,
        )
        | inr b ↦ (
          record y.cache { lruslvrs = lc_remove i y.cache.lruslvrs ++ (i ∷ []) },
          false,
          ground (arith, a, b, g),
          move-IsCache y i h (ground (arith, a, g)),
        )
      ]
    ]

schedule-IsCache :
    (y : Sys) (now i : ℕ) (s : Slvr)
    → IsCache y
    → y.cache.slvrs i ≡ some s
    → s.lru ≡ true
    → (s.dataerr || s.datardy) ≡ true
    → count i y.removing ≡ 0
    → IsCache (record y { cache = slvr_schedule_crc now i s y.cache })
unfolding slvr_schedule_crc
schedule-IsCache y now i s h e l d m =
    let z : Sys = record y { cache = slvr_schedule_crc now i s y.cache } in
    let g = at_some (view y i) s e (h i) in
    change y z i h
      (from_some (view z i) (record s { lru = false; crcdirty = true; ts = now }) (ground arith)
        (ground (arith, g, count-lc_remove i i y.cache.lruslvrs, count-snoc i i y.cache.crcqslvrs)))
      (λ k n.
        ground (arith, count-lc_remove k i y.cache.lruslvrs, count-snoc k i y.cache.crcqslvrs))

-- A user whose I/O has ended can be found, and has a reference.
module _ (y : Sys) (i : ℕ) (h : IsCache y) (w : count i y.leaving ≢ 0) where
  leaving_slvr :
      (s : Slvr) × (y.cache.slvrs i ≡ some s)
      × ((s.refcnt == 0) ≡ false)
      × ((s.dataerr || s.datardy) ≡ true)
      × (count i y.at_work ≡ 0)
      × (count i y.removing ≡ 0)
  leaving_slvr = elim (Option-cases (y.cache.slvrs i)) [
    | inl a ↦ absurd (ground (arith, at_none (view y i) a (h i)))
    | inr (s, a) ↦
        let g = at_some (view y i) s a (h i) in
        (s, a, ground (arith, g), ground (arith, g), ground (arith, g), ground (arith, g))
  ]

  -- The release of a user that has read.
  pub rio_unlock-IsCache :
      Unlocks (record y { leaving = lc_remove i y.leaving }) i (rio_unlock i y.cache)
  unfolding rio_unlock
  rio_unlock-IsCache =
      let (s, e, r, d, n, m) = leaving_slvr in
      let s1 : Slvr = record s { refcnt = s.refcnt - 1 } in
      let h1 = less_one-IsCache y i s h e w in
      let (c, x, u, h2) = tryunpin-IsCache (less_one i s y) i s1 h1 (ground arith) d n m in
      (c, x, ground (arith, e, r, u), h2)

  -- And of one that has written.
  pub wio_unlock-IsCache :
      (now : ℕ) (repl : Bool)
      → Unlocks (record y { leaving = lc_remove i y.leaving }) i (wio_unlock now repl i y.cache)
  unfolding wio_unlock
  wio_unlock-IsCache now repl =
      let (s, e, r, d, n, m) = leaving_slvr in
      let s1 : Slvr = record s { refcnt = s.refcnt - 1 } in
      let h1 = less_one-IsCache y i s h e w in
      elim (Bool-cases (s.dataerr || repl)) [
        | inl a ↦
            let (c, x, u, h2) = tryunpin-IsCache (less_one i s y) i s1 h1 (ground arith) d n m in
            (c, x, ground (arith, e, r, u, a), h2)
        | inr a ↦ elim (Bool-cases s.lru) [
          | inl l ↦ (
            slvr_schedule_crc now i s1 (put_slvr i s1 y.cache),
            false,
            ground (arith, e, r, a, l),
            schedule-IsCache (less_one i s y) now i s1 h1 (ground arith) l d m,
          )
          | inr l ↦ (put_slvr i s1 y.cache, false, ground (arith, e, r, a, l), h1)
        ]
      ]
