-- ===== src/Slvr/Other.antt =====
-- What is done to one sliver leaves the others, and reaping leaves those that are being freed.
use slash.Prelude.{
  ℕ, ◌-◌, ◌≡◌, List, [], ◌∷◌, ◌++◌, some, Bool, true, false, ◌==◌, arith, Bool-cases, Option-cases,
  inl, inr,
}
use slash.Slvr.{
  Slvr, SlvrCache, put_slvr, slvr_remove, slvr_lookup, slvr_tryunpin, rio_unlock, wio_unlock,
  slvr_rio_done, unpinned, slvr_schedule_crc, reap_scan, remove_round,
}
use slash.SlvrCrc.{CrcSlot, slvr_do_crc, proc_slvr}
use slash.Slvr.Users.{count}
use slash.Slvr.Fits.{count-snoc}

-- The scan of `slvr_buffer_reap` passes over a sliver that is being freed.
pub reap_scan-other :
    (free : ℕ → Bool) (most i : ℕ) (s : Slvr) (is a : List ℕ) (c : SlvrCache)
    → c.slvrs i ≡ some s
    → s.freeing ≡ true
    → count i a ≡ 0
    → ((reap_scan free most is a c).0.slvrs i ≡ some s)
      × (count i (reap_scan free most is a c).1 ≡ 0)
unfolding reap_scan
reap_scan-other free most i s [] a c e f n = (e, n)
reap_scan-other free most i s (j ∷ is) a c e f n = elim (Option-cases (c.slvrs j)) [
  | inl b ↦ ground (arith, b, reap_scan-other free most i s is a c e f n)
  | inr (t, b) ↦
      let t1 : Slvr = record t { freeing = true } in
      elim (Bool-cases (i == j)) [
        | inl q ↦
            let same : i ≡ j = ground arith in
            let st : s ≡ t = ground (arith, b, e) in
            ground (arith, b, st, reap_scan-other free most i s is a c e f n)
        | inr q ↦
            let e1 : (put_slvr j t1 c).slvrs i ≡ some s = ground arith in
            let n1 : count i (a ++ (j ∷ [])) ≡ 0 = ground (arith, count-snoc i j a) in
            ground (
              arith,
              b,
              reap_scan-other free most i s is a c e f n,
              reap_scan-other free most i s is (a ++ (j ∷ [])) (put_slvr j t1 c) e1 f n1,
            )
      ]
]

pub slvr_remove-other :
    (c : SlvrCache) (i j : ℕ) → (i == j) ≡ false → (slvr_remove j c).slvrs i ≡ c.slvrs i
unfolding slvr_remove
slvr_remove-other c i j q = elim (Option-cases (c.slvrs j)) [
  | inl b ↦ ground (arith, b)
  | inr (t, b) ↦ ground (arith, b)
]

-- What is done to one sliver leaves the others.
module _ (i j : ℕ) (c c' : SlvrCache) (q : (i == j) ≡ false) where
  tryunpin-other :
      (s : Slvr) (x : Bool) → slvr_tryunpin j s c ≡ some (c', x) → c'.slvrs i ≡ c.slvrs i
  unfolding slvr_tryunpin
  tryunpin-other s x e = ground arith

  pub lookup-other : slvr_lookup j c ≡ some c' → c'.slvrs i ≡ c.slvrs i
  unfolding slvr_lookup
  lookup-other e = elim (Option-cases (c.slvrs j)) [
    | inl a ↦ ground (arith, a)
    | inr (s, a) ↦ ground (arith, a)
  ]

  pub proc-other :
      (crc : ℕ) (k k' : CrcSlot) → proc_slvr crc j k c ≡ some (c', k') → c'.slvrs i ≡ c.slvrs i
  unfolding proc_slvr slvr_do_crc
  proc-other crc k k' e = elim (Option-cases (c.slvrs j)) [
    | inl a ↦ absurd (ground (arith, a))
    | inr (s, a) ↦ ground (arith, a, slvr_remove-other c i j q)
  ]

  pub round-other : (remove_round j c).0.slvrs i ≡ c.slvrs i
  unfolding remove_round
  round-other = elim (Option-cases (c.slvrs j)) [
    | inl a ↦ ground (arith, a)
    | inr (s, a) ↦ ground (arith, a)
  ]

module _ (i j : ℕ) (c c' : SlvrCache) (q : (i == j) ≡ false) where
  pub rio-other : (x : Bool) → rio_unlock j c ≡ some (c', x) → c'.slvrs i ≡ c.slvrs i
  unfolding rio_unlock
  rio-other x e = elim (Option-cases (c.slvrs j)) [
    | inl a ↦ absurd (ground (arith, a))
    | inr (s, a) ↦
        let s1 : Slvr = record s { refcnt = s.refcnt - 1 } in
        let c1 = put_slvr j s1 c in ground (arith, a, tryunpin-other i j c1 c' q s1 x)
  ]

  pub wio-other :
      (now : ℕ) (repl x : Bool) → wio_unlock now repl j c ≡ some (c', x) → c'.slvrs i ≡ c.slvrs i
  unfolding wio_unlock slvr_schedule_crc
  wio-other now repl x e = elim (Option-cases (c.slvrs j)) [
    | inl a ↦ absurd (ground (arith, a))
    | inr (s, a) ↦
        let s1 : Slvr = record s { refcnt = s.refcnt - 1 } in
        let c1 = put_slvr j s1 c in ground (arith, a, tryunpin-other i j c1 c' q s1 x)
  ]

-- The whole release, by a thread that runs alone.
pub rio_done-other :
    (i j : ℕ) (c c' : SlvrCache)
    → (i == j) ≡ false
    → slvr_rio_done j c ≡ some c'
    → c'.slvrs i ≡ c.slvrs i
unfolding slvr_rio_done unpinned
rio_done-other i j c c' q e = elim (Option-cases (rio_unlock j c)) [
  | inl a ↦ absurd (ground (arith, a))
  | inr ((c1, x), a) ↦
      let o = rio-other i j c c1 q x a in ground (arith, a, o, slvr_remove-other c1 i j q)
]
