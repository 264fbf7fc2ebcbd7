-- ===== src/Bandwidth/Reach.antt =====
-- What is assigned to the I/O servers is what was reserved and not released, so that the assertion in
-- ADJ_BW never fails; and what is on its way stays bounded.
use slash.Prelude.{
  ℕ, ◌+◌, ◌/◌, ◌≡◌, ◌<◌, ◌≤◌, List, [], ◌∷◌, none, some, Bool, true, arith, Bool-cases, inl, inr,
}
use slash.Prelude.Ints.{pos, neg}
use slash.Residency.{arr_set}
use slash.Bandwidth.{
  Ios, howmany_units, has_bw, pair_has_bw, resmpair_bw_adj, BwQueued, unpack_statfs,
}
use slash.Bandwidth.Adjust.{
  has_room, reserved, released, reserve_lem, reserved-Added, release_lem, released-Removed,
}
use slash.Bandwidth.Ledger.{
  Reserved, sent_by, sent_to, pick, Promised, Step, reserve, release, report, Reach, start, step_on,
  IsBalanced, pick-sums,
}

-- With the ledger balanced, the release of a reservation that stands goes through.
release-balanced :
    (w : Promised) (k : ℕ) (r : Reserved) (rs : List Reserved)
    → IsBalanced w
    → 0 < r.amt
    → pick w.held k ≡ some (r, rs)
    → resmpair_bw_adj w.ios r.src r.dst (neg r.amt)
      ≡ some (
        released w.ios r.src r.dst (howmany_units r.amt),
        true,
        pair_has_bw (released w.ios r.src r.dst (howmany_units r.amt)) r.src r.dst,
      )
release-balanced w k r rs h p e =
    let sums = λ (i : ℕ). pick-sums w.held k r rs i e in
    release_lem w.ios r.src r.dst r.amt p (ground (arith, h.out r.src, sums r.src))
      (ground (arith, h.into r.dst, sums r.dst)) (ground (arith, h.both r.src, sums r.src))
      (ground (arith, h.both r.src, sums r.src, h.both r.dst, sums r.dst))

IsBalanced-released :
    (w : Promised) (k : ℕ) (r : Reserved) (rs : List Reserved)
    → IsBalanced w
    → pick w.held k ≡ some (r, rs)
    → IsBalanced (record { ios = released w.ios r.src r.dst (howmany_units r.amt); held = rs })
IsBalanced-released w k r rs h e =
    let (a, b, c) = released-Removed w.ios r.src r.dst (howmany_units r.amt) in
    let sums = λ (i : ℕ). pick-sums w.held k r rs i e in
    record {
      out = λ i. ground (arith, a i, h.out i, sums i);
      into = λ i. ground (arith, b i, h.into i, sums i);
      both = λ i. ground (arith, c i, h.both i, sums i);
    }

-- A reservation that went through.
pub reserve-inv :
    (ios ios' : ℕ → Ios) (s d n : ℕ) (avail : Bool)
    → resmpair_bw_adj ios s d (pos n) ≡ some (ios', true, avail)
    → (pair_has_bw ios s d ≡ true) × (ios' ≡ reserved ios s d (howmany_units n))
reserve-inv ios ios' s d n avail e = elim (Bool-cases (pair_has_bw ios s d)) [
  | inl t ↦ elim (Bool-cases (has_room ios s d (howmany_units n))) [
    | inl f ↦ (
      t,
      let v = reserve_lem ios s d n in
          let w : resmpair_bw_adj ios s d (pos n)
              ≡ some (
                reserved ios s d (howmany_units n),
                true,
                pair_has_bw (reserved ios s d (howmany_units n)) s d,
              ) =
            rw (t, f) at v in
          ground (arith, e, w),
    )
    | inr f ↦
        let v = reserve_lem ios s d n in
        let w : resmpair_bw_adj ios s d (pos n) ≡ none = rw (t, f) at v in
        absurd (ground (arith, e, w))
  ]
  | inr t ↦ ground (arith, e, reserve_lem ios s d n)
]

IsBalanced-reserved :
    (w : Promised) (r : Reserved)
    → IsBalanced w
    → IsBalanced
        (record { ios = reserved w.ios r.src r.dst (howmany_units r.amt); held = r ∷ w.held })
unfolding sent_by sent_to
IsBalanced-reserved w r h =
    let (a, b, c) = reserved-Added w.ios r.src r.dst (howmany_units r.amt) in
    record {
      out = λ i. ground (arith, a i, h.out i);
      into = λ i. ground (arith, b i, h.into i);
      both = λ i. ground (arith, c i, h.both i);
    }

IsBalanced-report :
    (w : Promised) (i : ℕ) (q : BwQueued)
    → IsBalanced w
    → IsBalanced (record w { ios = arr_set w.ios i (unpack_statfs q (w.ios i)) })
unfolding unpack_statfs
IsBalanced-report w i q h = record {
  out = λ j. ground (arith, h.out j);
  into = λ j. ground (arith, h.into j);
  both = λ j. ground (arith, h.both j);
}

Step-IsBalanced : (w u : Promised) → Step w u → IsBalanced w → IsBalanced u
Step-IsBalanced w u (reserve _ ios avail r p q e) h =
    let (t, same) = reserve-inv w.ios ios r.src r.dst r.amt avail e in
    rw same (IsBalanced-reserved w r h)
Step-IsBalanced w u (release _ ios rc avail k r rs p e f) h =
    let same : ios ≡ released w.ios r.src r.dst (howmany_units r.amt) =
      ground (arith, f, release-balanced w k r rs h p e) in
    rw same (IsBalanced-released w k r rs h e)
Step-IsBalanced w u (report _ i q f) h = IsBalanced-report w i q h

-- Whatever reservations, releases and reports happen, what is assigned to each server stays what the
-- reservations that stand come to, by direction and in sum.
pub Reach-IsBalanced : (w u : Promised) → Reach w u → IsBalanced w → IsBalanced u
Reach-IsBalanced w u start h = h
Reach-IsBalanced w u (step_on v _ r s) h = Step-IsBalanced v u s (Reach-IsBalanced w v r h)

-- Before any reservation, with nothing on its way.
pub record IsFresh (w : Promised) : Type 0 where
  pub nothing : w.held ≡ []
  pub zero_assigned :
      (i : ℕ)
      → ((w.ios i).egress.assigned ≡ 0)
        × ((w.ios i).ingress.assigned ≡ 0)
        × ((w.ios i).aggr.assigned ≡ 0)
  pub zero_inflight :
      (i : ℕ)
      → ((w.ios i).egress.inflight ≡ 0)
        × ((w.ios i).ingress.inflight ≡ 0)
        × ((w.ios i).aggr.inflight ≡ 0)

IsFresh-IsBalanced : (w : Promised) → IsFresh w → IsBalanced w
unfolding sent_by sent_to
IsFresh-IsBalanced w f = record {
  out = λ i. ground (arith, f.nothing, f.zero_assigned i);
  into = λ i. ground (arith, f.nothing, f.zero_assigned i);
  both = λ i. ground (arith, f.nothing, f.zero_assigned i);
}

-- From a start with nothing assigned, after any sequence of reservations, releases and reports of
-- less than 2 ^ 30, none of which fails an assertion itself, the release of any reservation that stands goes through: the assertion that
-- nothing below 0 is assigned does not fail.
pub release-Reach :
    (w u : Promised) (k : ℕ) (r : Reserved) (rs : List Reserved)
    → IsFresh w
    → Reach w u
    → 0 < r.amt
    → pick u.held k ≡ some (r, rs)
    → (ios : ℕ → Ios) × (more : Bool) × (resmpair_bw_adj u.ios r.src r.dst (neg r.amt)
        ≡ some (ios, true, more))
release-Reach w u k r rs f p h e =
    let b = Reach-IsBalanced w u p (IsFresh-IsBalanced w f) in
    (_, _, release-balanced u k r rs b h e)

-- Every count of what is on its way stays below a bound.
pub record IsBounded (w : Promised) : Type 0 where
  pub egress : (i : ℕ) → (w.ios i).egress.inflight < 327680
  pub ingress : (i : ℕ) → (w.ios i).ingress.inflight < 327680
  pub aggr : (i : ℕ) → (w.ios i).aggr.inflight < 327680

bounded-reserve :
    (ios : ℕ → Ios) (s d n i : ℕ)
    → n ≤ 134217728
    → pair_has_bw ios s d ≡ true
    → (ios i).egress.inflight < 327680
    → (ios i).ingress.inflight < 327680
    → (ios i).aggr.inflight < 327680
    → ((reserved ios s d (howmany_units n) i).egress.inflight < 327680)
      × ((reserved ios s d (howmany_units n) i).ingress.inflight < 327680)
      × ((reserved ios s d (howmany_units n) i).aggr.inflight < 327680)
unfolding pair_has_bw has_bw howmany_units
bounded-reserve ios s d n i hn t a b c =
    let u : ℕ = (n + 4095) / 4096 in
    let le : u ≤ 32768 = omega (arith, hn) in
    (ground (arith, le, t, a), ground (arith, le, t, b), ground (arith, le, t, c))

Step-IsBounded : (w u : Promised) → Step w u → IsBalanced w → IsBounded w → IsBounded u
unfolding unpack_statfs
Step-IsBounded w u (reserve _ ios avail r p q e) h b =
    let (t, same) = reserve-inv w.ios ios r.src r.dst r.amt avail e in
    let new = λ (i : ℕ).
      bounded-reserve w.ios r.src r.dst r.amt i q t (b.egress i) (b.ingress i) (b.aggr i) in
    rw same (record { egress = λ i. (new i).0; ingress = λ i. (new i).1; aggr = λ i. (new i).2 })
Step-IsBounded w u (release _ ios rc avail k r rs p e f) h b =
    let same : ios ≡ released w.ios r.src r.dst (howmany_units r.amt) =
      ground (arith, f, release-balanced w k r rs h p e) in
    rw same (record {
      egress = λ i. ground (arith, b.egress i);
      ingress = λ i. ground (arith, b.ingress i);
      aggr = λ i. ground (arith, b.aggr i);
    })
Step-IsBounded w u (report _ i q f) h b = record {
  egress = λ j. ground (arith, b.egress j);
  ingress = λ j. ground (arith, b.ingress j);
  aggr = λ j. ground (arith, b.aggr j);
}

-- From such a start, after any sequence of reservations of at most a bmap each, releases and reports,
-- what is thought to be on its way from or to a server is below 327680 units, which a 32-bit counter
-- holds.
pub Reach-IsBounded : (w u : Promised) → IsFresh w → Reach w u → IsBounded u
Reach-IsBounded w u f start = record {
  egress = λ i. ground (arith, f.zero_inflight i);
  ingress = λ i. ground (arith, f.zero_inflight i);
  aggr = λ i. ground (arith, f.zero_inflight i);
}
Reach-IsBounded w u f (step_on v _ r s) =
    Step-IsBounded v u s (Reach-IsBalanced w v r (IsFresh-IsBalanced w f)) (Reach-IsBounded w v f r)
