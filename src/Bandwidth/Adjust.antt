-- ===== src/Bandwidth/Adjust.antt =====
-- `resmpair_bw_adj` as a reservation and as a release: what it does to each server.
use slash.Prelude.{
  ℕ, zero, suc, ◌+◌, ◌-◌, ◌≡◌, refl, ◌<◌, ◌≤◌, none, some, Bool, true, false, ◌==◌, ◌&&◌, ltb,
  if◌then◌else◌, arith, Bool-cases, inl, inr,
}
use slash.Prelude.Ints.{pos, negsuc, neg}
use slash.Residency.{arr_set}
use slash.Bandwidth.{
  Ios, howmany_units, units, adj_bw, adj_src, adj_dst, is_neg, pair_has_bw, resmpair_bw_adj,
  int_end,
}

abbrev pub amount : Bool → ℕ → ℕ
amount t n = if t then n else 0

-- What an adjustment adds to the servers.
abbrev pub Added : (ℕ → Ios) → (ℕ → Ios) → ℕ → ℕ → ℕ → Type 0
Added ios ios' s d u =
    ((i : ℕ) → (ios' i).egress.assigned ≡ (ios i).egress.assigned + amount (s == i) u)
    × ((i : ℕ) → (ios' i).ingress.assigned ≡ (ios i).ingress.assigned + amount (d == i) u)
    × ((i : ℕ)
        → (ios' i).aggr.assigned ≡ (ios i).aggr.assigned + (amount (s == i) u + amount (d == i) u))

abbrev pub plus_src : ℕ → Ios → Ios
plus_src u x = record x {
  egress = record x.egress { inflight = x.egress.inflight + u; assigned = x.egress.assigned + u };
  aggr = record x.aggr { inflight = x.aggr.inflight + u; assigned = x.aggr.assigned + u };
}

abbrev pub plus_dst : ℕ → Ios → Ios
plus_dst u x = record x {
  ingress = record x.ingress {
    inflight = x.ingress.inflight + u;
    assigned = x.ingress.assigned + u;
  };
  aggr = record x.aggr { inflight = x.aggr.inflight + u; assigned = x.aggr.assigned + u };
}

abbrev pub reserved : (ℕ → Ios) → ℕ → ℕ → ℕ → ℕ → Ios
reserved ios s d u =
    arr_set (arr_set ios s (plus_src u (ios s))) d
      (plus_dst u (arr_set ios s (plus_src u (ios s)) d))

-- No counter wraps.
abbrev pub has_room : (ℕ → Ios) → ℕ → ℕ → ℕ → Bool
has_room ios s d u =
    ltb ((ios s).egress.assigned + u) int_end
    && (ltb ((ios s).aggr.assigned + u) int_end
        && (ltb ((arr_set ios s (plus_src u (ios s)) d).ingress.assigned + u) int_end
            && ltb ((arr_set ios s (plus_src u (ios s)) d).aggr.assigned + u) int_end))

-- A request for bandwidth succeeds exactly if all four directions are below the limit, and fails an
-- assertion if it then makes a counter wrap.
pub reserve_lem :
    (ios : ℕ → Ios) (s d n : ℕ)
    → resmpair_bw_adj ios s d (pos n) ≡ (
        if pair_has_bw ios s d
        then (if has_room ios s d (howmany_units n)
            then some (
              reserved ios s d (howmany_units n),
              true,
              pair_has_bw (reserved ios s d (howmany_units n)) s d,
            )
            else none)
        else some (ios, false, false))
unfolding resmpair_bw_adj units is_neg adj_src adj_dst adj_bw
reserve_lem ios s d n = elim (Bool-cases (pair_has_bw ios s d)) [
  | inr t ↦ rw t refl
  | inl t ↦
      let u = howmany_units n in
      let x = plus_src u (ios s) in
      elim (Bool-cases (ltb ((ios s).egress.assigned + u) int_end)) [
        | inr a ↦ rw (t, a) refl
        | inl a ↦ elim (Bool-cases (ltb ((ios s).aggr.assigned + u) int_end)) [
          | inr b ↦ rw (t, a, b) refl
          | inl b ↦ elim (Bool-cases (ltb ((arr_set ios s x d).ingress.assigned + u) int_end)) [
            | inr c ↦ rw (t, a, b, c) refl
            | inl c ↦ elim (Bool-cases (ltb ((arr_set ios s x d).aggr.assigned + u) int_end)) [
              | inr e ↦ rw (t, a, b, c, e) refl
              | inl e ↦ rw (t, a, b, c, e) refl
            ]
          ]
        ]
      ]
]

pub reserved-Added : (ios : ℕ → Ios) (s d u : ℕ) → Added ios (reserved ios s d u) s d u
reserved-Added ios s d u = (λ i. ground arith, λ i. ground arith, λ i. ground arith)

abbrev pub minus_src : ℕ → Ios → Ios
minus_src u x = record x {
  egress = record x.egress { assigned = x.egress.assigned - u };
  aggr = record x.aggr { assigned = x.aggr.assigned - u };
}

abbrev pub minus_dst : ℕ → Ios → Ios
minus_dst u x = record x {
  ingress = record x.ingress { assigned = x.ingress.assigned - u };
  aggr = record x.aggr { assigned = x.aggr.assigned - u };
}

abbrev pub released : (ℕ → Ios) → ℕ → ℕ → ℕ → ℕ → Ios
released ios s d u =
    arr_set (arr_set ios s (minus_src u (ios s))) d
      (minus_dst u (arr_set ios s (minus_src u (ios s)) d))

units-neg : (n : ℕ) → 0 < n → (units (neg n) ≡ negsuc (howmany_units n - 1)) × (0 < howmany_units n)
unfolding units neg howmany_units
units-neg zero h = absurd (omega arith)
units-neg (suc n) h = (refl, omega arith)

-- A release goes through if enough is assigned in each of the four directions.
pub release_lem :
    (ios : ℕ → Ios) (s d n : ℕ)
    → 0 < n
    → howmany_units n ≤ (ios s).egress.assigned
    → howmany_units n ≤ (ios d).ingress.assigned
    → howmany_units n ≤ (ios s).aggr.assigned
    → howmany_units n ≤ (arr_set ios s (minus_src (howmany_units n) (ios s)) d).aggr.assigned
    → resmpair_bw_adj ios s d (neg n)
      ≡ some (
        released ios s d (howmany_units n),
        true,
        pair_has_bw (released ios s d (howmany_units n)) s d,
      )
unfolding resmpair_bw_adj is_neg adj_src adj_dst adj_bw
release_lem ios s d n h a b c e =
    let (q, p) = units-neg n h in
    let u = howmany_units n in
    let w : suc (u - 1) ≡ u = omega (arith, p) in rw q (rw w (ground (arith, p, a, b, c, e)))

-- What the release takes away again.
abbrev pub Removed : (ℕ → Ios) → (ℕ → Ios) → ℕ → ℕ → ℕ → Type 0
Removed ios ios' s d u =
    ((i : ℕ) → (ios' i).egress.assigned ≡ (ios i).egress.assigned - amount (s == i) u)
    × ((i : ℕ) → (ios' i).ingress.assigned ≡ (ios i).ingress.assigned - amount (d == i) u)
    × ((i : ℕ)
        → (ios' i).aggr.assigned ≡ (ios i).aggr.assigned - (amount (s == i) u + amount (d == i) u))

pub released-Removed : (ios : ℕ → Ios) (s d u : ℕ) → Removed ios (released ios s d u) s d u
released-Removed ios s d u = (λ i. ground arith, λ i. ground arith, λ i. ground arith)
