-- ===== src/Bandwidth/RoundTrip.antt =====
-- A reservation and its release.
use slash.Prelude.{ℕ, ◌≡◌, ◌<◌, some, Bool, true, arith}
use slash.Prelude.Ints.{pos, neg}
use slash.Bandwidth.{Ios, howmany_units, pair_has_bw, resmpair_bw_adj}
use slash.Bandwidth.Adjust.{reserved, released, reserved-Added, release_lem, released-Removed}
use slash.Bandwidth.Reach.{reserve-inv}

-- The same is assigned to each server in both.
abbrev pub SameAssigned : (ℕ → Ios) → (ℕ → Ios) → Type 0
SameAssigned ios ios' =
    (i : ℕ)
    → ((ios' i).egress.assigned ≡ (ios i).egress.assigned)
      × ((ios' i).ingress.assigned ≡ (ios i).ingress.assigned)
      × ((ios' i).aggr.assigned ≡ (ios i).aggr.assigned)

abbrev pub Releases : (ℕ → Ios) → (ℕ → Ios) → ℕ → ℕ → ℕ → Type 0
Releases ios ios1 s d n =
    (ios2 : ℕ → Ios) × (more : Bool) × (resmpair_bw_adj ios1 s d (neg n) ≡ some (ios2, true, more))
    × SameAssigned ios ios2

-- After a reservation of some bytes between two servers that went through, the release of the same
-- goes through as well, and leaves assigned to every server what was assigned before.
pub release-reserve :
    (ios ios1 : ℕ → Ios) (s d n : ℕ) (more : Bool)
    → 0 < n
    → resmpair_bw_adj ios s d (pos n) ≡ some (ios1, true, more)
    → Releases ios ios1 s d n
release-reserve ios ios1 s d n more h e =
    let u = howmany_units n in
    let (t, same) = reserve-inv ios ios1 s d n more e in
    let (a, b, c) = reserved-Added ios s d u in
    let new = reserved ios s d u in
    let (a', b', c') = released-Removed new s d u in
    rw same (
      released new s d u,
      pair_has_bw (released new s d u) s d,
      release_lem new s d n h (ground (arith, a s)) (ground (arith, b d)) (ground (arith, c s))
          (ground (arith, c s, c d)),
      λ i. (ground (arith, a i, a' i), ground (arith, b i, b' i), ground (arith, c i, c' i)),
    )
