-- ===== src/Traffic/Bounds.antt =====
-- The traffic of a replication is at most a bmap, and is 0 only where there is no data.
use slash.Prelude.{
  ℕ, zero, suc, ◌+◌, ◌*◌, ◌≡◌, ◌<◌, ◌≤◌, false, ◌==◌, if◌then◌else◌, arith, Bool-cases, inl, inr,
}
use slash.Traffic.{Slivers, lastsize, tally, calc_repltraffic}

lastsize-le : (fsz : ℕ) → (lastsize fsz ≤ 1048576) × ((fsz == 0) ≡ (lastsize fsz == 0))
unfolding lastsize
lastsize-le fsz = (ground arith, ground arith)

tally-le : (s : Slivers) (k i amt : ℕ) → tally s k i amt ≤ amt + k * 1048576
unfolding tally
tally-le s zero i amt = omega arith
tally-le s (suc k) i amt =
    let (le, z) = lastsize-le s.fsz in
    ground (arith, le, tally-le s k (i + 1) (if s.data_at i then amt + 1048576 else amt))

-- The traffic of a bmap is at most SLASH_BMAP_SIZE.
pub calc_repltraffic-le : (s : Slivers) → calc_repltraffic s ≤ 134217728
unfolding calc_repltraffic
calc_repltraffic-le s = omega (arith, tally-le s 128 0 0)

tally-ge : (s : Slivers) (k i amt : ℕ) → amt ≤ tally s k i amt
unfolding tally
tally-ge s zero i amt = omega arith
tally-ge s (suc k) i amt =
    ground (arith, tally-ge s k (i + 1) (if s.data_at i then amt + 1048576 else amt))

tally-zero :
    (s : Slivers) (k i j : ℕ)
    → 0 < s.fsz
    → tally s k i 0 ≡ 0
    → i ≤ j
    → j < i + k
    → s.data_at j ≡ false
unfolding tally
tally-zero s zero i j h e a b = absurd (omega arith)
tally-zero s (suc k) i j h e a b =
    let (le, z) = lastsize-le s.fsz in
    elim (Bool-cases (s.data_at i)) [
      | inl t ↦ absurd (ground (arith, z, tally-ge s k (i + 1) 1048576))
      | inr t ↦ elim (Bool-cases (i == j)) [
        | inl q ↦ let same : i ≡ j = ground arith in rw (← same) t
        | inr q ↦ tally-zero s k (i + 1) j h (ground arith) (ground arith) (omega arith)
      ]
    ]

-- The traffic of a bmap of a file that is not empty is 0 only if no sliver of the bmap has data, so
-- that a replica is marked valid with no copy only where there is nothing to copy.
pub calc_repltraffic-zero :
    (s : Slivers) (j : ℕ) → 0 < s.fsz → calc_repltraffic s ≡ 0 → j < 128 → s.data_at j ≡ false
unfolding calc_repltraffic
calc_repltraffic-zero s j h e lt = tally-zero s 128 0 j h e (omega arith) (omega arith)
