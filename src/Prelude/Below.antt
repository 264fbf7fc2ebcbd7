-- ===== src/Prelude/Below.antt =====
-- A test on the numbers below a bound, as in a loop over the replicas of a file.
use slash.Prelude.{
  ℕ, zero, suc, ◌≡◌, refl, ◌<◌, Bool, true, false, ◌||◌, ◌==◌, Bool-cases, inl, inr, arith,
}

-- Whether some index below `n` passes the test.
unfoldable pub some_below : (ℕ → Bool) → ℕ → Bool
some_below p zero = false
some_below p (suc n) = p n || some_below p n

pub some_below-at : (p : ℕ → Bool) (n j : ℕ) → j < n → p j ≡ true → some_below p n ≡ true
unfolding some_below
some_below-at p zero j h e = absurd (omega arith)
some_below-at p (suc n) j h e = elim (Bool-cases (j == n)) [
  | inl q ↦ let same : j ≡ n = ground arith in rw (← same, e)
  | inr q ↦ rw (some_below-at p n j (ground arith) e) (ground arith)
]

pub some_below-cong :
    (p q : ℕ → Bool) (n : ℕ) → ((j : ℕ) → p j ≡ q j) → some_below p n ≡ some_below q n
unfolding some_below
some_below-cong p q zero h = refl
some_below-cong p q (suc n) h = rw (h n, some_below-cong p q n h)
