-- ===== src/Prelude/Table.antt =====
-- A test that is run at every value below a bound, for facts on bytes.
use slash.Prelude.{
  ℕ, zero, suc, ◌<◌, ◌≡◌, ◌==◌, Bool, true, false, if◌then◌else◌, Bool-cases, inl, inr, arith,
}

unfoldable pub tabulated : ℕ → (ℕ → Bool) → Bool
tabulated zero test = true
tabulated (suc bound) test = if test bound then tabulated bound test else false

-- What the run has shown, at one value.
pub tabulated-at :
    (bound : ℕ) (test : ℕ → Bool) (v : ℕ) → tabulated bound test ≡ true → v < bound → test v ≡ true
unfolding tabulated
tabulated-at zero test v run below = absurd (omega arith)
tabulated-at (suc bound) test v run below = elim (Bool-cases (v == bound)) [
  | inl top ↦ let same : v ≡ bound = ground arith in ground (arith, same)
  | inr rest ↦ ground (arith, tabulated-at bound test v)
]
