-- ===== src/Residency/Visited.antt =====
-- Which indices a walk visits.
use slash.Prelude.{
  ℕ, zero, suc, ◌≡◌, refl, ◌<◌, ◌≤◌, List, [], ◌∷◌, ◌++◌, Bool, true, false, not, ◌&&◌, ltb, ◌==◌,
  if◌then◌else◌, Bool-cases, inl, inr, arith,
}
use slash.Residency.{upto, iosidx_in, others, visited}
use slash.Residency.Walk.{AllLt, Distinct}

pub iosidx_in-snoc :
    (j : ℕ) (xs : List ℕ) (y : ℕ)
    → iosidx_in j (xs ++ (y ∷ [])) ≡ (if y == j then true else iosidx_in j xs)
unfolding iosidx_in
iosidx_in-snoc j [] y = ground arith
iosidx_in-snoc j (x ∷ xs) y = ground (arith, iosidx_in-snoc j xs y)

-- `upto n` holds the numbers below `n`.
pub iosidx_in-upto : (j n : ℕ) → iosidx_in j (upto n) ≡ ltb j n
unfolding upto iosidx_in
iosidx_in-upto j zero = ground arith
iosidx_in-upto j (suc n) = ground (arith, iosidx_in-snoc j (upto n) n, iosidx_in-upto j n)

pub Distinct-snoc :
    (xs : List ℕ) (y : ℕ) → Distinct xs → iosidx_in y xs ≡ false → Distinct (xs ++ (y ∷ []))
unfolding iosidx_in
Distinct-snoc [] y d h = (refl, tt)
Distinct-snoc (x ∷ xs) y d h =
    (ground (arith, iosidx_in-snoc x xs y), Distinct-snoc xs y d.1 (ground arith))

pub upto-Distinct : (n : ℕ) → Distinct (upto n)
unfolding upto
upto-Distinct zero = tt
upto-Distinct (suc n) =
    Distinct-snoc (upto n) n (upto-Distinct n) (ground (arith, iosidx_in-upto n n))

AllLt-snoc : (m : ℕ) (xs : List ℕ) (y : ℕ) → AllLt m xs → y < m → AllLt m (xs ++ (y ∷ []))
AllLt-snoc m [] y h hy = (hy, tt)
AllLt-snoc m (x ∷ xs) y h hy = (h.0, AllLt-snoc m xs y h.1 hy)

pub upto-AllLt : (m n : ℕ) → n ≤ m → AllLt m (upto n)
unfolding upto
upto-AllLt m zero h = tt
upto-AllLt m (suc n) h = AllLt-snoc m (upto n) n (upto-AllLt m n (omega arith)) h

-- `others` takes out what is given, and keeps the rest.
pub iosidx_in-others :
    (j : ℕ) (is ks : List ℕ) → iosidx_in j (others is ks) ≡ (iosidx_in j ks && not (iosidx_in j is))
unfolding others iosidx_in
iosidx_in-others j is [] = refl
iosidx_in-others j is (k ∷ ks) = elim (Bool-cases (iosidx_in k is)) [
  | inl e ↦ rw e (ground (arith, iosidx_in-others j is ks))
  | inr e ↦ rw e (ground (arith, iosidx_in-others j is ks))
]

pub others-Distinct : (is ks : List ℕ) → Distinct ks → Distinct (others is ks)
unfolding others
others-Distinct is [] d = tt
others-Distinct is (k ∷ ks) d = elim (Bool-cases (iosidx_in k is)) [
  | inl e ↦ rw e (others-Distinct is ks d.1)
  | inr e ↦ rw e (ground (arith, iosidx_in-others k is ks), others-Distinct is ks d.1)
]

pub others-AllLt : (m : ℕ) (is ks : List ℕ) → AllLt m ks → AllLt m (others is ks)
unfolding others
others-AllLt m is [] d = tt
others-AllLt m is (k ∷ ks) d = elim (Bool-cases (iosidx_in k is)) [
  | inl e ↦ rw e (others-AllLt m is ks d.1)
  | inr e ↦ rw e (d.0, others-AllLt m is ks d.1)
]

AllLt-mono : (m n : ℕ) (xs : List ℕ) → m ≤ n → AllLt m xs → AllLt n xs
AllLt-mono m n [] h d = tt
AllLt-mono m n (x ∷ xs) h d = (omega arith, AllLt-mono m n xs h d.1)

-- The indices that a walk visits, as a test.
unfoldable pub chosen : ℕ → Bool → List ℕ → ℕ → Bool
chosen nr modoth [] j = ltb j nr
chosen nr modoth (i ∷ is) j =
    if modoth then ltb j nr && not (iosidx_in j (i ∷ is)) else iosidx_in j (i ∷ is)

pub iosidx_in-visited :
    (nr : ℕ) (modoth : Bool) (is : List ℕ) (j : ℕ)
    → iosidx_in j (visited nr modoth is) ≡ chosen nr modoth is j
unfolding visited chosen
iosidx_in-visited nr modoth [] j = iosidx_in-upto j nr
iosidx_in-visited nr true (i ∷ is) j =
    rw (iosidx_in-others j (i ∷ is) (upto nr), iosidx_in-upto j nr)
iosidx_in-visited nr false (i ∷ is) j = refl

pub visited-Distinct :
    (nr : ℕ) (modoth : Bool) (is : List ℕ) → Distinct is → Distinct (visited nr modoth is)
unfolding visited
visited-Distinct nr modoth [] d = upto-Distinct nr
visited-Distinct nr true (i ∷ is) d = others-Distinct (i ∷ is) (upto nr) (upto-Distinct nr)
visited-Distinct nr false (i ∷ is) d = d

pub visited-AllLt :
    (nr : ℕ) (modoth : Bool) (is : List ℕ) → nr ≤ 64 → AllLt nr is → AllLt 64 (visited nr modoth is)
unfolding visited
visited-AllLt nr modoth [] h d = upto-AllLt 64 nr h
visited-AllLt nr true (i ∷ is) h d = others-AllLt 64 (i ∷ is) (upto nr) (upto-AllLt 64 nr h)
visited-AllLt nr false (i ∷ is) h d = AllLt-mono nr 64 (i ∷ is) h d
