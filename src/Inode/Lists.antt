-- ===== src/Inode/Lists.antt =====
-- Lists of replica IDs: a position, a removal, and the moves by which the arrays make it.
use slash.Prelude.{
  ℕ, zero, suc, ◌+◌, ◌-◌, ◌≡◌, refl, ◌≤◌, ◌<◌, ap, List, [], ◌∷◌, ◌++◌, Option, none, some, ◌==◌,
  ltb, if◌then◌else◌, length, get_or, take, drop, set, arith,
}
use native.Mathlib.Numerals.{add-one}
use slash.Inode.{shift_down}

-- The first position of `x` in a list whose first position is `j`.
unfoldable pub index_from : ℕ → ℕ → List ℕ → Option ℕ
index_from x j [] = none
index_from x j (y ∷ ys) = if y == x then some j else index_from x (j + 1) ys

abbrev pub index_of : ℕ → List ℕ → Option ℕ
index_of x ys = index_from x 0 ys

unfoldable pub remove_at : ℕ → List ℕ → List ℕ
remove_at i [] = []
remove_at zero (x ∷ xs) = xs
remove_at (suc i) (x ∷ xs) = x ∷ remove_at i xs

pub drop-cons : (j : ℕ) (xs : List ℕ) → j < length xs → drop j xs ≡ get_or xs j 0 ∷ drop (j + 1) xs
drop-cons j [] h = absurd (omega arith)
drop-cons zero (x ∷ xs) h = refl
drop-cons (suc j) (x ∷ xs) h =
    rw (add-one (suc j)) (rw (add-one j) at (drop-cons j xs (omega arith)))

pub length-shift_down : (xs : List ℕ) (k : ℕ) → length (shift_down xs k) ≡ length xs
unfolding shift_down
length-shift_down [] k = refl
length-shift_down (x ∷ []) k = refl
length-shift_down (x ∷ (y ∷ ys)) zero = ap suc (length-shift_down (y ∷ ys) zero)
length-shift_down (x ∷ (y ∷ ys)) (suc k) = ap suc (length-shift_down (y ∷ ys) k)

-- Nothing stands behind the last entry.
pub shift_down_last : (xs : List ℕ) (k : ℕ) → length xs ≤ suc k → shift_down xs k ≡ xs
unfolding shift_down
shift_down_last [] k h = refl
shift_down_last (x ∷ []) k h = refl
shift_down_last (x ∷ (y ∷ ys)) zero h = absurd (omega arith)
shift_down_last (x ∷ (y ∷ ys)) (suc k) h =
    ap (λ l. x ∷ l) (shift_down_last (y ∷ ys) k (omega arith))

take-shift_down_head :
    (y : ℕ) (ys : List ℕ) (n : ℕ) → n ≤ length ys → take n (shift_down (y ∷ ys) zero) ≡ take n ys
unfolding shift_down
take-shift_down_head y [] zero h = refl
take-shift_down_head y [] (suc n) h = absurd (omega arith)
take-shift_down_head y (z ∷ zs) zero h = refl
take-shift_down_head y (z ∷ zs) (suc n) h =
    ap (λ l. z ∷ l) (take-shift_down_head z zs n (omega arith))

-- Moving down what stands behind `j` removes entry `j` from any prefix that holds it.
take-shift_down :
    (xs : List ℕ) (n j : ℕ)
    → suc n ≤ length xs
    → j < suc n
    → take n (shift_down xs j) ≡ remove_at j (take (suc n) xs)
unfolding shift_down remove_at
take-shift_down [] n j h hj = absurd (omega arith)
take-shift_down (x ∷ []) zero zero h hj = refl
take-shift_down (x ∷ []) zero (suc j) h hj = absurd (omega arith)
take-shift_down (x ∷ []) (suc n) j h hj = absurd (omega arith)
take-shift_down (x ∷ (y ∷ ys)) zero zero h hj = refl
take-shift_down (x ∷ (y ∷ ys)) zero (suc j) h hj = absurd (omega arith)
take-shift_down (x ∷ (y ∷ ys)) (suc n) zero h hj =
    ap (λ l. y ∷ l) (take-shift_down_head y ys n (omega arith))
take-shift_down (x ∷ (y ∷ ys)) (suc n) (suc j) h hj =
    ap (λ l. x ∷ l) (take-shift_down (y ∷ ys) n j (omega arith) (omega arith))

pub take-pred-shift_down :
    (xs : List ℕ) (n j : ℕ)
    → n ≤ length xs
    → j < n
    → take (n - 1) (shift_down xs j) ≡ remove_at j (take n xs)
take-pred-shift_down xs zero j h hj = absurd (omega arith)
take-pred-shift_down xs (suc n) j h hj =
    let e : suc n - 1 ≡ n = omega arith in rw e (take-shift_down xs n j h hj)

pub take-append_of_le : (n : ℕ) (xs ys : List ℕ) → n ≤ length xs → take n (xs ++ ys) ≡ take n xs
take-append_of_le zero xs ys h = refl
take-append_of_le (suc n) [] ys h = absurd (omega arith)
take-append_of_le (suc n) (x ∷ xs) ys h = ap (λ l. x ∷ l) (take-append_of_le n xs ys (omega arith))

-- A write behind a prefix extends it.
pub take-set :
    (n : ℕ) (xs : List ℕ) (v : ℕ)
    → n < length xs
    → take (n + 1) (set xs n v) ≡ take n xs ++ (v ∷ [])
take-set n [] v h = absurd (omega arith)
take-set zero (x ∷ xs) v h = refl
take-set (suc n) (x ∷ xs) v h =
    rw add-one (rw add-one at (ap (λ l. x ∷ l) (take-set n xs v (omega arith))))

pub length-remove_at :
    (j : ℕ) (xs : List ℕ) → j < length xs → length (remove_at j xs) + 1 ≡ length xs
unfolding remove_at
length-remove_at j [] h = absurd (omega arith)
length-remove_at zero (x ∷ xs) h = omega arith
length-remove_at (suc j) (x ∷ xs) h = omega (arith, length-remove_at j xs)

pub get_or-append :
    (xs ys : List ℕ) (j : ℕ)
    → get_or (xs ++ ys) j 0
      ≡ (if ltb j (length xs) then get_or xs j 0 else get_or ys (j - length xs) 0)
get_or-append [] ys j = ground arith
get_or-append (x ∷ xs) ys zero = ground arith
get_or-append (x ∷ xs) ys (suc j) = ground (arith, get_or-append xs ys j)

pub set-append :
    (xs ys : List ℕ) (n v : ℕ)
    → set (xs ++ ys) n v
      ≡ (if ltb n (length xs) then set xs n v ++ ys else xs ++ set ys (n - length xs) v)
set-append [] ys n v = ground arith
set-append (x ∷ xs) ys zero v = ground arith
set-append (x ∷ xs) ys (suc n) v = ground (arith, set-append xs ys n v)
