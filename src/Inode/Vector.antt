-- ===== src/Inode/Vector.antt =====
-- `_mds_repl_iosv_lookup`: its test for duplicates refuses every request for two I/O systems or more.
use mathlib.Core.Path.{subst}
use slash.Prelude.{
  ℕ, suc, ◌≡◌, refl, ◌≤◌, ap, List, [], ◌∷◌, none, some, length, arith, Bool, true, false, inl, inr,
}
use slash.Prelude.{Option}
use slash.Errors.{Rc, done, fail, einval}
use slash.Inode.{
  Inoh, InoxRead, Indices, push_index, after_lookup, LookupFlag, ios_lookup, lookup_each,
  insert_sorted, sort, has_dups, iosv_lookup,
}

length-insert_sorted : (x : ℕ) (ys : List ℕ) → length (insert_sorted x ys) ≡ suc (length ys)
unfolding insert_sorted
length-insert_sorted x [] = refl
length-insert_sorted x (y ∷ ys) = ground (arith, length-insert_sorted x ys)

length-sort : (xs : List ℕ) → length (sort xs) ≡ length xs
unfolding sort
length-sort [] = refl
length-sort (x ∷ xs) = omega (arith, length-insert_sorted x (sort xs), length-sort xs)

-- `last` is always the entry that it is compared with.
has_dups_two : (xs : List ℕ) → 2 ≤ length xs → has_dups none xs ≡ true
unfolding has_dups
has_dups_two [] h = absurd (omega arith)
has_dups_two (x ∷ []) h = absurd (omega arith)
has_dups_two (x ∷ (y ∷ ys)) h = ground arith

has_dups_one : (x : ℕ) → has_dups none (x ∷ []) ≡ false
unfolding has_dups
has_dups_one x = refl

-- As many indices as IDs.
abbrev HasLength : ℕ → Indices → Type 0
HasLength n none = Unit {0}
HasLength n (some (inl e, ih)) = Unit {0}
HasLength n (some (inr js, ih)) = length js ≡ n

push_index-HasLength : (n j : ℕ) (o : Indices) → HasLength n o → HasLength (suc n) (push_index j o)
push_index-HasLength n j none h = tt
push_index-HasLength n j (some (inl e, ih)) h = tt
push_index-HasLength n j (some (inr js, ih)) h = ap suc h

after_lookup-HasLength :
    (n : ℕ) (rest : Inoh → Indices) (o : Option (Rc × Inoh))
    → ((ih : Inoh) → HasLength n (rest ih))
    → HasLength (suc n) (after_lookup rest o)
after_lookup-HasLength n rest none h = tt
after_lookup-HasLength n rest (some (fail e, ih)) h = tt
after_lookup-HasLength n rest (some (done j, ih)) h = push_index-HasLength n j (rest ih) (h ih)

lookup_each-HasLength :
    (rd : InoxRead) (isfs : ℕ → Bool) (flags : LookupFlag) (iosv : List ℕ) (ih : Inoh)
    → HasLength (length iosv) (lookup_each rd isfs flags iosv ih)
unfolding lookup_each
lookup_each-HasLength rd isfs flags [] ih = refl
lookup_each-HasLength rd isfs flags (ios ∷ iosv) ih =
    after_lookup-HasLength (length iosv) _ (ios_lookup rd isfs ios flags ih)
      (lookup_each-HasLength rd isfs flags iosv)

length-lookup_each :
    (rd : InoxRead) (isfs : ℕ → Bool) (flags : LookupFlag) (iosv : List ℕ) (ih ih' : Inoh)
    (js : List ℕ)
    → lookup_each rd isfs flags iosv ih ≡ some (inr js, ih')
    → length js ≡ length iosv
length-lookup_each rd isfs flags iosv ih ih' js e =
    subst (HasLength (length iosv)) e (lookup_each-HasLength rd isfs flags iosv ih)

-- Whenever the lookups of two IDs or more all succeed, distinct or not, the call returns EINVAL; its
-- changes of the replica table stay made.
pub iosv_lookup_many :
    (rd : InoxRead) (isfs : ℕ → Bool) (flags : LookupFlag) (iosv : List ℕ) (ih ih' : Inoh)
    (js : List ℕ)
    → 2 ≤ length iosv
    → lookup_each rd isfs flags iosv ih ≡ some (inr js, ih')
    → iosv_lookup rd isfs flags iosv ih ≡ some (inl einval, ih')
unfolding iosv_lookup
iosv_lookup_many rd isfs flags iosv ih ih' js h e = ground (
  arith,
  has_dups_two (sort js)
      (omega (arith, length-sort js, length-lookup_each rd isfs flags iosv ih ih' js e)),
)
