-- ===== src/Leases/Sums.antt =====
-- Sums over the chains of leases, and what a change of one chain does to them.
use slash.Prelude.{
  ℕ, ◌+◌, ◌≡◌, refl, List, [], ◌∷◌, ◌++◌, Bool, true, false, ◌==◌, if◌then◌else◌, arith, Bool-cases,
  inl, inr,
}
use slash.Lease.{Client, Lease}
use slash.Leases.{
  is_chain_of, update_chain, count_reads, count_writes, chains_of, drop_chain, unchain, in_chain,
}

unfoldable pub sum_of : (List Lease → ℕ) → List (List Lease) → ℕ
sum_of g [] = 0
sum_of g (ch ∷ chs) = g ch + sum_of g chs

pub sum_of-append :
    (g : List Lease → ℕ) (xs ys : List (List Lease))
    → sum_of g (xs ++ ys) ≡ sum_of g xs + sum_of g ys
unfolding sum_of
sum_of-append g [] ys = omega arith
sum_of-append g (x ∷ xs) ys = omega (arith, sum_of-append g xs ys)

update_chain-absent :
    (c : Client) (f : List Lease → List Lease) (chs : List (List Lease))
    → chains_of c chs ≡ []
    → update_chain c f chs ≡ chs
unfolding chains_of update_chain
update_chain-absent c f [] e = refl
update_chain-absent c f (ch ∷ chs) e = ground (arith, update_chain-absent c f chs)

-- A change of the only chain of a client changes a sum by the chain's part.
pub sum_of-update :
    (g : List Lease → ℕ) (c : Client) (f : List Lease → List Lease) (ch : List Lease)
    (chs : List (List Lease))
    → chains_of c chs ≡ ch ∷ []
    → sum_of g (update_chain c f chs) + g ch ≡ sum_of g chs + g (f ch)
unfolding chains_of update_chain sum_of
sum_of-update g c f ch [] e = cc
sum_of-update g c f ch (x ∷ chs) e = elim (Bool-cases (is_chain_of c x)) [
  | inl t ↦ ground (arith, update_chain-absent c f chs)
  | inr n ↦ ground (arith, sum_of-update g c f ch chs)
]

pub sum_of-drop :
    (g : List Lease → ℕ) (c : Client) (ch : List Lease) (chs : List (List Lease))
    → chains_of c chs ≡ ch ∷ []
    → sum_of g (drop_chain c chs) + g ch ≡ sum_of g chs
unfolding chains_of drop_chain sum_of
sum_of-drop g c ch [] e = cc
sum_of-drop g c ch (x ∷ chs) e = elim (Bool-cases (is_chain_of c x)) [
  | inl t ↦ ground arith
  | inr n ↦ ground (arith, sum_of-drop g c ch chs)
]

-- The chains of a client are not empty.
pub chains_of-head :
    (c : Client) (ch : List Lease) (chs rest : List (List Lease))
    → chains_of c chs ≡ ch ∷ rest
    → is_chain_of c ch ≡ true
unfolding chains_of
chains_of-head c ch [] rest e = cc
chains_of-head c ch (x ∷ chs) rest e = elim (Bool-cases (is_chain_of c x)) [
  | inl t ↦ ground arith
  | inr n ↦ ground (arith, chains_of-head c ch chs rest)
]

-- The counts along a chain.
pub count_reads-snoc :
    (ch : List Lease) (l : Lease)
    → count_reads (ch ++ (l ∷ [])) ≡ (if l.read then count_reads ch + 1 else count_reads ch)
unfolding count_reads
count_reads-snoc [] l = ground arith
count_reads-snoc (x ∷ ch) l = ground (arith, count_reads-snoc ch l)

pub count_writes-snoc :
    (ch : List Lease) (l : Lease)
    → count_writes (ch ++ (l ∷ [])) ≡ (if l.read then count_writes ch else count_writes ch + 1)
unfolding count_writes
count_writes-snoc [] l = ground arith
count_writes-snoc (x ∷ ch) l = ground (arith, count_writes-snoc ch l)

-- The mode of the lease at an address in a chain.
unfoldable pub read_at : ℕ → List Lease → Bool
read_at p [] = false
read_at p (x ∷ xs) = if x.ptr == p then x.read else read_at p xs

pub count_reads-unchain :
    (p : ℕ) (ch : List Lease)
    → in_chain p ch ≡ true
    → count_reads ch
      ≡ (if read_at p ch then count_reads (unchain p ch) + 1 else count_reads (unchain p ch))
unfolding count_reads unchain in_chain read_at
count_reads-unchain p [] h = cc
count_reads-unchain p (x ∷ ch) h = ground (arith, count_reads-unchain p ch)

pub count_writes-unchain :
    (p : ℕ) (ch : List Lease)
    → in_chain p ch ≡ true
    → count_writes ch
      ≡ (if read_at p ch then count_writes (unchain p ch) else count_writes (unchain p ch) + 1)
unfolding count_writes unchain in_chain read_at
count_writes-unchain p [] h = cc
count_writes-unchain p (x ∷ ch) h = ground (arith, count_writes-unchain p ch)
