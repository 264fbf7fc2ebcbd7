-- ===== src/Residency/Spec.antt =====
-- What a whole walk does to the table, and what it returns.
use slash.Prelude.{
  ℕ, ◌≡◌, ◌≢◌, sym, refl, ◌≤◌, ◌⊎◌, inl, inr, List, Option, none, some, Bool, Bool-cases, true,
  false, not, ◌||◌, ◌==◌, if◌then◌else◌, arith, ◌∙◌,
}
use slash.BmapMds.{Bmap}
use slash.ReplTable.Slots.{IsTable}
use slash.Residency.{Tract, Retif, visited, walk, bmap_walk}
use slash.Residency.Apply.{slot, CanModify, moved, IsTract}
use slash.Residency.Walk.{
  AllLt, Distinct, last_of, cb_all, after, walk_each-change, slot-after, after-IsTable,
  after-CanModify, Frame, after-Frame, after-wrlock, after-wrlock_visited,
}
use slash.Residency.Visited.{chosen, iosidx_in-visited, visited-Distinct, visited-AllLt}
use slash.Residency.Query.{
  glanced, repls-glanced, first_of, look_each_lem, first_of-zero, first_of-found,
}

-- What a walk with changes comes to.
abbrev pub Walks :
    {S : Type 0} → ℕ → Bmap → Tract → Option Retif → Bool → List ℕ → (ℕ → ℕ → S → S) → S → Type 0
Walks nr b t rs modoth is cbf arg =
    (b' : Bmap) × (walk nr b (some t) rs false modoth is cbf arg
      ≡ some (
        b',
        last_of rs (slot b.repls) (visited nr modoth is) 0,
        cb_all cbf (slot b.repls) (visited nr modoth is) arg,
      ))
    × IsTable b'.repls
    × CanModify b'
    × Frame b b'
    × ((j : ℕ) → (not (chosen nr modoth is j || b.wrlock) || b'.wrlock) ≡ true)
    × ((j : ℕ)
        → slot b'.repls j
          ≡ (if chosen nr modoth is j then moved t (slot b.repls j) else slot b.repls j))

-- A walk with changes and no short circuit, over distinct replicas of the file, does not stop early
-- or fail. It changes the chosen slots, each from what it held before the walk, leaves all others,
-- and returns the value of the last visited state that has one. The write lock is held if it was, or if a
-- slot was chosen, and what else is kept of the bmap stays.
pub walk_lem :
    {S : Type 0} (nr : ℕ) (b : Bmap) (t : Tract) (rs : Option Retif) (modoth : Bool) (is : List ℕ)
    (cbf : ℕ → ℕ → S → S) (arg : S)
    → nr ≤ 64
    → IsTract t
    → CanModify b
    → IsTable b.repls
    → AllLt nr is
    → Distinct is
    → Walks nr b t rs modoth is cbf arg
unfolding walk
walk_lem nr b t rs modoth is cbf arg hn ht c h lt d =
    let ks = visited nr modoth is in
    let lt' = visited-AllLt nr modoth is hn lt in
    let d' = visited-Distinct nr modoth is d in
    (
      after t ks b,
      walk_each-change cbf rs t ks b 0 arg ht c h lt' d',
      after-IsTable t ks b h,
      after-CanModify t ks b c,
      after-Frame t ks b,
      λ j. ground (
        arith,
        after-wrlock_visited t ks b j,
        after-wrlock t ks b,
        iosidx_in-visited nr modoth is j,
      ),
      λ j. rw (← iosidx_in-visited nr modoth is j) (slot-after t ks b j ht h lt' d'),
    )

-- What a query comes to.
abbrev Queries : ℕ → Bmap → Retif → List ℕ → Type 0
Queries nr b r is =
    (b' : Bmap) × (v : ℕ) × (bmap_walk nr b none (some r) true is ≡ some (b', v))
    × (b'.repls ≡ b.repls)
    × (((v ≡ 0) × ((j : ℕ) → (if chosen nr false is j then r (slot b.repls j) else 0) ≡ 0))
        ⊎ ((v ≢ 0) × ((j : ℕ) × (chosen nr false is j ≡ true) × (r (slot b.repls j) ≡ v))))

-- A query of a table, which stops at the first replica with a value, does not fail and leaves the
-- table. It returns 0 if no visited replica has a value, and otherwise the value of a visited one.
bmap_walk-query :
    (nr : ℕ) (b : Bmap) (r : Retif) (is : List ℕ) → IsTable b.repls → Queries nr b r is
unfolding bmap_walk walk
bmap_walk-query nr b r is h =
    let ks = visited nr false is in
    let v : ℕ = first_of (some r) (slot b.repls) ks 0 in
    (
      glanced ks b,
      v,
      rw (look_each_lem (some r) b.repls ks b 0 h refl) refl,
      repls-glanced ks b,
      elim (Bool-cases (v == 0)) [
        | inl z ↦ inl (
          ground arith,
          λ j. ground (arith, first_of-zero r (slot b.repls) ks j, iosidx_in-visited nr false is j),
        )
        | inr nz ↦
            let (j, m, e) = first_of-found r (slot b.repls) ks (ground arith) in
            inr (ground arith, (j, sym (iosidx_in-visited nr false is j) ∙ m, e))
      ],
    )
