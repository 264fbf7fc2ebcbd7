-- ===== src/Residency/Query.antt =====
-- A walk that only looks: no table of changes, and a short circuit at the first value to return.
use slash.Prelude.{
  ℕ, ◌≡◌, refl, ◌∙◌, List, [], ◌∷◌, Option, none, some, true, ◌==◌, ◌≢◌, if◌then◌else◌, arith,
  Bool-cases, inl, inr,
}
use slash.BmapMds.{Bmap}
use slash.ReplTable.Slots.{IsTable}
use slash.Residency.{Retif, retif, walk_each, iosidx_in}
use slash.Residency.Apply.{slot, looked, apply-query}

-- The bmap after a look at some slots.
unfoldable pub glanced : List ℕ → Bmap → Bmap
glanced [] b = b
glanced (k ∷ ks) b = looked b

-- The value of the first visited state that has one.
unfoldable pub first_of : Option Retif → (ℕ → ℕ) → List ℕ → ℕ → ℕ
first_of rs f [] rc = rc
first_of rs f (k ∷ ks) rc = if retif rs (f k) == 0 then first_of rs f ks rc else retif rs (f k)

glanced-looked : (ks : List ℕ) (b : Bmap) → glanced ks (looked b) ≡ looked b
unfolding glanced
glanced-looked [] b = refl
glanced-looked (k ∷ ks) b = ground arith

repls-looked : (b : Bmap) → (looked b).repls ≡ b.repls
repls-looked b = ground arith

pub repls-glanced : (ks : List ℕ) (b : Bmap) → (glanced ks b).repls ≡ b.repls
unfolding glanced
repls-glanced [] b = refl
repls-glanced (k ∷ ks) b = repls-looked b

-- A walk that looks and has no callback.
abbrev pub look_each : List ℕ → Bmap → Option Retif → ℕ → Option (Bmap × ℕ × Unit {0})
look_each ks b rs rc = walk_each ks b none rs true (λ idx val s. s) rc tt

-- One visit of such a walk.
look_each-cons :
    (rs : Option Retif) (k : ℕ) (ks : List ℕ) (b : Bmap) (rc v : ℕ)
    → IsTable b.repls
    → retif rs (slot b.repls k) ≡ v
    → look_each (k ∷ ks) b rs rc
      ≡ (if v == 0 then look_each ks (looked b) rs rc else some (looked b, v, tt))
unfolding walk_each
look_each-cons rs k ks b rc v h e = elim (Bool-cases (v == 0)) [
  | inl z ↦ rw (apply-query (λ idx val s. s) tt rs b k h, walk_each, e, z) (rw (e, z) refl)
  | inr n ↦ rw (apply-query (λ idx val s. s) tt rs b k h, walk_each, e, n) (rw (e, n) refl)
]

pub look_each_lem :
    (rs : Option Retif) (repls ks : List ℕ) (b : Bmap) (rc : ℕ)
    → IsTable repls
    → b.repls ≡ repls
    → look_each ks b rs rc ≡ some (glanced ks b, first_of rs (slot repls) ks rc, tt)
unfolding first_of glanced walk_each
look_each_lem rs repls [] b rc h e = refl
look_each_lem rs repls (k ∷ ks) b rc h e = ground (
  arith,
  look_each-cons rs k ks b rc (retif rs (slot repls k)) (rw e h) (rw e refl),
  look_each_lem rs repls ks (looked b) rc h (repls-looked b ∙ e),
  glanced-looked ks b,
)

-- The value is 0 exactly if no visited state has one.
pub first_of-zero :
    (r : Retif) (f : ℕ → ℕ) (ks : List ℕ) (j : ℕ)
    → first_of (some r) f ks 0 ≡ 0
    → iosidx_in j ks ≡ true
    → r (f j) ≡ 0
unfolding first_of iosidx_in retif
first_of-zero r f [] j h m = cc
first_of-zero r f (k ∷ ks) j h m = ground (arith, first_of-zero r f ks j)

-- A value other than 0 is that of some visited state.
pub first_of-found :
    (r : Retif) (f : ℕ → ℕ) (ks : List ℕ)
    → first_of (some r) f ks 0 ≢ 0
    → (j : ℕ) × (iosidx_in j ks ≡ true) × (r (f j) ≡ first_of (some r) f ks 0)
unfolding first_of iosidx_in retif
first_of-found r f [] h = absurd (h refl)
first_of-found r f (k ∷ ks) h = elim (Bool-cases (r (f k) == 0)) [
  | inl z ↦ let (j, m, e) = first_of-found r f ks (ground arith) in (j, ground arith, ground arith)
  | inr nz ↦ (k, ground arith, ground arith)
]
