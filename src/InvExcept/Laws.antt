-- ===== src/InvExcept/Laws.antt =====
-- `_mds_repl_inv_except` on a table: the replica with the new data becomes valid, no other stays so.
use slash.Prelude.{
  ℕ, ◌+◌, ◌%◌, ◌^◌, ◌≡◌, ◌∙◌, refl, ◌≤◌, ◌<◌, List, [], ◌∷◌, Option, some, Bool, true, false, ◌==◌,
  if◌then◌else◌, arith, not, ◌&&◌, ◌||◌, ltb, zero, suc, Bool-cases, inl, inr, ◌++◌,
}
use slash.Prelude.Below.{some_below, some_below-cong}
use slash.BmapMds.{Bmap}
use slash.Residency.{visited, upto, others, iosidx_in, retif, Retif, bmap_walk}
use slash.Residency.Apply.{slot, CanModify, moved, IsTract}
use slash.Residency.Walk.{last_of, Distinct}
use slash.Residency.Visited.{chosen}
use slash.ReplTable.Slots.{IsTable}
use slash.Residency.Spec.{walk_lem}
use slash.InvExcept.{
  active_tract, active_retif, stale_tract, stale_retif, inv_requeue, bhgen_increment, inv_walks,
}

active_tract-IsTract : IsTract active_tract
active_tract-IsTract v w e = ground arith

stale_tract-IsTract : (p : ℕ) → IsTract (stale_tract p)
stale_tract-IsTract p v w e = ground arith

-- The state of the replica that has the new data, from what it held.
abbrev pub active_state : ℕ → ℕ
active_state v = if v == 0 || v == 6 then 3 else v

-- The state of another replica, by the policy.
abbrev pub stale_state : ℕ → ℕ → ℕ
stale_state p v = if v == 3 then (if p == 1 then 2 else 6) else if v == 1 then 2 else v

pub moved-active : (v : ℕ) → moved active_tract v ≡ active_state v
unfolding moved
moved-active v = ground arith

pub moved-stale : (p v : ℕ) → moved (stale_tract p) v ≡ stale_state p v
unfolding moved
moved-stale p v = ground arith

-- What each slot holds afterwards.
abbrev pub inv_slot : ℕ → ℕ → ℕ → ℕ → ℕ → ℕ
inv_slot nr p i j v = if i == j then active_state v else if ltb j nr then stale_state p v else v

-- A replica other than the `i`-th is valid.
abbrev pub other_valid : ℕ → ℕ → List ℕ → Bool
other_valid nr i repls = some_below (λ j. not (j == i) && slot repls j == 3) nr

pub last_of-snoc :
    (rs : Option Retif) (f : ℕ → ℕ) (ks : List ℕ) (k rc : ℕ)
    → last_of rs f (ks ++ (k ∷ [])) rc
      ≡ (if retif rs (f k) == 0 then last_of rs f ks rc else retif rs (f k))
unfolding last_of
last_of-snoc rs f [] k rc = refl
last_of-snoc rs f (x ∷ ks) k rc = last_of-snoc rs f ks k _

others-snoc :
    (is ks : List ℕ) (k : ℕ)
    → others is (ks ++ (k ∷ []))
      ≡ (if iosidx_in k is then others is ks else others is ks ++ (k ∷ []))
unfolding others
others-snoc is [] k = ground arith
others-snoc is (x ∷ ks) k = elim (Bool-cases (iosidx_in x is)) [
  | inl e ↦ rw e (others-snoc is ks k)
  | inr e ↦ rw e (ground (arith, others-snoc is ks k))
]

-- The second walk returns 1 if there was another valid replica, and 0 otherwise.
last_of-stale :
    (f : ℕ → ℕ) (i n : ℕ)
    → last_of (some stale_retif) f (others (i ∷ []) (upto n)) 0
      ≡ (if some_below (λ j. not (j == i) && f j == 3) n then 1 else 0)
unfolding last_of some_below upto retif iosidx_in others
last_of-stale f i zero = refl
last_of-stale f i (suc n) = ground (
  arith,
  others-snoc (i ∷ []) (upto n) n,
  last_of-snoc (some stale_retif) f (others (i ∷ []) (upto n)) n 0,
  last_of-stale f i n,
)

-- The walk over the one replica that has the new data.
last_of-active :
    (f : ℕ → ℕ) (i : ℕ) → last_of (some active_retif) f (i ∷ []) 0 ≡ (if f i == 3 then 0 else f i)
unfolding last_of retif
last_of-active f i = ground arith

bumped-CanModify :
    (t : Bool) (b : Bmap) → CanModify b → CanModify (if t then bhgen_increment b else b)
bumped-CanModify true b c = record { clean = c.clean; held = c.held }
bumped-CanModify false b c = c

-- What the two walks come to.
abbrev pub Invalidates : ℕ → ℕ → Bmap → Type 0
Invalidates nr i b =
    (b' : Bmap) × (inv_walks nr b i ≡ some (b', if slot b.repls i == 3 then 0 else slot b.repls i))
    × IsTable b'.repls
    × CanModify b'
    × ((j : ℕ) → slot b'.repls j ≡ inv_slot nr b.replpol i j (slot b.repls j))
    × ((b'.bgen ≡ (if other_valid nr i b.repls then (b.bgen + 1) % 2 ^ 32 else b.bgen))
        × (b'.wrlock ≡ true))

-- Both walks succeed if the bmap may be changed: the return code is 0 or the weird state of the
-- replica with the new data, which is changed from INVALID or GARBAGE to VALID; every other replica of
-- the file that was VALID is queued again under the persistent policy and is GARBAGE otherwise, one
-- that was scheduled is queued again, and nothing else changes. The generation of the bmap grows
-- exactly if another replica was valid. The write lock is held afterwards.
pub inv_walks_lem :
    (nr i : ℕ) (b : Bmap) → nr ≤ 64 → i < nr → CanModify b → IsTable b.repls → Invalidates nr i b
unfolding inv_walks bmap_walk iosidx_in chosen visited
inv_walks_lem nr i b hn hi c h =
    let (b1, e1, h1, c1, f1, w1, s1) =
      walk_lem nr b active_tract (some active_retif) false (i ∷ []) (λ k v s. s) (tt {0}) hn
        active_tract-IsTract c h (hi, tt) one in
    let (b2, e2, h2, c2, f2, w2, s2) =
      walk_lem nr b1 (stale_tract b1.replpol) (some stale_retif) true (i ∷ []) inv_requeue [] hn
        (stale_tract-IsTract b1.replpol) c1 h1 (hi, tt) one in
    let first : bmap_walk nr b (some active_tract) (some active_retif) false (i ∷ [])
        ≡ some (b1, if slot b.repls i == 3 then 0 else slot b.repls i) =
      rw e1 (ground (arith, last_of-active (slot b.repls) i)) in
    let rc2 : last_of (some stale_retif) (slot b1.repls) (visited nr true (i ∷ [])) 0
        ≡ (if other_valid nr i b.repls then 1 else 0) =
      last_of-stale (slot b1.repls) i nr
      ∙ rw (
          some_below-cong (λ j. not (j == i) && slot b1.repls j == 3)
            (λ j. not (j == i) && slot b.repls j == 3) nr (λ j. ground (arith, s1 j))) in
    let gen : b2.bgen ≡ b.bgen = f2.gen ∙ f1.gen in
    let out : Bmap = if other_valid nr i b.repls then bhgen_increment b2 else b2 in
    (
      out,
      ground (arith, first, e2, rc2),
      ground (arith, h2),
      bumped-CanModify (other_valid nr i b.repls) b2 c2,
      λ j. ground (
        arith,
        s1 j,
        s2 j,
        f1.policy,
        moved-active (slot b.repls j),
        moved-stale b1.replpol (slot b1.repls j),
      ),
      (ground (arith, gen), ground (arith, w2 i, w1 i)),
    )
  where
    one : Distinct (i ∷ [])
    one = (refl, tt)

some_below-none : (p : ℕ → Bool) (n : ℕ) → ((j : ℕ) → j < n → p j ≡ false) → some_below p n ≡ false
unfolding some_below
some_below-none p zero h = refl
some_below-none p (suc n) h =
    ground (arith, h n (omega arith), some_below-none p n (λ j l. h j (omega (arith, l))))

-- New data at a replica that is QUEUED, as it is after its server was dropped and asked for again,
-- leaves it QUEUED and the bmap without a valid replica.
pub inv_walks-lost :
    (nr i : ℕ) (b : Bmap)
    → nr ≤ 64
    → i < nr
    → CanModify b
    → IsTable b.repls
    → slot b.repls i ≡ 2
    → (b' : Bmap) × (inv_walks nr b i ≡ some (b', 2))
      × (slot b'.repls i ≡ 2)
      × (some_below (λ j. slot b'.repls j == 3) nr ≡ false)
inv_walks-lost nr i b hn hi c h q =
    let (b', e, h', c', s, g) = inv_walks_lem nr i b hn hi c h in
    (
      b',
      ground (arith, e, q),
      ground (arith, s i, q),
      some_below-none (λ j. slot b'.repls j == 3) nr
          (λ j l. elim (Bool-cases (i == j)) [
            | inl y ↦
                let same : i ≡ j = ground arith in
                let q' : slot b.repls j ≡ 2 = rw (← same) q in ground (arith, s j, q', y)
            | inr y ↦ ground (arith, s j, y)
          ]),
    )
