-- ===== src/Request/LastReplica.antt =====
-- `mds_repl_delrq` never drops the last valid replica of a bmap.
use slash.Prelude.{
  ℕ, zero, suc, ◌≡◌, refl, ◌<◌, ◌≤◌, ◌∙◌, List, [], ◌∷◌, ◌++◌, Option, none, some, Bool, true,
  false, not, ◌&&◌, ◌||◌, ◌==◌, if◌then◌else◌, arith, Bool-cases, inl, inr,
}
use slash.Prelude.Below.{some_below, some_below-at, some_below-cong}
use slash.BmapMds.{Bmap}
use slash.BmapWrite.{WriteOutcome, bmap_write, repl_bmap_rel}
use slash.BmapWrite.Laws.{write_result, bmap_write_lem}
use slash.Errors.{Rc, done, fail, einval, slerr_repl_not_act, slerr_lastrepl}
use slash.ReplTable.Slots.{IsTable}
use slash.Residency.{Retif, upto, iosidx_in, visited, bmap_walk}
use slash.Residency.Apply.{slot, CanModify, moved, IsTract}
use slash.Residency.Walk.{AllLt, Distinct, last_of, cb_all}
use slash.Residency.Visited.{chosen}
use slash.Residency.Spec.{walk_lem}
use slash.Request.{
  countvalid_cb, empty_tract, count_valid, del_tract, del_retif, has_log, has_report, del_one,
}

-- A valid replica that the request does not name, and any valid replica.
abbrev pub survivor : List ℕ → (ℕ → ℕ) → ℕ → Bool
survivor idx f nr = some_below (λ j. f j == 3 && not (iosidx_in j idx)) nr

abbrev pub has_valid : (ℕ → ℕ) → ℕ → Bool
has_valid f nr = some_below (λ j. f j == 3) nr

pub some_below-found :
    (p : ℕ → Bool) (n : ℕ) → some_below p n ≡ true → (j : ℕ) × (j < n) × (p j ≡ true)
unfolding some_below
some_below-found p zero h = cc
some_below-found p (suc n) h = elim (Bool-cases (p n)) [
  | inl e ↦ (n, omega arith, e)
  | inr e ↦ let (j, lt, q) = some_below-found p n (ground arith) in (j, omega arith, q)
]

cb_all-snoc :
    {S : Type 0} (cbf : ℕ → ℕ → S → S) (f : ℕ → ℕ) (ks : List ℕ) (k : ℕ) (arg : S)
    → cb_all cbf f (ks ++ (k ∷ [])) arg ≡ cbf k (f k) (cb_all cbf f ks arg)
unfolding cb_all
cb_all-snoc cbf f [] k arg = refl
cb_all-snoc cbf f (x ∷ ks) k arg = cb_all-snoc cbf f ks k (cbf x (f x) arg)

-- The count is 0 exactly if there is no such replica.
cb_all-countvalid :
    (idx : List ℕ) (f : ℕ → ℕ) (n : ℕ)
    → (cb_all (countvalid_cb idx) f (upto n) 0 == 0) ≡ not (survivor idx f n)
unfolding upto some_below cb_all countvalid_cb
cb_all-countvalid idx f zero = refl
cb_all-countvalid idx f (suc n) =
    ground (arith, cb_all-snoc (countvalid_cb idx) f (upto n) n 0, cb_all-countvalid idx f n)

empty_tract-IsTract : IsTract empty_tract
empty_tract-IsTract v w e = ground arith

pub del_tract-IsTract : IsTract del_tract
del_tract-IsTract v w e = ground arith

-- What becomes of a replica that is named.
abbrev pub del_state : ℕ → ℕ
del_state v = if v == 1 || v == 2 || v == 3 then 6 else v

pub moved-empty : (v : ℕ) → moved empty_tract v ≡ v
unfolding moved
moved-empty v = ground arith

pub moved-del : (v : ℕ) → moved del_tract v ≡ del_state v
unfolding moved
moved-del v = ground arith

-- The counting walk finds the count, and leaves the slots.
pub count_valid_lem :
    (nr : ℕ) (idx : List ℕ) (b : Bmap)
    → nr ≤ 64
    → CanModify b
    → IsTable b.repls
    → (b' : Bmap) × (n : ℕ) × (count_valid nr idx b ≡ some (b', n))
      × ((n == 0) ≡ not (survivor idx (slot b.repls) nr))
      × IsTable b'.repls
      × CanModify b'
      × ((j : ℕ) → slot b'.repls j ≡ slot b.repls j)
unfolding count_valid chosen visited
count_valid_lem nr idx b hn c h =
    let (b1, e1, h1, c1, f1, w1, s1) =
      walk_lem nr b empty_tract none false [] (countvalid_cb idx) 0 hn empty_tract-IsTract c h tt
        tt in
    (
      b1,
      _,
      rw e1 refl,
      cb_all-countvalid idx (slot b.repls) nr,
      h1,
      c1,
      λ j. ground (arith, s1 j, moved-empty (slot b.repls j)),
    )

pub repls-rel : (b : Bmap) → (repl_bmap_rel b).repls ≡ b.repls
unfolding repl_bmap_rel
repls-rel b = ground arith

pub repls-write_result : (out : WriteOutcome) (b : Bmap) → (write_result true out b).repls ≡ b.repls
repls-write_result out b = ground arith

-- The slots afterwards, and the return code by the value of the walk.
abbrev pub del_slot : Bool → List ℕ → ℕ → ℕ → ℕ
del_slot go idx j v = if go && iosidx_in j idx then del_state v else v

abbrev pub del_rc : ℕ → Rc
del_rc v =
    if has_log v then done 0 else if has_report v then fail einval else fail slerr_repl_not_act

-- What a request to drop replicas comes to, for a bmap with at least one other valid replica.
abbrev pub Drops : ℕ → WriteOutcome → List ℕ → Bmap → Type 0
Drops nr out idx b =
    (b' : Bmap) × (rc : Rc) × (del_one nr out idx b ≡ some (b', rc))
    × IsTable b'.repls
    × ((j : ℕ) → slot b'.repls j ≡ del_slot (survivor idx (slot b.repls) nr) idx j (slot b.repls j))
    × (rc ≡ (
        if survivor idx (slot b.repls) nr
        then del_rc (last_of (some del_retif) (slot b.repls) idx 0)
        else fail slerr_lastrepl))

pub last_of-same :
    (rs : Option Retif) (f g : ℕ → ℕ) (ks : List ℕ) (rc : ℕ)
    → ((j : ℕ) → f j ≡ g j)
    → last_of rs f ks rc ≡ last_of rs g ks rc
unfolding last_of
last_of-same rs f g [] rc h = refl
last_of-same rs f g (k ∷ ks) rc h = rw (h k) (last_of-same rs f g ks _ h)

pub iosidx_in-head : (i : ℕ) (is : List ℕ) → iosidx_in i (i ∷ is) ≡ true
unfolding iosidx_in
iosidx_in-head i is = ground arith

-- The second walk and the write, once there is such a replica.
del_one_go :
    (nr : ℕ) (out : WriteOutcome) (i : ℕ) (is : List ℕ) (b b1 : Bmap) (n j : ℕ)
    → nr ≤ 64
    → CanModify b1
    → IsTable b1.repls
    → AllLt nr (i ∷ is)
    → Distinct (i ∷ is)
    → count_valid nr (i ∷ is) b ≡ some (b1, n)
    → (n == 0) ≡ false
    → survivor (i ∷ is) (slot b.repls) nr ≡ true
    → ((k : ℕ) → slot b1.repls k ≡ slot b.repls k)
    → j < nr
    → slot b.repls j ≡ 3
    → iosidx_in j (i ∷ is) ≡ false
    → Drops nr out (i ∷ is) b
unfolding del_one bmap_walk chosen visited
del_one_go nr out i is b b1 n j hn c1 h1 lt d e n0 sv s1 hj vj nj =
    let (b2, e2, h2, c2, f2, w2, s2) =
      walk_lem nr b1 del_tract (some del_retif) false (i ∷ is) (λ k v s. s) (tt {0}) hn
        del_tract-IsTract c1 h1 lt d in
    let v : ℕ = last_of (some del_retif) (slot b.repls) (i ∷ is) 0 in
    let same : last_of (some del_retif) (slot b1.repls) (i ∷ is) 0 ≡ v =
      last_of-same (some del_retif) (slot b1.repls) (slot b.repls) (i ∷ is) 0 s1 in
    let walked : bmap_walk nr b1 (some del_tract) (some del_retif) false (i ∷ is) ≡ some (b2, v) =
      rw e2 (ground (arith, same)) in
    let lock : b2.wrlock ≡ true = ground (arith, w2 i, iosidx_in-head i is) in
    let wrote : bmap_write nr true out b2 ≡ some (write_result true out b2, out.rc) =
      bmap_write_lem nr j true out b2 h2 lock (c2.held lock).0 (c2.held lock).1 hj
        (ground (arith, s2 j, s1 j)) in
    elim (Bool-cases (has_log v)) [
      | inl log ↦ (
        repl_bmap_rel (write_result true out b2),
        del_rc v,
        ground (arith, wrote),
        rw (repls-rel (write_result true out b2), repls-write_result out b2) h2,
        λ k.
            rw (repls-rel (write_result true out b2), repls-write_result out b2)
              (ground (arith, s2 k, s1 k, moved-del (slot b1.repls k))),
        ground arith,
      )
      | inr nolog ↦ (
        repl_bmap_rel b2,
        del_rc v,
        ground arith,
        rw (repls-rel b2) h2,
        λ k. rw (repls-rel b2) (ground (arith, s2 k, s1 k, moved-del (slot b1.repls k))),
        ground arith,
      )
    ]

some_below-none : (p : ℕ → Bool) (n j : ℕ) → some_below p n ≡ false → j < n → p j ≡ false
some_below-none p n j h lt = elim (Bool-cases (p j)) [
  | inl e ↦ ground (arith, some_below-at p n j lt e)
  | inr e ↦ e
]

-- A request to drop the replicas with the given distinct indices from one bmap always comes to an
-- end. If another replica is valid, each named replica that is valid, queued or scheduled becomes
-- GARBAGE, and the return code follows from the last named replica whose state has a value; if none
-- is, nothing changes and the code is LASTREPL. Replicas that are not named keep their states.
pub del_one_lem :
    (nr : ℕ) (out : WriteOutcome) (i : ℕ) (is : List ℕ) (b : Bmap)
    → nr ≤ 64
    → CanModify b
    → IsTable b.repls
    → AllLt nr (i ∷ is)
    → Distinct (i ∷ is)
    → Drops nr out (i ∷ is) b
unfolding del_one
del_one_lem nr out i is b hn c h lt d =
    let (b1, n, e1, z1, h1, c1, s1) = count_valid_lem nr (i ∷ is) b hn c h in
    elim (Bool-cases (survivor (i ∷ is) (slot b.repls) nr)) [
      | inl sv ↦
          let (j, hj, q) =
            some_below-found (λ j. slot b.repls j == 3 && not (iosidx_in j (i ∷ is))) nr sv in
          del_one_go nr out i is b b1 n j hn c1 h1 lt d e1 (ground arith) sv s1 hj (ground arith)
            (ground arith)
      | inr nv ↦ (
        repl_bmap_rel b1,
        fail slerr_lastrepl,
        ground arith,
        rw (repls-rel b1) h1,
        λ j. rw (repls-rel b1) (ground (arith, s1 j)),
        ground arith,
      )
    ]

-- A bmap that has a valid replica before such a request has one after it.
pub del_one-has_valid :
    (nr : ℕ) (out : WriteOutcome) (i : ℕ) (is : List ℕ) (b b' : Bmap) (rc : Rc)
    → nr ≤ 64
    → CanModify b
    → IsTable b.repls
    → AllLt nr (i ∷ is)
    → Distinct (i ∷ is)
    → has_valid (slot b.repls) nr ≡ true
    → del_one nr out (i ∷ is) b ≡ some (b', rc)
    → has_valid (slot b'.repls) nr ≡ true
del_one-has_valid nr out i is b b' rc hn c h lt d v e =
    let (b2, rc2, e2, h2, s2, r2) = del_one_lem nr out i is b hn c h lt d in
    let same : b' ≡ b2 = ground (arith, e, e2) in
    rw same (elim (Bool-cases (survivor (i ∷ is) (slot b.repls) nr)) [
      | inl sv ↦
          let (j, hj, q) =
            some_below-found (λ j. slot b.repls j == 3 && not (iosidx_in j (i ∷ is))) nr sv in
          some_below-at (λ j. slot b2.repls j == 3) nr j hj (ground (arith, s2 j))
      | inr nv ↦
          some_below-cong (λ j. slot b2.repls j == 3) (λ j. slot b.repls j == 3) nr
            (λ j. ground (arith, s2 j))
          ∙ v
    ])
