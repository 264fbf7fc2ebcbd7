-- ===== src/Request/AllBmaps.antt =====
-- `mds_repl_delrq` on all bmaps of a file.
use slash.Prelude.{
  ℕ, zero, suc, ◌+◌, ◌≡◌, refl, ◌<◌, ◌≤◌, ◌∙◌, List, ◌∷◌, Option, none, some, Bool, true, false,
  not, ◌&&◌, ◌==◌, if◌then◌else◌, arith, Bool-cases, Option-cases, inl, inr, ltb, ap,
}
use slash.Prelude.Below.{some_below-at, some_below-cong}
use slash.BmapMds.{Bmap}
use slash.BmapWrite.{WriteOutcome, bmap_write, repl_bmap_rel}
use slash.BmapWrite.Laws.{write_result, bmap_write_lem}
use slash.Errors.{Rc, done, fail, slerr_repl_not_act}
use slash.ReplTable.Slots.{IsTable}
use slash.Residency.{arr_set, iosidx_in, visited, bmap_walk}
use slash.Residency.Apply.{slot, CanModify}
use slash.Residency.Walk.{AllLt, Distinct, last_of}
use slash.Residency.Visited.{chosen}
use slash.Residency.Spec.{walk_lem}
use slash.Request.{Site, del_tract, del_retif_all, count_valid, del_each, del_all}
use slash.Request.LastReplica.{
  survivor, has_valid, del_slot, some_below-found, del_tract-IsTract, moved-del, count_valid_lem,
  repls-rel, repls-write_result, iosidx_in-head,
}

-- What the loop body makes of a bmap: it does not fail, and the slots are as after a request for the
-- one bmap.
abbrev pub DropsEach : ℕ → WriteOutcome → List ℕ → Bmap → Type 0
DropsEach nr out idx b =
    (b' : Bmap) × (changed : Bool) × (last : Bool) × (del_each nr out idx b
      ≡ some (b', changed, last))
    × ((j : ℕ) → slot b'.repls j ≡ del_slot (survivor idx (slot b.repls) nr) idx j (slot b.repls j))
    × (last ≡ not (survivor idx (slot b.repls) nr))

del_each_go :
    (nr : ℕ) (out : WriteOutcome) (i : ℕ) (is : List ℕ) (b b1 : Bmap) (n j : ℕ)
    → nr ≤ 64
    → CanModify b1
    → IsTable b1.repls
    → AllLt nr (i ∷ is)
    → Distinct (i ∷ is)
    → count_valid nr (i ∷ is) b ≡ some (b1, n)
    → (n == 0) ≡ false
    → survivor (i ∷ is) (slot b.repls) nr ≡ true
    → ((k : ℕ) → slot b1.repls k ≡ slot b.repls k)
    → j < nr
    → slot b.repls j ≡ 3
    → iosidx_in j (i ∷ is) ≡ false
    → DropsEach nr out (i ∷ is) b
unfolding del_each bmap_walk chosen visited
del_each_go nr out i is b b1 n j hn c1 h1 lt d e n0 sv s1 hj vj nj =
    let (b2, e2, h2, c2, f2, w2, s2) =
      walk_lem nr b1 del_tract (some del_retif_all) false (i ∷ is) (λ k v s. s) (tt {0}) hn
        del_tract-IsTract c1 h1 lt d in
    let v : ℕ = last_of (some del_retif_all) (slot b1.repls) (i ∷ is) 0 in
    let walked : bmap_walk nr b1 (some del_tract) (some del_retif_all) false (i ∷ is)
        ≡ some (b2, v) =
      rw e2 refl in
    let lock : b2.wrlock ≡ true = ground (arith, w2 i, iosidx_in-head i is) in
    let wrote : bmap_write nr true out b2 ≡ some (write_result true out b2, out.rc) =
      bmap_write_lem nr j true out b2 h2 lock (c2.held lock).0 (c2.held lock).1 hj
        (ground (arith, s2 j, s1 j)) in
    elim (Bool-cases (v == 0)) [
      | inl quiet ↦ (
        repl_bmap_rel b2,
        false,
        false,
        ground arith,
        λ k. rw (repls-rel b2) (ground (arith, s2 k, s1 k, moved-del (slot b1.repls k))),
        ground arith,
      )
      | inr log ↦ (
        repl_bmap_rel (write_result true out b2),
        true,
        false,
        ground (arith, wrote),
        λ k.
            rw (repls-rel (write_result true out b2), repls-write_result out b2)
              (ground (arith, s2 k, s1 k, moved-del (slot b1.repls k))),
        ground arith,
      )
    ]

del_each_lem :
    (nr : ℕ) (out : WriteOutcome) (i : ℕ) (is : List ℕ) (b : Bmap)
    → nr ≤ 64
    → CanModify b
    → IsTable b.repls
    → AllLt nr (i ∷ is)
    → Distinct (i ∷ is)
    → DropsEach nr out (i ∷ is) b
unfolding del_each
del_each_lem nr out i is b hn c h lt d =
    let (b1, n, e1, z1, h1, c1, s1) = count_valid_lem nr (i ∷ is) b hn c h in
    elim (Bool-cases (survivor (i ∷ is) (slot b.repls) nr)) [
      | inl sv ↦
          let (j, hj, q) =
            some_below-found (λ j. slot b.repls j == 3 && not (iosidx_in j (i ∷ is))) nr sv in
          del_each_go nr out i is b b1 n j hn c1 h1 lt d e1 (ground arith) sv s1 hj (ground arith)
            (ground arith)
      | inr nv ↦ (
        repl_bmap_rel b1,
        false,
        true,
        ground arith,
        λ j. rw (repls-rel b1) (ground (arith, s1 j)),
        ground arith,
      )
    ]

-- Such slots keep a valid replica.
del_slot-has_valid :
    (idx : List ℕ) (f g : ℕ → ℕ) (nr : ℕ)
    → ((j : ℕ) → g j ≡ del_slot (survivor idx f nr) idx j (f j))
    → has_valid f nr ≡ true
    → has_valid g nr ≡ true
del_slot-has_valid idx f g nr s v = elim (Bool-cases (survivor idx f nr)) [
  | inl sv ↦
      let (j, hj, q) = some_below-found (λ j. f j == 3 && not (iosidx_in j idx)) nr sv in
      some_below-at (λ j. g j == 3) nr j hj (ground (arith, s j))
  | inr nv ↦ some_below-cong (λ j. g j == 3) (λ j. f j == 3) nr (λ j. ground (arith, s j)) ∙ v
]

-- Whether the loop over the first `n` bmaps works on a bmap.
abbrev got : Option ℕ → Bool
got none = true
got (some err) = false

abbrev pub worked_on : Site → ℕ → ℕ → Bool
worked_on e n m = ltb m n && got (e.bmap_get m)

-- What that loop comes to.
abbrev pub DropsAll : Site → ℕ → List ℕ → ℕ → (ℕ → Bmap) → Type 0
DropsAll e nr idx n bmaps =
    (bs : ℕ → Bmap) × (rc : Rc) × (invalid : ℕ) × (del_all e nr idx n bmaps
      ≡ some (bs, rc, invalid))
    × ((m j : ℕ)
        → slot (bs m).repls j
          ≡ del_slot (worked_on e n m && survivor idx (slot (bmaps m).repls) nr) idx j
              (slot (bmaps m).repls j))

module _ (e : Site) (nr i : ℕ) (is : List ℕ) (bmaps : ℕ → Bmap) (hn : nr ≤ 64)
    (lt : AllLt nr (i ∷ is)) (d : Distinct (i ∷ is)) (c : (m : ℕ) → CanModify (bmaps m))
    (h : (m : ℕ) → IsTable (bmaps m).repls) where
  Goes : ℕ → Type 0
  Goes n = (r : DropsAll e nr (i ∷ is) n bmaps) × ((m : ℕ) → n ≤ m → r.0 m ≡ bmaps m)

  del_all-step : (n : ℕ) → Goes n → Goes (suc n)
  unfolding del_all Goes
  del_all-step n ((bs, rc, invalid, q, s), rest) = elim (Option-cases (e.bmap_get n)) [
    | inr (err, g) ↦ (
      (
        bs,
        rc,
        invalid,
        ground arith,
        λ m j. elim (Bool-cases (m == n)) [
          | inl t ↦ let same : m ≡ n = ground arith in rw same (ground (arith, s n j, g))
          | inr f ↦ ground (arith, s m j)
        ],
      ),
      λ m l. rest m (omega arith),
    )
    | inl g ↦
        let (b', changed, last, q', s', l') =
          del_each_lem nr e.out i is (bmaps n) hn (c n) (h n) lt d in
        let old : bs n ≡ bmaps n = rest n (omega arith) in
        (
          (
            arr_set bs n b',
            if changed then done 0 else rc,
            if last then invalid + 1 else invalid,
            ground (arith, ap (del_each nr e.out (i ∷ is)) old),
            λ m j. elim (Bool-cases (m == n)) [
              | inl t ↦ let same : m ≡ n = ground arith in rw same (ground (arith, s' j, g))
              | inr f ↦ ground (arith, s m j)
            ],
          ),
          λ m l. ground (arith, rest m (omega arith)),
        )
  ]

  del_all-Goes : (n : ℕ) → Goes n
  unfolding del_all Goes
  del_all-Goes zero = ((bmaps, fail slerr_repl_not_act, 0, refl, λ m j. ground arith), λ m l. refl)
  del_all-Goes (suc n) = del_all-step n (del_all-Goes n)

  -- The loop over all bmaps of a file, none of which is being changed, does not fail. In each bmap that
  -- can be had and has a valid replica that is not named, the named replicas that are valid, queued or
  -- scheduled become GARBAGE; nothing else changes in any table.
  pub del_all_lem : (n : ℕ) → DropsAll e nr (i ∷ is) n bmaps
  unfolding Goes
  del_all_lem n = (del_all-Goes n).0

  -- After the loop every bmap that had a valid replica has one.
  pub del_all-has_valid :
      (n : ℕ) (bs : ℕ → Bmap) (rc : Rc) (invalid m : ℕ)
      → del_all e nr (i ∷ is) n bmaps ≡ some (bs, rc, invalid)
      → has_valid (slot (bmaps m).repls) nr ≡ true
      → has_valid (slot (bs m).repls) nr ≡ true
  del_all-has_valid n bs rc invalid m q v =
      let (bs', rc', invalid', q', s') = del_all_lem n in
      let same : bs' ≡ bs = ground (arith, q, q') in
      elim (Bool-cases (worked_on e n m)) [
        | inl w ↦
            del_slot-has_valid (i ∷ is) (slot (bmaps m).repls) (slot (bs m).repls) nr
              (λ j. rw (← same) (ground (arith, s' m j, w))) v
        | inr w ↦
            some_below-cong (λ j. slot (bs m).repls j == 3) (λ j. slot (bmaps m).repls j == 3) nr
              (λ j. rw (← same) (ground (arith, s' m j, w)))
            ∙ v
      ]
