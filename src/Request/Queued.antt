-- ===== src/Request/Queued.antt =====
-- `mds_repl_addrq` on one bmap queues what is not valid, and loses no valid replica.
use slash.Prelude.{
  ℕ, ◌≡◌, refl, ◌<◌, ◌≤◌, List, [], ◌∷◌, none, some, Bool, true, false, not, ◌&&◌, ◌||◌, ◌==◌,
  if◌then◌else◌, arith, Bool-cases, inl, inr,
}
use slash.Prelude.Below.{some_below-at}
use slash.BmapMds.{Bmap}
use slash.BmapWrite.{bmap_write, repl_bmap_rel}
use slash.BmapWrite.Laws.{write_result, bmap_write_lem}
use slash.Errors.{Rc, done, fail, slerr_repl_not_act}
use slash.Inode.{Inoh}
use slash.ReplTable.Slots.{IsTable}
use slash.Residency.{upto, iosidx_in, visited, walk, bmap_walk, bmap_walk_all}
use slash.Residency.Apply.{slot, CanModify, looked, moved, IsTract}
use slash.Residency.Walk.{AllLt, Distinct, last_of}
use slash.Residency.Query.{
  glanced, repls-glanced, first_of, look_each_lem, first_of-zero, first_of-found,
}
use slash.Residency.Visited.{chosen, iosidx_in-upto}
use slash.Residency.Spec.{walk_lem}
use slash.Request.{
  Site, Prios, add_tract, add_retif, retifzero, has_log, has_already, with_prios, upd_write_given,
  add_one,
}
use slash.Request.LastReplica.{
  has_valid, some_below-found, last_of-same, repls-rel, repls-write_result, iosidx_in-head,
}
use slash.UpdWrite.{repl_upd_write}

add_tract-IsTract : IsTract add_tract
add_tract-IsTract v w e = ground arith

-- What becomes of a replica that is named.
abbrev pub add_state : ℕ → ℕ
add_state v = if v == 0 || v == 1 || v == 6 || v == 7 then 2 else v

moved-add : (v : ℕ) → moved add_tract v ≡ add_state v
unfolding moved
moved-add v = ground arith

-- A look for a valid replica finds one exactly if there is one.
first_of-valid :
    (f : ℕ → ℕ) (nr : ℕ) → (first_of (some retifzero) f (upto nr) 0 == 0) ≡ not (has_valid f nr)
first_of-valid f nr = elim (Bool-cases (has_valid f nr)) [
  | inl v ↦
      let (j, hj, q) = some_below-found (λ j. f j == 3) nr v in
      ground (arith, first_of-zero retifzero f (upto nr) j, iosidx_in-upto j nr)
  | inr nv ↦ elim (Bool-cases (first_of (some retifzero) f (upto nr) 0 == 0)) [
    | inl z ↦ ground arith
    | inr nz ↦
        let (j, m, e) = first_of-found retifzero f (upto nr) (ground arith) in
        ground (arith, some_below-at (λ k. f k == 3) nr j, iosidx_in-upto j nr)
  ]
]

looked-CanModify : (b : Bmap) → CanModify b → CanModify (looked b)
looked-CanModify b c = record {
  clean = ground (arith, c.clean);
  held = λ w. (ground (arith, c.held), ground (arith, c.held));
}

glanced-CanModify : (ks : List ℕ) (b : Bmap) → CanModify b → CanModify (glanced ks b)
unfolding glanced
glanced-CanModify [] b c = c
glanced-CanModify (k ∷ ks) b c = looked-CanModify b c

repls-upd_write_given :
    (e : Site) (ih : Inoh) (p : Prios) (b : Bmap) → (upd_write_given e ih p b).repls ≡ b.repls
unfolding repl_upd_write
repls-upd_write_given e ih p b = ground arith

-- The look at the head of the request.
query_valid :
    (nr : ℕ) (b : Bmap)
    → CanModify b
    → IsTable b.repls
    → (b' : Bmap) × (v : ℕ) × (bmap_walk_all nr b none (some retifzero) true ≡ some (b', v))
      × ((v == 0) ≡ not (has_valid (slot b.repls) nr))
      × CanModify b'
      × (b'.repls ≡ b.repls)
unfolding bmap_walk_all bmap_walk walk visited
query_valid nr b c h = (
  glanced (upto nr) b,
  first_of (some retifzero) (slot b.repls) (upto nr) 0,
  rw (look_each_lem (some retifzero) b.repls (upto nr) b 0 h refl) refl,
  first_of-valid (slot b.repls) nr,
  glanced-CanModify (upto nr) b c,
  repls-glanced (upto nr) b,
)

abbrev pub add_slot : Bool → List ℕ → ℕ → ℕ → ℕ
add_slot go idx j v = if go && iosidx_in j idx then add_state v else v

-- The return code by the value of the walk.
abbrev pub add_rc : Site → ℕ → Rc
add_rc e v =
    if has_log v then done 0 else if has_already v then fail e.already else fail slerr_repl_not_act

-- What a request to replicate one bmap comes to.
abbrev pub Adds : Site → Inoh → Prios → List ℕ → Bmap → Type 0
Adds e ih p idx b =
    (b' : Bmap) × (rc : Rc) × (add_one e ih p idx b ≡ some (b', rc))
    × IsTable b'.repls
    × ((j : ℕ)
        → slot b'.repls j ≡ add_slot (has_valid (slot b.repls) ih.nrepls) idx j (slot b.repls j))
    × (rc ≡ (
        if has_valid (slot b.repls) ih.nrepls
        then add_rc e (last_of (some add_retif) (slot b.repls) idx 0)
        else done 0))

-- The walk and the write, once a replica is valid.
add_one_go :
    (e : Site) (ih : Inoh) (p : Prios) (i : ℕ) (is : List ℕ) (b b1 : Bmap) (v0 j : ℕ)
    → ih.nrepls ≤ 64
    → CanModify b1
    → IsTable b1.repls
    → AllLt ih.nrepls (i ∷ is)
    → Distinct (i ∷ is)
    → bmap_walk_all ih.nrepls b none (some retifzero) true ≡ some (b1, v0)
    → (v0 == 0) ≡ false
    → has_valid (slot b.repls) ih.nrepls ≡ true
    → b1.repls ≡ b.repls
    → j < ih.nrepls
    → slot b.repls j ≡ 3
    → Adds e ih p (i ∷ is) b
unfolding add_one bmap_walk chosen visited
add_one_go e ih p i is b b1 v0 j hn c1 h1 lt d e1 n0 hv same1 hj vj =
    let (b2, e2, h2, c2, f2, w2, s2) =
      walk_lem ih.nrepls b1 add_tract (some add_retif) false (i ∷ is) (λ k v s. s) (tt {0}) hn
        add_tract-IsTract c1 h1 lt d in
    let s1 : (k : ℕ) → slot b1.repls k ≡ slot b.repls k = λ k. rw same1 refl in
    let v : ℕ = last_of (some add_retif) (slot b.repls) (i ∷ is) 0 in
    let same : last_of (some add_retif) (slot b1.repls) (i ∷ is) 0 ≡ v =
      last_of-same (some add_retif) (slot b1.repls) (slot b.repls) (i ∷ is) 0 s1 in
    let walked : bmap_walk ih.nrepls b1 (some add_tract) (some add_retif) false (i ∷ is)
        ≡ some (b2, v) =
      rw e2 (ground (arith, same)) in
    let lock : b2.wrlock ≡ true = ground (arith, w2 i, iosidx_in-head i is) in
    let b3 : Bmap = record (with_prios p b2) { upd = true; upd_busy = true } in
    let wrote : bmap_write ih.nrepls true e.out b3 ≡ some (write_result true e.out b3, e.out.rc) =
      bmap_write_lem ih.nrepls j true e.out b3 h2 lock (c2.held lock).0 (c2.held lock).1 hj
        (ground (arith, s2 j, s1 j, moved-add (slot b1.repls j))) in
    elim (Bool-cases (has_log v)) [
      | inl log ↦
          let b4 : Bmap = record (write_result true e.out b3) { upd_busy = false } in
          let same4 : b4.repls ≡ b2.repls = repls-write_result e.out b3 in
          (
            repl_bmap_rel b4,
            add_rc e v,
            ground (arith, wrote),
            rw (repls-rel b4, same4) h2,
            λ k. rw (repls-rel b4, same4) (ground (arith, s2 k, s1 k, moved-add (slot b1.repls k))),
            ground arith,
          )
      | inr nolog ↦
          let b4 : Bmap = upd_write_given e ih p (with_prios p b2) in
          let same4 : b4.repls ≡ b2.repls = repls-upd_write_given e ih p (with_prios p b2) in
          (
            repl_bmap_rel b4,
            add_rc e v,
            ground arith,
            rw (repls-rel b4, same4) h2,
            λ k. rw (repls-rel b4, same4) (ground (arith, s2 k, s1 k, moved-add (slot b1.repls k))),
            ground arith,
          )
    ]

-- A request to replicate one bmap to distinct replicas always comes to an end. If a replica of the
-- bmap is valid, each named one that is INVALID, scheduled, GARBAGE or about to be collected is
-- queued, whether or not the write succeeds, and the return code follows from the last named replica
-- whose state has a value; if none is, nothing changes and the code is 0. All other states stay.
pub add_one_lem :
    (e : Site) (ih : Inoh) (p : Prios) (i : ℕ) (is : List ℕ) (b : Bmap)
    → ih.nrepls ≤ 64
    → CanModify b
    → IsTable b.repls
    → AllLt ih.nrepls (i ∷ is)
    → Distinct (i ∷ is)
    → Adds e ih p (i ∷ is) b
unfolding add_one
add_one_lem e ih p i is b hn c h lt d =
    let (b1, v0, e1, z1, c1, same1) = query_valid ih.nrepls b c h in
    elim (Bool-cases (has_valid (slot b.repls) ih.nrepls)) [
      | inl hv ↦
          let (j, hj, q) = some_below-found (λ j. slot b.repls j == 3) ih.nrepls hv in
          add_one_go e ih p i is b b1 v0 j hn c1 (rw same1 h) lt d e1 (ground arith) hv same1 hj
            (ground arith)
      | inr nv ↦ (b1, done 0, ground arith, rw same1 h, λ j. rw same1 (ground arith), ground arith)
    ]
