-- ===== src/History/Kept.antt =====
-- Each operation on the table of a bmap keeps a valid replica, and changes states along the edges that
-- there are.
use slash.Prelude.{
  ℕ, ◌*◌, ◌≡◌, refl, ◌<◌, ◌≤◌, List, ◌∷◌, some, Bool, true, false, ◌||◌, ◌&&◌, ◌==◌, if◌then◌else◌,
  arith, Bool-cases, inl, inr,
}
use slash.Prelude.Below.{some_below-at}
use slash.Bandwidth.{Ios}
use slash.BmapMds.{Bmap}
use slash.BmapWrite.{WriteOutcome}
use slash.Errors.{Rc}
use slash.History.{edge}
use slash.Inode.{Inoh}
use slash.InvExcept.{inv_walks}
use slash.InvExcept.Laws.{inv_walks_lem}
use slash.ReplTable.Slots.{IsTable}
use slash.Request.{Site, Prios, del_one, add_one}
use slash.Request.LastReplica.{has_valid, some_below-found, del_one_lem, del_one-has_valid}
use slash.Request.Queued.{add_one_lem}
use slash.Residency.Apply.{slot, CanModify}
use slash.Residency.Walk.{AllLt, Distinct}
use slash.UpProc.{revert_cb}
use slash.UpProc.Revert.{revert_cb_lem}
use slash.Residency.{iosidx_in}
use slash.Traffic.{calc_repltraffic}
use slash.UpReclaim.{Rpc, Verdict, send_ptrunc, finish_ptrunc, trypreclaim, preclaim_finish}
use slash.UpReclaim.Garbage.{asks, trypreclaim_lem, preclaim_finish_lem}
use slash.UpReclaim.Ptrunc.{send_ptrunc_lem, finish_ptrunc_lem}
use slash.UpSched.{Attempt, Tried, ReplEntry, tryrepl, repl_finish}
use slash.UpSched.Finish.{repl_finish_lem}
use slash.UpSched.Try.{tryrepl_lem, tryrepl-unfit, can_reserve}

-- What an operation keeps.
pub record Keeps (nr : ℕ) (t u : List ℕ) : Type 0 where
  pub table : IsTable u
  pub valid : has_valid (slot u) nr ≡ true
  pub edges : (j : ℕ) → edge (slot t j) (slot u j) ≡ true

stays : (f g : ℕ → ℕ) (nr i : ℕ) → i < nr → f i ≡ 3 → g i ≡ f i → has_valid g nr ≡ true
stays f g nr i h v s = some_below-at (λ j. g j == 3) nr i h (ground (arith, v, s))

edge_refl : (v : ℕ) → edge v v ≡ true
edge_refl v = let e : (v == v) ≡ true = ground arith in rw e refl

-- One slot changes, along an edge.
only :
    (f g : ℕ → ℕ) (k v w j : ℕ) (go : Bool)
    → f k ≡ v
    → g j ≡ (if k == j && go then w else f j)
    → edge v w ≡ true
    → edge (f j) (g j) ≡ true
only f g k v w j go e s x = elim (Bool-cases (k == j && go)) [
  | inl y ↦
      let p : k ≡ j = ground arith in
      let z : f j ≡ v = rw (← p) e in let u : g j ≡ w = ground (arith, s, y) in rw (z, u) x
  | inr y ↦ let u : g j ≡ f j = ground (arith, s, y) in rw u (edge_refl (f j))
]

elsewhere :
    (f g : ℕ → ℕ) (k v w i : ℕ) (go : Bool)
    → f k ≡ v
    → f i ≡ 3
    → (v == 3) ≡ false
    → g i ≡ (if k == i && go then w else f i)
    → g i ≡ f i
elsewhere f g k v w i go e a n s = elim (Bool-cases (k == i)) [
  | inl y ↦
      let p : k ≡ i = ground arith in
      let z : f i ≡ v = rw (← p) e in absurd (ground (arith, z, a, n))
  | inr y ↦ ground (arith, s)
]

-- The operations on a bmap with a valid replica `i`.
module _ (nr : ℕ) (hn : nr ≤ 64) (b b' : Bmap) (c : CanModify b) (h : IsTable b.repls) where
  pub delrq-Keeps :
      (out : WriteOutcome) (i : ℕ) (is : List ℕ) (rc : Rc)
      → has_valid (slot b.repls) nr ≡ true
      → AllLt nr (i ∷ is)
      → Distinct (i ∷ is)
      → del_one nr out (i ∷ is) b ≡ some (b', rc)
      → Keeps nr b.repls b'.repls
  delrq-Keeps out i is rc v lt d e =
      let (b1, rc1, e1, h1, s1, r1) = del_one_lem nr out i is b hn c h lt d in
      let same : b1 ≡ b' = ground (arith, e, e1) in
      record {
        table = rw (← same) h1;
        valid = del_one-has_valid nr out i is b b' rc hn c h lt d v e;
        edges = rw (← same) (λ j. ground (arith, s1 j));
      }

  pub addrq-Keeps :
      (s : Site) (ih : Inoh) (p : Prios) (i : ℕ) (is : List ℕ) (rc : Rc)
      → has_valid (slot b.repls) nr ≡ true
      → ih.nrepls ≡ nr
      → AllLt ih.nrepls (i ∷ is)
      → Distinct (i ∷ is)
      → add_one s ih p (i ∷ is) b ≡ some (b', rc)
      → Keeps nr b.repls b'.repls
  addrq-Keeps s ih p i is rc v en lt d e =
      let (b1, rc1, e1, h1, s1, r1) = add_one_lem s ih p i is b (rw en hn) c h lt d in
      let same : b1 ≡ b' = ground (arith, e, e1) in
      let (j, hj, q) = some_below-found (λ j. slot b.repls j == 3) nr v in
      record {
        table = rw (← same) h1;
        valid =
            rw (← same) (
              stays (slot b.repls) (slot b1.repls) nr j hj (ground arith)
                (ground (arith, s1 j, q)));
        edges = rw (← same) (λ j. ground (arith, s1 j));
      }

  pub new_data-Keeps :
      (i rc : ℕ)
      → i < nr
      → (slot b.repls i == 0 || (slot b.repls i == 3 || slot b.repls i == 6)) ≡ true
      → inv_walks nr b i ≡ some (b', rc)
      → Keeps nr b.repls b'.repls
  new_data-Keeps i rc hi w e =
      let (b1, e1, h1, c1, s1, g1) = inv_walks_lem nr i b hn hi c h in
      let same : b1 ≡ b' = ground (arith, e, e1) in
      record {
        table = rw (← same) h1;
        valid =
            rw (← same)
              (some_below-at (λ j. slot b1.repls j == 3) nr i hi (ground (arith, s1 i, w)));
        edges = rw (← same) (λ j. elim (Bool-cases (i == j)) [
          | inl y ↦
              let q : i ≡ j = ground arith in
              let w' : (slot b.repls j == 0 || (slot b.repls j == 3 || slot b.repls j == 6))
                  ≡ true =
                rw (← q) w in
              ground (arith, s1 j, w')
          | inr y ↦ ground (arith, s1 j)
        ]);
      }

  module _ (i : ℕ) (hi : i < nr) (v : slot b.repls i ≡ 3) where
    -- One slot was changed, along an edge.
    slot-Keeps :
        (u : List ℕ) (k x w : ℕ) (go : Bool)
        → IsTable u
        → slot b.repls k ≡ x
        → (x == 3) ≡ false
        → edge x w ≡ true
        → ((j : ℕ) → slot u j ≡ (if k == j && go then w else slot b.repls j))
        → Keeps nr b.repls u
    slot-Keeps u k x w go hu q n ed s = record {
      table = hu;
      valid =
          stays (slot b.repls) (slot u) nr i hi v
            (elsewhere (slot b.repls) (slot u) k x w i go q v n (s i));
      edges = λ j. only (slot b.repls) (slot u) k x w j go q (s j) ed;
    }

    pub repl_try-Keeps :
        (out : WriteOutcome) (a : Attempt) (k : ℕ) (ios : ℕ → Ios) (r : Tried)
        → k < nr
        → slot b.repls k ≡ 2
        → tryrepl nr out a (k * 3) b ios ≡ some r
        → Keeps nr b.repls r.bmap.repls
    repl_try-Keeps out a k ios r hk q e = elim (Bool-cases (can_reserve a ios)) [
      | inl f ↦
          let (t, e1, g) = tryrepl_lem nr out a k i b ios hn hk hi c h q v f in
          let same : t ≡ r = ground (arith, e, e1) in
          rw (← same) (
            slot-Keeps t.bmap.repls k 2 (if calc_repltraffic a.slivers == 0 then 3 else 1) t.ok
              g.table q refl (ground arith) g.slots)
      | inr f ↦ absurd (ground (arith, e, tryrepl-unfit nr out a (k * 3) b ios f))
    ]

    pub repl_answer-Keeps :
        (out : WriteOutcome) (ecode resid : ℕ) (a : ReplEntry) (k : ℕ)
        → k < nr
        → a.off ≡ k * 3
        → repl_finish nr out ecode resid a b ≡ some b'
        → Keeps nr b.repls b'.repls
    repl_answer-Keeps out ecode resid a k hk off e =
        let (b1, e1, h1, s1) = repl_finish_lem nr out ecode resid a k i b hn c h hk hi v off in
        let same : b1 ≡ b' = ground (arith, e, e1) in
        rw (← same) (record {
          table = h1;
          valid = stays (slot b.repls) (slot b1.repls) nr i hi v (ground (arith, s1 i, v));
          edges = λ j. ground (arith, s1 j);
        })

    pub preclaim_try-Keeps :
        (out : WriteOutcome) (online : Bool) (batch_rc k : ℕ) (x : Ios) (ok : Bool)
        → k < nr
        → slot b.repls k ≡ 6
        → trypreclaim nr out online batch_rc (k * 3) b x ≡ some (b', ok)
        → Keeps nr b.repls b'.repls
    preclaim_try-Keeps out online brc k x ok hk q e =
        let (b1, e1, h1, s1) = trypreclaim_lem nr out online brc k i b x hn hk hi c h q v in
        let same : b1 ≡ b' = ground (arith, e, e1) in
        rw (← same) (slot-Keeps b1.repls k 6 7 (asks online brc x) h1 q refl refl s1)

    pub preclaim_answer-Keeps :
        (out : WriteOutcome) (rc k : ℕ)
        → k < nr
        → preclaim_finish nr out rc (some k) b ≡ some b'
        → Keeps nr b.repls b'.repls
    preclaim_answer-Keeps out rc k hk e =
        let (b1, e1, h1, s1) = preclaim_finish_lem nr out rc k i b hn hk hi c h v in
        let same : b1 ≡ b' = ground (arith, e, e1) in
        rw (← same) (record {
          table = h1;
          valid = stays (slot b.repls) (slot b1.repls) nr i hi v (ground (arith, s1 i, v));
          edges = λ j. ground (arith, s1 j);
        })

    pub ptrunc_try-Keeps :
        (upd : ℕ) (q : Rpc) (k : ℕ) (x x' : Ios) (r : Verdict)
        → k < nr
        → slot b.repls k ≡ 4
        → iosidx_in upd x.upschq ≡ false
        → send_ptrunc upd q (k * 3) b x ≡ some (b', x', r)
        → Keeps nr b.repls b'.repls
    ptrunc_try-Keeps upd q k x x' r hk z f e =
        let (b1, e1, h1, s1) = send_ptrunc_lem upd q k b x (omega arith) c h z f in
        let same : b1 ≡ b' = ground (arith, e, e1) in
        rw (← same) (slot-Keeps b1.repls k 4 5 (q.add_rc == 0) h1 z refl refl s1)

    pub ptrunc_answer-Keeps :
        (upd rc k : ℕ) (x x' : Ios)
        → k < nr
        → finish_ptrunc upd rc (k * 3) b x ≡ some (b', x')
        → Keeps nr b.repls b'.repls
    ptrunc_answer-Keeps upd rc k x x' hk e =
        let (b1, e1, h1, s1) = finish_ptrunc_lem upd rc k b x (omega arith) c h in
        let same : b1 ≡ b' = ground (arith, e, e1) in
        rw (← same) (record {
          table = h1;
          valid = stays (slot b.repls) (slot b1.repls) nr i hi v (ground (arith, s1 i, v));
          edges = λ j. ground (arith, s1 j);
        })

    pub restart-Keeps :
        (out : WriteOutcome) → revert_cb nr out b ≡ some b' → Keeps nr b.repls b'.repls
    restart-Keeps out e =
        let (b1, e1, h1, s1, busy, file, lock) = revert_cb_lem nr out i b hn hi c h v in
        let same : b1 ≡ b' = ground (arith, e, e1) in
        rw (← same) (record {
          table = h1;
          valid = stays (slot b.repls) (slot b1.repls) nr i hi v (ground (arith, s1 i, v));
          edges = λ j. ground (arith, s1 j);
        })
