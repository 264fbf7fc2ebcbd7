-- ===== src/UpSched/Try.antt =====
-- An attempt to arrange the copy of a replica that is queued.
use slash.Prelude.{
  ℕ, ◌*◌, ◌≡◌, refl, ◌<◌, ◌≤◌, none, some, Bool, true, false, ◌==◌, ◌||◌, ◌&&◌, not, if◌then◌else◌,
  arith, Bool-cases, inl, inr, ◌⊎◌,
}
use slash.Prelude.Ints.{pos}
use slash.Bandwidth.{Ios, resmpair_bw_adj, pair_has_bw, howmany_units}
use slash.Bandwidth.Adjust.{has_room, reserved, reserve_lem}
use slash.Bandwidth.RoundTrip.{SameAssigned, Releases, release-reserve}
use slash.BmapMds.{Bmap}
use slash.BmapWrite.{WriteOutcome, repl_bmap_rel}
use slash.BmapWrite.Laws.{write_result}
use slash.ReplTable.Slots.{IsTable}
use slash.Request.{write_logrepls}
use slash.Residency.{retif, brepls_init_idx}
use slash.Residency.Apply.{slot, CanModify}
use slash.Traffic.{calc_repltraffic}
use slash.UpSched.{Attempt, Tried, set_status, one_change, req_len, mark_repl, tryrepl, page_in}
use slash.UpSched.Apply.{
  bmap_apply_lem, locked-CanModify, write_logrepls_lem, repls-rel, repls-written,
}
use slash.UpSched.Finish.{one_change-IsTract, moved-one, status-CanModify}
use slash.UpSched.Undo.{GivesUp, unreserve_lem, undo_repl_lem}

-- What an attempt for the queued replica `k` comes to.
abbrev pub arranged : Attempt → (ℕ → Ios) → Bool
arranged a ios =
    pair_has_bw ios a.src a.dst && (a.online && (not (req_len a.slivers == 0) && a.batch_rc == 0))

-- No counter wraps if bandwidth is reserved.
abbrev pub can_reserve : Attempt → (ℕ → Ios) → Bool
can_reserve a ios =
    calc_repltraffic a.slivers == 0
    || (not (pair_has_bw ios a.src a.dst)
        || has_room ios a.src a.dst (howmany_units (calc_repltraffic a.slivers)))

pub record TriesTo (a : Attempt) (k : ℕ) (b : Bmap) (ios : ℕ → Ios) (t : Tried) : Type 0 where
  pub ok : t.ok ≡ (calc_repltraffic a.slivers == 0 || arranged a ios)
  pub sent : t.sent ≡ (
      if not (calc_repltraffic a.slivers == 0) && arranged a ios
      then some (record { bgen = b.bgen; src_resid = a.src; len = req_len a.slivers })
      else none)
  pub table : IsTable t.bmap.repls
  pub slots :
      (j : ℕ)
      → slot t.bmap.repls j ≡ (
          if k == j && t.ok
          then (if calc_repltraffic a.slivers == 0 then 3 else 1)
          else slot b.repls j)
  pub free : (t.ok ≡ true) ⊎ CanModify t.bmap
  pub same : (t.ok ≡ true) ⊎ SameAssigned ios t.ios

GivesUp-TriesTo :
    (a : Attempt) (k : ℕ) (b : Bmap) (ios : ℕ → Ios) (t : Tried)
    → (calc_repltraffic a.slivers == 0) ≡ false
    → arranged a ios ≡ false
    → GivesUp b ios t
    → TriesTo a k b ios t
GivesUp-TriesTo a k b ios t z r g = record {
  ok = ground (arith, g.not_ok, z, r);
  sent = ground (arith, g.not_sent, z, r);
  table = g.table;
  slots = λ j. ground (arith, g.slots j, g.not_ok);
  free = inr g.free;
  same = inr g.same;
}

abbrev pub Tries : ℕ → WriteOutcome → Attempt → ℕ → Bmap → (ℕ → Ios) → Type 0
Tries nr out a k b ios =
    (t : Tried) × (tryrepl nr out a (k * 3) b ios ≡ some t) × TriesTo a k b ios t

-- The part with bandwidth, a connection and something to ask for.
mark_repl_lem :
    (a : Attempt) (k : ℕ) (b : Bmap) (ios ios1 : ℕ → Ios) (more : Bool)
    → k < 64
    → IsTable b.repls
    → CanModify b
    → slot b.repls k ≡ 2
    → (calc_repltraffic a.slivers == 0) ≡ false
    → arranged a ios ≡ (a.batch_rc == 0)
    → Releases ios ios1 a.src a.dst (calc_repltraffic a.slivers)
    → (t : Tried) × (mark_repl a (k * 3) b ios1 more ≡ some t) × TriesTo a k b ios t
unfolding mark_repl retif
mark_repl_lem a k b ios ios1 more hk h c q z r rel =
    let (b1, e1, h1, l1, s1, g1) =
      bmap_apply_lem b (one_change 2 1) (some brepls_init_idx) k
        (one_change-IsTract 2 1 (omega arith)) c h hk in
    let s : (j : ℕ) → slot b1.repls j ≡ (if k == j then 1 else slot b.repls j) = λ j.
      elim (Bool-cases (k == j)) [
        | inl y ↦
            let w : k ≡ j = ground arith in
            let u : slot b.repls j ≡ 2 = rw (← w) q in
            ground (arith, s1 j, moved-one 2 1 (slot b.repls j), u)
        | inr y ↦ ground (arith, s1 j)
      ] in
    elim (Bool-cases (a.batch_rc == 0)) [
      | inl y ↦
          let b2 = set_status a.dst false b1 in
          let t : Tried = record {
            bmap = repl_bmap_rel b2;
            ios = if more then page_in a.dst ios1 else ios1;
            sent = some (record { bgen = b.bgen; src_resid = a.src; len = req_len a.slivers });
            ok = true;
          } in
          (
            t,
            ground (arith, e1, q, y),
            record {
              ok = ground (arith, r, y);
              sent = ground (arith, r, y, z);
              table = rw (repls-rel b2) h1;
              slots = λ j. rw (repls-rel b2) (ground (arith, s j, z));
              free = inl refl;
              same = inl refl;
            },
          )
      | inr y ↦
          let b2 = set_status a.dst true (set_status a.dst false b1) in
          let c2 =
            status-CanModify a.dst true (set_status a.dst false b1)
              (status-CanModify a.dst false b1 (locked-CanModify b1 l1)) in
          let (t, e, g) = undo_repl_lem a k b b2 ios ios1 hk h1 c2 q s rel in
          (t, ground (arith, e1, q, y, e), GivesUp-TriesTo a k b ios t z (ground (arith, r, y)) g)
    ]

-- The attempt with some data to copy.
module _ (nr : ℕ) (out : WriteOutcome) (a : Attempt) (k : ℕ) (b : Bmap) (ios : ℕ → Ios) where
  tryrepl_some :
      k < 64
      → CanModify b
      → IsTable b.repls
      → slot b.repls k ≡ 2
      → (calc_repltraffic a.slivers == 0) ≡ false
      → can_reserve a ios ≡ true
      → Tries nr out a k b ios
  unfolding tryrepl
  tryrepl_some hk c h q z fit =
      let n = calc_repltraffic a.slivers in
      let ios1 = reserved ios a.src a.dst (howmany_units n) in
      let more = pair_has_bw ios1 a.src a.dst in
      elim (Bool-cases (pair_has_bw ios a.src a.dst)) [
        | inl p ↦
            let e1 : resmpair_bw_adj ios a.src a.dst (pos n) ≡ some (ios1, true, more) =
              let f : has_room ios a.src a.dst (howmany_units n) ≡ true =
                ground (arith, p, z, fit) in
              let v = reserve_lem ios a.src a.dst n in rw (p, f) at v in
            let rel = release-reserve ios ios1 a.src a.dst n more (ground (arith, z)) e1 in
            elim (Bool-cases (not a.online || req_len a.slivers == 0)) [
              | inl y ↦
                  let (t, e, g) = unreserve_lem a b ios ios1 h c rel in
                  (
                    t,
                    ground (arith, z, e1, y, e),
                    GivesUp-TriesTo a k b ios t z (ground (arith, y)) g,
                  )
              | inr y ↦
                  let (t, e, g) =
                    mark_repl_lem a k b ios ios1 more hk h c q z (ground (arith, p, y)) rel in
                  (t, ground (arith, z, e1, y, e), g)
            ]
        | inr p ↦
            let t : Tried = record { bmap = b; ios = ios; sent = none; ok = false } in
            (
              t,
              let v = reserve_lem ios a.src a.dst n in
                  let w : resmpair_bw_adj ios a.src a.dst (pos n) ≡ some (ios, false, false) =
                    rw p at v in
                  ground (arith, z, p, w),
              GivesUp-TriesTo a k b ios t z (ground (arith, p)) (record {
                not_ok = refl;
                not_sent = refl;
                table = h;
                free = c;
                slots = λ j. refl;
                same = λ j. (refl, refl, refl);
              }),
            )
      ]

-- An attempt to arrange the copy of the queued replica `k` of a bmap with another valid one does not
-- fail if no counter of bandwidth wraps. If the bmap has no data, the replica becomes VALID. Otherwise, exactly if both servers have
-- bandwidth, the destination is connected, there is something left of the file at the bmap and the
-- batch takes the request, the replica becomes SCHED and a request for the current generation is put
-- into the batch; else all slots hold what they held, the bmap is one that this thread
-- can change, nothing is sent, and what is assigned to the servers is as before.
pub tryrepl_lem :
    (nr : ℕ) (out : WriteOutcome) (a : Attempt) (k i : ℕ) (b : Bmap) (ios : ℕ → Ios)
    → nr ≤ 64
    → k < nr
    → i < nr
    → CanModify b
    → IsTable b.repls
    → slot b.repls k ≡ 2
    → slot b.repls i ≡ 3
    → can_reserve a ios ≡ true
    → Tries nr out a k b ios
unfolding tryrepl
tryrepl_lem nr out a k i b ios hn hk hi c h q v fit =
    elim (Bool-cases (calc_repltraffic a.slivers == 0)) [
      | inl z ↦
          let (b1, e1, h1, l1, s1, g1) =
            bmap_apply_lem b (one_change 2 3) none k (one_change-IsTract 2 3 (omega arith)) c h
              (omega arith) in
          let w1 : write_logrepls nr out b1 ≡ some (write_result true out b1) =
            write_logrepls_lem nr i out b1 h1 l1 hi
              (ground (arith, s1 i, v, moved-one 2 3 (slot b.repls i))) in
          let t : Tried = record {
            bmap = write_result true out b1;
            ios = page_in a.dst ios;
            sent = none;
            ok = true;
          } in
          (
            t,
            ground (arith, z, e1, w1),
            record {
              ok = ground (arith, z);
              sent = ground (arith, z);
              table = rw (repls-written out b1) h1;
              slots = λ j. rw (repls-written out b1) (elim (Bool-cases (k == j)) [
                | inl y ↦
                    let w : k ≡ j = ground arith in
                    let u : slot b.repls j ≡ 2 = rw (← w) q in
                    ground (arith, s1 j, moved-one 2 3 (slot b.repls j), u, z)
                | inr y ↦ ground (arith, s1 j)
              ]);
              free = inl refl;
              same = inl refl;
            },
          )
      | inr z ↦ tryrepl_some nr out a k b ios (omega arith) c h q z fit
    ]

-- An attempt that makes a counter wrap fails an assertion.
pub tryrepl-unfit :
    (nr : ℕ) (out : WriteOutcome) (a : Attempt) (off : ℕ) (b : Bmap) (ios : ℕ → Ios)
    → can_reserve a ios ≡ false
    → tryrepl nr out a off b ios ≡ none
unfolding tryrepl
tryrepl-unfit nr out a off b ios u =
    let n = calc_repltraffic a.slivers in
    let p : pair_has_bw ios a.src a.dst ≡ true = ground (arith, u) in
    let f : has_room ios a.src a.dst (howmany_units n) ≡ false = ground (arith, u) in
    let v = reserve_lem ios a.src a.dst n in
    let w : resmpair_bw_adj ios a.src a.dst (pos n) ≡ none = rw (p, f) at v in ground (arith, u, w)
