-- ===== src/UpReclaim/Garbage.antt =====
-- The reclaim of a dropped replica.
use slash.Prelude.{
  ℕ, ◌*◌, ◌≡◌, refl, ◌<◌, ◌≤◌, [], ◌∷◌, none, some, Bool, true, false, ◌==◌, ◌&&◌, not,
  if◌then◌else◌, arith, Bool-cases, inl, inr,
}
use slash.Bandwidth.{Ios}
use slash.BmapMds.{Bmap}
use slash.BmapWrite.{WriteOutcome, bmap_write}
use slash.BmapWrite.Laws.{write_result, bmap_write_lem}
use slash.ReplTable.Slots.{IsTable}
use slash.Request.{write_logrepls}
use slash.Residency.{brepls_init_idx, bmap_walk, iosidx_in, visited}
use slash.Residency.Apply.{slot, CanModify}
use slash.Residency.Spec.{walk_lem}
use slash.Residency.Visited.{chosen}
use slash.Residency.Walk.{Distinct}
use slash.UpReclaim.{trypreclaim, preclaim_finish}
use slash.UpSched.{one_change}
use slash.UpSched.Apply.{bmap_apply_lem, IsLocked, write_logrepls_lem, repls-written}
use slash.UpSched.Finish.{one_change-IsTract, moved-one}

-- The server is asked.
abbrev pub asks : Bool → ℕ → Ios → Bool
asks online batch_rc x = not x.notsup && (online && batch_rc == 0)

abbrev pub Reclaims : ℕ → WriteOutcome → Bool → ℕ → ℕ → Bmap → Ios → Type 0
Reclaims nr out online batch_rc k b x =
    (b' : Bmap) × (trypreclaim nr out online batch_rc (k * 3) b x
      ≡ some (b', asks online batch_rc x && out.rc == 0))
    × IsTable b'.repls
    × ((j : ℕ) → slot b'.repls j ≡ (if k == j && asks online batch_rc x then 7 else slot b.repls j))

-- A replica `k` that is GARBAGE becomes GARBAGE_SCHED exactly if the server can reclaim parts of a
-- file, is connected, and the batch takes the request; no other slot changes. The attempt does not fail
-- if another replica is valid, and it reports success if the table could be written as well.
pub trypreclaim_lem :
    (nr : ℕ) (out : WriteOutcome) (online : Bool) (batch_rc k i : ℕ) (b : Bmap) (x : Ios)
    → nr ≤ 64
    → k < nr
    → i < nr
    → CanModify b
    → IsTable b.repls
    → slot b.repls k ≡ 6
    → slot b.repls i ≡ 3
    → Reclaims nr out online batch_rc k b x
unfolding trypreclaim
trypreclaim_lem nr out online batch_rc k i b x hn hk hi c h q v =
    elim (Bool-cases (asks online batch_rc x)) [
      | inl y ↦
          let (b1, e1, h1, l1, s1, g1) =
            bmap_apply_lem b (one_change 6 7) (some brepls_init_idx) k
              (one_change-IsTract 6 7 (omega arith)) c h (omega arith) in
          let w1 : bmap_write nr true out b1 ≡ some (write_result true out b1, out.rc) =
            bmap_write_lem nr i true out b1 h1 l1.write l1.file l1.busy hi
              (ground (arith, s1 i, v, moved-one 6 7 (slot b.repls i))) in
          (
            write_result true out b1,
            ground (arith, y, e1, w1),
            rw (repls-written out b1) h1,
            λ j. rw (repls-written out b1) (elim (Bool-cases (k == j)) [
              | inl p ↦
                  let w : k ≡ j = ground arith in
                  let u : slot b.repls j ≡ 6 = rw (← w) q in
                  ground (arith, s1 j, moved-one 6 7 (slot b.repls j), u, y)
              | inr p ↦ ground (arith, s1 j)
            ]),
          )
      | inr y ↦ (b, ground (arith, y), h, λ j. ground (arith, y))
    ]

-- What becomes of the replica once the server has answered.
abbrev pub reclaimed : ℕ → ℕ → ℕ
reclaimed rc v = if v == 7 then (if rc == 0 then 0 else 6) else v

abbrev pub Reclaimed : ℕ → WriteOutcome → ℕ → ℕ → Bmap → Type 0
Reclaimed nr out rc k b =
    (b' : Bmap) × (preclaim_finish nr out rc (some k) b ≡ some b')
    × IsTable b'.repls
    × ((j : ℕ)
        → slot b'.repls j ≡ (if k == j then reclaimed rc (slot b.repls j) else slot b.repls j))

-- Once the server has answered, a replica that was GARBAGE_SCHED is INVALID if it was reclaimed and
-- GARBAGE otherwise; one with another state and all other slots keep what they hold. This does not
-- fail if some replica is valid.
pub preclaim_finish_lem :
    (nr : ℕ) (out : WriteOutcome) (rc k i : ℕ) (b : Bmap)
    → nr ≤ 64
    → k < nr
    → i < nr
    → CanModify b
    → IsTable b.repls
    → slot b.repls i ≡ 3
    → Reclaimed nr out rc k b
unfolding preclaim_finish bmap_walk chosen visited iosidx_in
preclaim_finish_lem nr out rc k i b hn hk hi c h v =
    let t = one_change 7 (if rc == 0 then 0 else 6) in
    let (b1, e1, h1, c1, f1, w1, s1) =
      walk_lem nr b t none false (k ∷ []) (λ k v s. s) (tt {0}) hn
        (one_change-IsTract 7 (if rc == 0 then 0 else 6) (ground arith)) c h (hk, tt) one in
    let lock : b1.wrlock ≡ true = ground (arith, w1 k) in
    let s : (j : ℕ)
        → slot b1.repls j ≡ (if k == j then reclaimed rc (slot b.repls j) else slot b.repls j) =
      λ j. ground (arith, s1 j, moved-one 7 (if rc == 0 then 0 else 6) (slot b.repls j)) in
    let l1 : IsLocked b1 = record {
      clean = c1.clean;
      write = lock;
      file = (c1.held lock).0;
      busy = (c1.held lock).1;
    } in
    let wr : write_logrepls nr out b1 ≡ some (write_result true out b1) =
      write_logrepls_lem nr i out b1 h1 l1 hi (ground (arith, s i, v)) in
    (
      write_result true out b1,
      ground (arith, e1, wr),
      rw (repls-written out b1) h1,
      λ j. rw (repls-written out b1) (s j),
    )
  where
    one : Distinct (k ∷ [])
    one = (refl, tt)
