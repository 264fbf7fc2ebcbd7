-- ===== src/Replay/Repls.antt =====
-- A table that was logged is recovered, but for what was under way.
use slash.Prelude.{
  ℕ, zero, suc, ◌≡◌, refl, ap, ◌<◌, ◌≤◌, List, [], none, some, Bool, true, false, ◌==◌,
  if◌then◌else◌, arith, Bool-cases, inl, inr, ltb,
}
use slash.Prelude.{Option}
use slash.BmapMds.{Bmap}
use slash.BmapWrite.{WriteOutcome, ensure_valid, bmap_write}
use slash.BmapWrite.Laws.{ensure_valid_lem}
use slash.Replay.{
  BmapRepls, fill_bmap_repls, fit_below, brepls_check, insert_rows, replay_repls, replay_bmap_repls,
}
use slash.ReplTable.Slots.{IsTable}
use slash.Request.{empty_tract}
use slash.Residency.{visited, bmap_walk, bmap_walk_all}
use slash.Residency.Apply.{slot, CanModify, IsTract}
use slash.Residency.Spec.{walk_lem}
use slash.Residency.Visited.{chosen}
use slash.UpProc.{revert_tract}
use slash.UpProc.Revert.{reverted, moved-revert, revert_tract-IsTract}
use slash.UpdWrite.{repl_upd_write}

fit_below-valid : (repls : List ℕ) (n j : ℕ) → j < n → slot repls j ≡ 3 → fit_below repls n ≡ true
unfolding fit_below
fit_below-valid repls zero j h v = absurd (omega arith)
fit_below-valid repls (suc n) j h v = elim (Bool-cases (j == n)) [
  | inl y ↦ let q : j ≡ n = ground arith in ground (arith, v, ap (slot repls) q)
  | inr y ↦ ground (arith, fit_below-valid repls n j (ground arith) v)
]

-- What the statements on the table of scheduled work leave of the bmap.
module _ (nr : ℕ) (repl : ℕ → ℕ) (res : ℕ → Option Bool) where
  insert_rows-same :
      (n : ℕ) (b : Bmap)
      → ((insert_rows repl res n b).repls ≡ b.repls)
        × ((insert_rows repl res n b).wrlock ≡ b.wrlock)
        × ((insert_rows repl res n b).replpol ≡ b.replpol)
  unfolding insert_rows
  insert_rows-same zero b = (refl, refl, refl)
  insert_rows-same (suc n) b =
      let (p, q, r) = insert_rows-same n b in
      (ground (arith, p), ground (arith, q), ground (arith, r))

  upd_write-same :
      (b : Bmap)
      → ((repl_upd_write nr repl res true b).repls ≡ b.repls)
        × ((repl_upd_write nr repl res true b).wrlock ≡ b.wrlock)
        × ((repl_upd_write nr repl res true b).replpol ≡ b.replpol)
  unfolding repl_upd_write
  upd_write-same b = (refl, refl, refl)

-- A write that is not logged, under the write lock.
plain_write :
    (nr j : ℕ) (out : WriteOutcome) (b : Bmap)
    → IsTable b.repls
    → b.wrlock ≡ true
    → j < nr
    → slot b.repls j ≡ 3
    → bmap_write nr false out b ≡ some (record b { rdlock = false }, out.rc)
unfolding bmap_write
plain_write nr j out b h w hj v =
    let same : record b { rdlock = if b.wrlock then b.rdlock else true } ≡ b = ground (arith, w) in
    ground (arith, ap (ensure_valid nr) same, ensure_valid_lem nr j b h w hj v)

empty_tract-IsTract : IsTract empty_tract
empty_tract-IsTract v w e = ground arith

-- What the replay of a logged table comes to.
abbrev pub Recovers :
    ℕ → (ℕ → ℕ) → (ℕ → Option Bool) → WriteOutcome → BmapRepls → List ℕ → ℕ → Bmap → Type 0
Recovers nr repl res out e logged policy b =
    (b' : Bmap) × (replay_bmap_repls nr repl res out e b ≡ some (b', out.rc))
    × ((j : ℕ) → slot b'.repls j ≡ (if ltb j nr then reverted (slot logged j) else slot logged j))
    × (b'.replpol ≡ policy)

-- The end of the replay: the statements and the write, on the reverted table.
abbrev ReplayEnd : ℕ → (ℕ → ℕ) → (ℕ → Option Bool) → WriteOutcome → Bmap → Type 0
ReplayEnd nr repl res out b =
    (b' : Bmap) × (bmap_write nr false out
        (insert_rows repl res nr (repl_upd_write nr repl res true (record b { replmodwr = true })))
      ≡ some (b', out.rc))
    × (b'.repls ≡ b.repls)
    × (b'.replpol ≡ b.replpol)

replay_end :
    (nr i : ℕ) (repl : ℕ → ℕ) (res : ℕ → Option Bool) (out : WriteOutcome) (b : Bmap)
    → IsTable b.repls
    → b.wrlock ≡ true
    → i < nr
    → slot b.repls i ≡ 3
    → ReplayEnd nr repl res out b
replay_end nr i repl res out b h w hi v =
    let b4 : Bmap = record b { replmodwr = true } in
    let (r5, k5, p5) = upd_write-same nr repl res b4 in
    let (r6, k6, p6) = insert_rows-same nr repl res nr (repl_upd_write nr repl res true b4) in
    (
      record (insert_rows repl res nr (repl_upd_write nr repl res true b4)) { rdlock = false },
      plain_write nr i out (insert_rows repl res nr (repl_upd_write nr repl res true b4))
          (rw (r6, r5) h) (ground (arith, k6, k5, w)) hi (rw (r6, r5) v),
      ground (arith, r6, r5),
      ground (arith, p6, p5),
    )

-- A table that was logged under both busy flags, for a file with at most 64 replicas of which one was
-- valid, is recovered by the replay of the entry on whatever table the bmap has then: each slot holds
-- what was logged, but that a replica that was SCHED is QUEUED again and one that was GARBAGE_SCHED is
-- GARBAGE. The bmap then has the policy of the file, and the return code is that of the write.
pub replay-fill :
    (nr i policy : ℕ) (repl : ℕ → ℕ) (res : ℕ → Option Bool) (out : WriteOutcome) (e : BmapRepls)
    (b0 b : Bmap)
    → nr ≤ 64
    → i < nr
    → IsTable b0.repls
    → slot b0.repls i ≡ 3
    → fill_bmap_repls policy nr b0 ≡ some e
    → CanModify b
    → IsTable b.repls
    → Recovers nr repl res out e b0.repls policy b
unfolding replay_bmap_repls replay_repls fill_bmap_repls brepls_check bmap_walk_all bmap_walk chosen
    visited
replay-fill nr i policy repl res out e b0 b hn hi h0 v fill c h =
    let e1 : e.repls ≡ b0.repls = ground (arith, fill) in
    let e2 : e.nrepls ≡ nr = ground (arith, fill) in
    let e3 : e.replpol ≡ policy = ground (arith, fill) in
    let (b1, w1, h1, c1, f1, l1, s1) =
      walk_lem nr b empty_tract none false [] (λ k v s. s) (tt {0}) hn empty_tract-IsTract c h tt
        tt in
    let b2 : Bmap = record b1 { orepls = b1.repls; replpol = e.replpol; repls = e.repls } in
    let c2 : CanModify b2 = record { clean = c1.clean; held = c1.held } in
    let (b3, w3, h3, c3, f3, l3, s3) =
      walk_lem nr b2 revert_tract none false [] (λ k v s. s) (tt {0}) hn revert_tract-IsTract c2
        (rw e1 h0) tt tt in
    let s : (j : ℕ)
        → slot b3.repls j ≡ (if ltb j nr then reverted (slot b0.repls j) else slot b0.repls j) =
      λ j. ground (arith, s3 j, moved-revert (slot e.repls j), ap (λ x. slot x j) e1) in
    let (b6, w6, r6, p6) =
      replay_end nr i repl res out b3 h3 (ground (arith, l3 i)) hi (ground (arith, s i, v)) in
    (
      b6,
      ground
          (arith, e2, ap (λ x. fit_below x nr) e1, fit_below-valid b0.repls nr i hi v, w1, w3, w6),
      λ j. rw r6 (s j),
      ground (arith, p6, f3.policy, e3),
    )
