-- ===== src/UpProc/Revert.antt =====
-- What was under way before a restart is taken up again.
use slash.Prelude.{
  ℕ, zero, suc, ◌≡◌, refl, ◌<◌, ◌≤◌, ◌∙◌, some, Bool, true, false, not, ◌||◌, ◌==◌, if◌then◌else◌,
  arith, Bool-cases, inl, inr, ltb, [],
}
use slash.Prelude.Below.{some_below}
use slash.BmapMds.{Bmap}
use slash.BmapWrite.{WriteOutcome, bmap_write}
use slash.BmapWrite.Laws.{write_result, bmap_write_lem}
use slash.InvExcept.Laws.{last_of-snoc}
use slash.ReplTable.Slots.{IsTable}
use slash.Residency.{upto, visited, bmap_walk, bmap_walk_all, retif}
use slash.Residency.Apply.{slot, CanModify, moved, IsTract}
use slash.Residency.Spec.{walk_lem}
use slash.Residency.Visited.{chosen}
use slash.Residency.Walk.{last_of}
use slash.UpProc.{revert_cb, revert_tract, revert_retif}

pub revert_tract-IsTract : IsTract revert_tract
revert_tract-IsTract v w e = ground arith

-- What becomes of a replica.
abbrev pub reverted : ℕ → ℕ
reverted v = if v == 1 then 2 else if v == 7 then 6 else v

pub moved-revert : (v : ℕ) → moved revert_tract v ≡ reverted v
unfolding moved
moved-revert v = ground arith

-- Something was under way.
abbrev pub underway : (ℕ → ℕ) → ℕ → Bool
underway f nr = some_below (λ j. f j == 1 || f j == 7) nr

last_of-revert :
    (f : ℕ → ℕ) (n : ℕ) → (last_of (some revert_retif) f (upto n) 0 == 0) ≡ not (underway f n)
unfolding last_of some_below upto retif
last_of-revert f zero = refl
last_of-revert f (suc n) =
    ground (arith, last_of-snoc (some revert_retif) f (upto n) n 0, last_of-revert f n)

abbrev pub Reverts : ℕ → WriteOutcome → Bmap → Type 0
Reverts nr out b =
    (b' : Bmap) × (revert_cb nr out b ≡ some b')
    × IsTable b'.repls
    × ((j : ℕ) → slot b'.repls j ≡ (if ltb j nr then reverted (slot b.repls j) else slot b.repls j))
    × (b'.busy ≡ false)
    × (b'.fcmh_busy ≡ false)
    × (b'.wrlock ≡ underway (slot b.repls) nr)

-- A restart reverts what was under way: of the replicas of the file, each that was SCHED is QUEUED and
-- each that was GARBAGE_SCHED is GARBAGE again, and no other slot changes. This does not fail if some
-- replica is valid. The busy flags are dropped; the write lock stays held exactly if something was
-- under way.
pub revert_cb_lem :
    (nr : ℕ) (out : WriteOutcome) (i : ℕ) (b : Bmap)
    → nr ≤ 64
    → i < nr
    → CanModify b
    → IsTable b.repls
    → slot b.repls i ≡ 3
    → Reverts nr out b
unfolding revert_cb bmap_walk_all bmap_walk chosen visited
revert_cb_lem nr out i b hn hi c h v =
    let (b1, e1, h1, c1, f1, w1, s1) =
      walk_lem nr b revert_tract (some revert_retif) false [] (λ k v s. s) (tt {0}) hn
        revert_tract-IsTract c h tt tt in
    let lock : b1.wrlock ≡ true = ground (arith, w1 i) in
    let s : (j : ℕ)
        → slot b1.repls j ≡ (if ltb j nr then reverted (slot b.repls j) else slot b.repls j) =
      λ j. ground (arith, s1 j, moved-revert (slot b.repls j)) in
    let z = last_of-revert (slot b.repls) nr in
    elim (Bool-cases (underway (slot b.repls) nr)) [
      | inl u ↦
          let wr : bmap_write nr false out b1 ≡ some (write_result false out b1, out.rc) =
            bmap_write_lem nr i false out b1 h1 lock (c1.held lock).0 (c1.held lock).1 hi
              (ground (arith, s i, v)) in
          (
            record (write_result false out b1) { busy = false; fcmh_busy = false },
            ground (arith, e1, z, u, wr),
            h1,
            s,
            refl,
            refl,
            lock ∙ ground (arith, u),
          )
      | inr u ↦ (
        record b1 { wrlock = false; busy = false; fcmh_busy = false },
        ground (arith, e1, z, u),
        h1,
        s,
        refl,
        refl,
        ground (arith, u),
      )
    ]
