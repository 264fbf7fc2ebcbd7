-- ===== src/UpProc/Paging.antt =====
-- Which bmaps the scheduler takes up when their rows are paged in.
use slash.Prelude.{
  ℕ, ◌+◌, ◌≡◌, refl, some, Bool, true, false, not, ◌||◌, ◌==◌, if◌then◌else◌, arith, Bool-cases,
  inl, inr,
}
use slash.Prelude.Below.{some_below, some_below-at}
use slash.BmapMds.{Bmap}
use slash.BmapWrite.Laws.{glanced-wrlock}
use slash.ReplTable.Slots.{IsTable}
use slash.Request.LastReplica.{some_below-found}
use slash.Residency.{upto, visited, walk, bmap_walk, bmap_walk_all}
use slash.Residency.Apply.{slot}
use slash.Residency.Query.{first_of, look_each_lem, first_of-zero, first_of-found, glanced}
use slash.Residency.Visited.{iosidx_in-upto}
use slash.UpProc.{pagein_unit, pagein_retif}

-- Some replica is to be copied or to be truncated.
abbrev pub wanted : (ℕ → ℕ) → ℕ → Bool
wanted f nr = some_below (λ j. f j == 2 || f j == 4) nr

first_of-pagein :
    (f : ℕ → ℕ) (nr : ℕ) → (first_of (some pagein_retif) f (upto nr) 0 == 0) ≡ not (wanted f nr)
first_of-pagein f nr = elim (Bool-cases (wanted f nr)) [
  | inl v ↦
      let (j, hj, q) = some_below-found (λ j. f j == 2 || f j == 4) nr v in
      ground (arith, first_of-zero pagein_retif f (upto nr) j, iosidx_in-upto j nr)
  | inr nv ↦ elim (Bool-cases (first_of (some pagein_retif) f (upto nr) 0 == 0)) [
    | inl z ↦ ground arith
    | inr nz ↦
        let (j, m, e) = first_of-found pagein_retif f (upto nr) (ground arith) in
        ground (arith, some_below-at (λ k. f k == 2 || f k == 4) nr j, iosidx_in-upto j nr)
  ]
]

abbrev pub PagesIn : ℕ → Bmap → Type 0
PagesIn nr b =
    (b' : Bmap) × (pagein_unit nr b ≡ some (b', not (wanted (slot b.repls) nr)))
    × (b'.repls ≡ b.repls)
    × (b'.enqueued ≡ (if wanted (slot b.repls) nr then b.enqueued + 1 else b.enqueued))
    × (b'.wrlock ≡ false)
    × (b'.busy ≡ false)

-- A bmap that is paged in is put on the queue of the scheduler if one of its replicas is QUEUED or
-- TRUNCPNDG, and otherwise its rows are purged, also if a replica is GARBAGE. The table stays, and
-- neither the write lock nor the busy flag is held afterwards.
pub pagein_unit_lem : (nr : ℕ) (b : Bmap) → IsTable b.repls → PagesIn nr b
unfolding pagein_unit bmap_walk_all bmap_walk walk visited
pagein_unit_lem nr b h =
    let b0 : Bmap = record b { busy = true; wrlock = true } in
    let look = look_each_lem (some pagein_retif) b.repls (upto nr) b0 0 h refl in
    let g : glanced (upto nr) b0 ≡ b0 = glanced-wrlock (upto nr) b0 refl in
    let z = first_of-pagein (slot b.repls) nr in
    let b2 : Bmap = record b { busy = false; wrlock = false } in
    elim (Bool-cases (wanted (slot b.repls) nr)) [
      | inl w ↦ (
        record b2 { enqueued = b.enqueued + 1 },
        ground (arith, look, g, z, w),
        refl,
        ground (arith, w),
        refl,
        refl,
      )
      | inr w ↦ (b2, ground (arith, look, g, z, w), refl, ground (arith, w), refl, refl)
    ]
