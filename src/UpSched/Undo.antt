-- ===== src/UpSched/Undo.antt =====
-- An attempt to arrange a copy that is given up.
use slash.Prelude.{
  ℕ, ◌*◌, ◌≡◌, refl, ◌<◌, none, some, false, ◌==◌, if◌then◌else◌, arith, Bool-cases, inl, inr,
}
use slash.Bandwidth.{Ios}
use slash.Bandwidth.RoundTrip.{SameAssigned, Releases}
use slash.BmapMds.{Bmap}
use slash.BmapWrite.{repl_bmap_rel}
use slash.ReplTable.Slots.{IsTable}
use slash.Residency.Apply.{slot, CanModify}
use slash.Traffic.{calc_repltraffic}
use slash.UpSched.{Attempt, Tried, one_change, unreserve, undo_repl}
use slash.UpSched.Apply.{bmap_apply_lem, repls-rel, rel-CanModify}
use slash.UpSched.Finish.{one_change-IsTract, moved-one}

-- The attempt was given up: nothing is different but the locks and the counts of what is on its way.
pub record GivesUp (b : Bmap) (ios : ℕ → Ios) (t : Tried) : Type 0 where
  pub not_ok : t.ok ≡ false
  pub not_sent : t.sent ≡ none
  pub table : IsTable t.bmap.repls
  pub free : CanModify t.bmap
  pub slots : (j : ℕ) → slot t.bmap.repls j ≡ slot b.repls j
  pub same : SameAssigned ios t.ios

pub unreserve_lem :
    (a : Attempt) (b : Bmap) (ios ios1 : ℕ → Ios)
    → IsTable b.repls
    → CanModify b
    → Releases ios ios1 a.src a.dst (calc_repltraffic a.slivers)
    → (t : Tried) × (unreserve a b ios1 ≡ some t) × GivesUp b ios t
unfolding unreserve
unreserve_lem a b ios ios1 h c (ios2, more, e, same) = (
  record { bmap = b; ios = ios2; sent = none; ok = false },
  ground (arith, e),
  record { not_ok = refl; not_sent = refl; table = h; free = c; slots = λ j. refl; same = same },
)

-- The undoing of a change from QUEUED to SCHED at `k`.
pub undo_repl_lem :
    (a : Attempt) (k : ℕ) (b b1 : Bmap) (ios ios1 : ℕ → Ios)
    → k < 64
    → IsTable b1.repls
    → CanModify b1
    → slot b.repls k ≡ 2
    → ((j : ℕ) → slot b1.repls j ≡ (if k == j then 1 else slot b.repls j))
    → Releases ios ios1 a.src a.dst (calc_repltraffic a.slivers)
    → (t : Tried) × (undo_repl a (k * 3) b1 ios1 ≡ some t) × GivesUp b ios t
unfolding undo_repl
undo_repl_lem a k b b1 ios ios1 hk h c q s r =
    let (b2, e2, h2, l2, s2, g2) =
      bmap_apply_lem b1 (one_change 1 2) none k (one_change-IsTract 1 2 (omega arith)) c h hk in
    let (t, e, g) =
      unreserve_lem a (repl_bmap_rel b2) ios ios1 (rw (repls-rel b2) h2) (rel-CanModify b2 l2) r in
    (
      t,
      ground (arith, e2, e),
      record {
        not_ok = g.not_ok;
        not_sent = g.not_sent;
        table = g.table;
        free = g.free;
        same = g.same;
        slots = λ j.
            let u : slot (repl_bmap_rel b2).repls j ≡ slot b2.repls j = rw (repls-rel b2) refl in
            elim (Bool-cases (k == j)) [
              | inl y ↦
                  let w : k ≡ j = ground arith in
                  let z : slot b.repls j ≡ 2 = rw (← w) q in
                  ground (arith, g.slots j, u, s2 j, s j, moved-one 1 2 (slot b1.repls j), z)
              | inr y ↦ ground (arith, g.slots j, u, s2 j, s j)
            ];
      },
    )
