-- ===== src/UpSched/Apply.antt =====
-- `mds_repl_bmap_apply` on one slot, as the scheduler calls it, and the lemmas on what follows it.
use slash.Prelude.{ℕ, ◌*◌, ◌≡◌, refl, ◌<◌, Option, some, true, false, ◌==◌, if◌then◌else◌, arith}
use slash.BmapMds.{Bmap}
use slash.BmapWrite.{WriteOutcome, repl_bmap_rel}
use slash.BmapWrite.Laws.{write_result, bmap_write_lem}
use slash.ReplTable.Slots.{IsTable}
use slash.Request.{write_logrepls}
use slash.Residency.{Tract, Retif, retif}
use slash.Residency.Apply.{
  slot, CanModify, moved, IsTract, apply-change, slot-translate, translate-IsTable,
}
use slash.Residency.Walk.{visit}
use slash.UpSched.{bmap_apply}

-- The bmap is locked for a change by this thread, and nothing is to be written yet.
pub record IsLocked (b : Bmap) : Type 0 where
  pub clean : b.replmodwr ≡ false
  pub write : b.wrlock ≡ true
  pub file : b.fcmh_busy ≡ true
  pub busy : b.busy ≡ true

pub locked-CanModify : (b : Bmap) → IsLocked b → CanModify b
locked-CanModify b l = record { clean = l.clean; held = λ _. (l.file, l.busy) }

-- One slot changes, the return code is the value of what it held, and the bmap is locked afterwards.
abbrev pub Applies : Bmap → Tract → Option Retif → ℕ → Type 0
Applies b t r k =
    (b' : Bmap) × (bmap_apply b t r (k * 3) ≡ some (b', retif r (slot b.repls k)))
    × IsTable b'.repls
    × IsLocked b'
    × ((j : ℕ) → slot b'.repls j ≡ (if k == j then moved t (slot b.repls j) else slot b.repls j))
    × (b'.bgen ≡ b.bgen)

pub bmap_apply_lem :
    (b : Bmap) (t : Tract) (r : Option Retif) (k : ℕ)
    → IsTract t
    → CanModify b
    → IsTable b.repls
    → k < 64
    → Applies b t r k
unfolding bmap_apply
bmap_apply_lem b t r k ht c h hk = (
  visit t k b,
  rw (apply-change (λ i v s. s) (tt {0}) r b t k c h) refl,
  translate-IsTable (some t) b.repls (k * 3) (slot b.repls k) h,
  record { clean = c.clean; write = refl; file = refl; busy = refl },
  λ j. slot-translate t b.repls k j ht h hk,
  refl,
)

-- A logged write of a locked table with a valid replica.
pub write_logrepls_lem :
    (nr j : ℕ) (out : WriteOutcome) (b : Bmap)
    → IsTable b.repls
    → IsLocked b
    → j < nr
    → slot b.repls j ≡ 3
    → write_logrepls nr out b ≡ some (write_result true out b)
write_logrepls_lem nr j out b h l hj v =
    rw (bmap_write_lem nr j true out b h l.write l.file l.busy hj v) refl

pub repls-rel : (b : Bmap) → (repl_bmap_rel b).repls ≡ b.repls
unfolding repl_bmap_rel
repls-rel b = ground arith

pub repls-written : (out : WriteOutcome) (b : Bmap) → (write_result true out b).repls ≡ b.repls
repls-written out b = ground arith

-- A locked bmap that was not written is free after the release.
pub rel-CanModify : (b : Bmap) → IsLocked b → CanModify (repl_bmap_rel b)
unfolding repl_bmap_rel
rel-CanModify b l = record {
  clean = ground (arith, l.clean, l.write);
  held = λ e. absurd (ground (arith, l.clean, l.write, e));
}
