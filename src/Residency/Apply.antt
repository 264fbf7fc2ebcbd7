-- ===== src/Residency/Apply.antt =====
-- `_mds_repl_bmap_apply` on one slot of the table.
use slash.Prelude.{
  ℕ, ◌*◌, ◌/◌, ◌≡◌, refl, ◌<◌, List, Option, none, some, true, false, not, ◌&&◌, ◌==◌,
  if◌then◌else◌, arith, Option-cases, inl, inr,
}
use slash.BmapMds.{Bmap}
use slash.ReplTable.{get_bmap_ios_stat}
use slash.ReplTable.Slots.{
  IsTable, get_bmap_ios_stat-lt, get-set_bmap_ios_stat, set_bmap_ios_stat-IsTable,
}
use slash.Residency.{
  Tract, Retif, modify_start, read_start, apply_start, apply_end, translate, retif, apply_locked,
  apply,
}

-- The state of the I/O system with index `k`.
abbrev pub slot : List ℕ → ℕ → ℕ
slot repls k = get_bmap_ios_stat repls (k * 3)

-- A change may start: nothing of an earlier change is still to be written, and a thread with the
-- write lock has both busy flags.
pub record CanModify (b : Bmap) : Type 0 where
  pub clean : b.replmodwr ≡ false
  pub held : b.wrlock ≡ true → (b.fcmh_busy ≡ true) × (b.busy ≡ true)

-- The bmap once it is locked for a change.
abbrev pub locked : Bmap → Bmap
locked b = record b {
  fcmh_busy = true;
  busy = true;
  wrlock = true;
  orepls = if b.wrlock then b.orepls else b.repls;
}

pub locked-CanModify : (b : Bmap) → CanModify b → CanModify (locked b)
locked-CanModify b c = record { clean = c.clean; held = λ _. (refl, refl) }

-- The bmap once it was looked at.
abbrev pub looked : Bmap → Bmap
looked b = if not b.wrlock && not b.rdlock then record b { busy = false; rdlock = false } else b

modify_start-locked : (b : Bmap) → CanModify b → modify_start b ≡ some (locked b)
unfolding modify_start
modify_start-locked b c = ground (arith, c.held)

-- One slot after a change.
unfoldable pub moved : Tract → ℕ → ℕ
moved t v = elim (t v) [ none ↦ v | some w ↦ w ]

pub translate-IsTable :
    (t : Option Tract) (repls : List ℕ) (off val : ℕ)
    → IsTable repls
    → IsTable (translate t repls off val)
unfolding translate
translate-IsTable none repls off val h = h
translate-IsTable (some t) repls off val h = elim (Option-cases (t val)) [
  | inl e ↦ rw e h
  | inr (w, e) ↦ rw e (set_bmap_ios_stat-IsTable repls off w h)
]

-- The states that a change can lead to are states.
abbrev pub IsTract : Tract → Type 0
IsTract t = (v w : ℕ) → t v ≡ some w → w < 8

pub slot-translate :
    (t : Tract) (repls : List ℕ) (k j : ℕ)
    → IsTract t
    → IsTable repls
    → k < 64
    → slot (translate (some t) repls (k * 3) (slot repls k)) j
      ≡ (if k == j then moved t (slot repls j) else slot repls j)
unfolding translate moved
slot-translate t repls k j ht h hk = elim (Option-cases (t (slot repls k))) [
  | inl e ↦ rw e (ground arith)
  | inr (w, e) ↦ rw e (ground (arith, get-set_bmap_ios_stat repls k j w h (ht _ w e) hk))
]

module _ {S : Type 0} (cbf : ℕ → ℕ → S → S) (arg : S) (rs : Option Retif) where
  apply_locked-plain :
      (b : Bmap) (t : Option Tract) (k : ℕ)
      → IsTable b.repls
      → apply_locked b t rs false (k * 3) cbf arg
        ≡ some (
          record b { repls = translate t b.repls (k * 3) (slot b.repls k) },
          retif rs (slot b.repls k),
          false,
          cbf (k * 3 / 3) (slot b.repls k) arg,
        )
  unfolding apply_locked
  apply_locked-plain b t k h = ground (arith, get_bmap_ios_stat-lt b.repls (k * 3) h)

  -- A call with a table of changes, and no short circuit, locks the bmap and changes the one slot.
  pub apply-change :
      (b : Bmap) (t : Tract) (k : ℕ)
      → CanModify b
      → IsTable b.repls
      → apply b (some t) rs false (k * 3) cbf arg
        ≡ some (
          record (locked b) { repls = translate (some t) b.repls (k * 3) (slot b.repls k) },
          retif rs (slot b.repls k),
          false,
          cbf k (slot b.repls k) arg,
        )
  unfolding apply apply_start apply_end
  apply-change b t k c h =
      ground (arith, modify_start-locked b c, apply_locked-plain (locked b) (some t) k h)

  -- A call with none leaves the bmap as it was but for the busy flag, which it clears if it takes
  -- the read lock.
  pub apply-look :
      (b : Bmap) (k : ℕ)
      → IsTable b.repls
      → apply b none rs false (k * 3) cbf arg
        ≡ some (looked b, retif rs (slot b.repls k), false, cbf k (slot b.repls k) arg)
  unfolding apply apply_start read_start apply_end translate apply_locked
  apply-look b k h = ground (arith, get_bmap_ios_stat-lt b.repls (k * 3) h)

  -- With the short circuit asked for, it is taken when there is a value to return.
  pub apply-query :
      (b : Bmap) (k : ℕ)
      → IsTable b.repls
      → apply b none rs true (k * 3) cbf arg
        ≡ some (
          looked b,
          retif rs (slot b.repls k),
          not (retif rs (slot b.repls k) == 0),
          cbf k (slot b.repls k) arg,
        )
  unfolding apply apply_start read_start apply_end translate apply_locked
  apply-query b k h = ground (arith, get_bmap_ios_stat-lt b.repls (k * 3) h)
