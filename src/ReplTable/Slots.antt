-- ===== src/ReplTable/Slots.antt =====
-- The packed table as 64 independent slots of a state each.
use slash.Prelude.{
  ℕ, ◌+◌, ◌*◌, ◌/◌, ◌%◌, ◌∙◌, inl, inr, Bool-cases, ltb, get_or, set, ◌<◌, ◌≡◌, List, ◌==◌,
  if◌then◌else◌, length, arith, length-set,
}
use slash.ReplTable.{get_bmap_ios_stat, set_bmap_ios_stat, store_first}
use slash.ReplTable.Bytes.{bit, store_first-lt, store_second-lt}
use slash.ReplTable.Bits.{AreBytes, set-AreBytes, get_bmap_ios_stat-bits, bit_at-set_bmap_ios_stat}

-- An array of `sl_replica_nbytes` bytes.
pub record IsTable (ds : List ℕ) : Type 0 where
  pub bytes : AreBytes ds
  pub size : length ds ≡ 24

bits-of : (v : ℕ) → v < 8 → bit v 0 + 2 * bit v 1 + 4 * bit v 2 ≡ v
unfolding bit
bits-of v h = omega arith

bit-lt : (v t : ℕ) → bit v t < 2
unfolding bit
bit-lt v t = omega arith

-- Every bit pattern read is one of the eight states.
pub get_bmap_ios_stat-lt : (ds : List ℕ) (off : ℕ) → IsTable ds → get_bmap_ios_stat ds off < 8
get_bmap_ios_stat-lt ds off t = omega (arith, get_bmap_ios_stat-bits ds off t.bytes, bit-lt)

set-IsTable : (ds : List ℕ) (i w : ℕ) → w < 256 → IsTable ds → IsTable (set ds i w)
set-IsTable ds i w h t = record {
  bytes = set-AreBytes ds i w h t.bytes;
  size = length-set ds i w ∙ t.size;
}

-- A write keeps the array an array of bytes of the same length.
pub set_bmap_ios_stat-IsTable :
    (ds : List ℕ) (off v : ℕ) → IsTable ds → IsTable (set_bmap_ios_stat ds off v)
unfolding set_bmap_ios_stat
set_bmap_ios_stat-IsTable ds off v t = elim (Bool-cases (ltb 8 (off % 8 + 3))) [
  | inl wide ↦ rw wide (set-IsTable _ _ _ (store_second-lt _ _ v) once)
  | inr narrow ↦ rw narrow once
]
  where
    once : IsTable (set ds (off / 8) (store_first (get_or ds (off / 8) 0) (off % 8) v))
    once = set-IsTable ds _ _ (store_first-lt _ _ v) t

-- A write to slot `i` is read back from slot `i`, and leaves what is read from any other slot.
pub get-set_bmap_ios_stat :
    (ds : List ℕ) (i j v : ℕ)
    → IsTable ds
    → v < 8
    → i < 64
    → get_bmap_ios_stat (set_bmap_ios_stat ds (i * 3) v) (j * 3)
      ≡ (if i == j then v else get_bmap_ios_stat ds (j * 3))
get-set_bmap_ios_stat ds i j v t hv hi = ground (
  arith,
  get_bmap_ios_stat-bits (set_bmap_ios_stat ds (i * 3) v) (j * 3)
      (set_bmap_ios_stat-IsTable ds (i * 3) v t).bytes,
  get_bmap_ios_stat-bits ds (j * 3) t.bytes,
  bit_at-set_bmap_ios_stat ds (i * 3) v (j * 3) t.bytes hv,
  bit_at-set_bmap_ios_stat ds (i * 3) v (j * 3 + 1) t.bytes hv,
  bit_at-set_bmap_ios_stat ds (i * 3) v (j * 3 + 2) t.bytes hv,
  bits-of v hv,
  t.size,
)
