-- ===== src/ReplTable/Bits.antt =====
-- The packed table as a string of bits: what the get macro reads and the set macro writes of it.
use slash.Prelude.{
  ℕ, ◌+◌, ◌-◌, ◌*◌, ◌/◌, ◌%◌, ◌<◌, ◌≤◌, ◌≡◌, refl, List, [], ◌∷◌, ◌&&◌, ltb, leb, if◌then◌else◌,
  true, false, length, get_or, set, arith, ◌⊎◌, inl, inr, zero, suc, length-set,
}
use slash.ReplTable.{get_bmap_ios_stat, set_bmap_ios_stat, store_first, store_second}
use slash.ReplTable.Bytes.{
  bit, bit-store_first, bit-store_second, one_byte, bits_at_six, bits_at_seven,
}

-- Every entry is a `uint8_t`.
abbrev pub AreBytes : List ℕ → Type 0
AreBytes [] = Unit {0}
AreBytes (d ∷ ds) = (d < 256) × AreBytes ds

-- Bit `n` of the whole array.
abbrev pub bit_at : List ℕ → ℕ → ℕ
bit_at ds n = bit (get_or ds (n / 8) 0) (n % 8)

pub get_or-lt : (ds : List ℕ) (i : ℕ) → AreBytes ds → get_or ds i 0 < 256
get_or-lt [] i h = omega arith
get_or-lt (d ∷ ds) zero h = h.0
get_or-lt (d ∷ ds) (suc i) h = get_or-lt ds i h.1

pub set-AreBytes : (ds : List ℕ) (i v : ℕ) → v < 256 → AreBytes ds → AreBytes (set ds i v)
set-AreBytes [] i v h b = tt
set-AreBytes (d ∷ ds) zero v h b = (h, b.1)
set-AreBytes (d ∷ ds) (suc i) v h b = (b.0, set-AreBytes ds i v h b.1)

get_or-set :
    (ds : List ℕ) (i k v : ℕ)
    → i < length ds
    → get_or (set ds i v) k 0 ≡ (if leb i k && leb k i then v else get_or ds k 0)
get_or-set [] i k v h = absurd (omega arith)
get_or-set (d ∷ ds) zero zero v h = refl
get_or-set (d ∷ ds) zero (suc k) v h = ground arith
get_or-set (d ∷ ds) (suc i) zero v h = ground arith
get_or-set (d ∷ ds) (suc i) (suc k) v h = ground (arith, get_or-set ds i k v)

shift_cases : (s : ℕ) → s < 8 → (s < 6) ⊎ ((s ≡ 6) ⊎ (s ≡ 7))
shift_cases s h = omega arith

-- A read is the number that three neighbouring bits of the array spell.
pub get_bmap_ios_stat-bits :
    (ds : List ℕ) (off : ℕ)
    → AreBytes ds
    → get_bmap_ios_stat ds off ≡ bit_at ds off + 2 * bit_at ds (off + 1) + 4 * bit_at ds (off + 2)
unfolding get_bmap_ios_stat
get_bmap_ios_stat-bits ds off b = elim (shift_cases (off % 8) (omega arith)) [
  | inl low ↦ ground (arith, one_byte (get_or ds (off / 8) 0) (off % 8) (get_or-lt ds _ b) low)
  | inr (inl six) ↦ rw six (
      ground (
        arith,
        bits_at_six (get_or ds (off / 8) 0) (get_or ds (off / 8 + 1) 0) (get_or-lt ds _ b)
            (get_or-lt ds _ b),
      ))
  | inr (inr seven) ↦ rw seven (
      ground (
        arith,
        bits_at_seven (get_or ds (off / 8) 0) (get_or ds (off / 8 + 1) 0) (get_or-lt ds _ b)
            (get_or-lt ds _ b),
      ))
]

-- A write that ends in its first byte.
bit_at-set_low :
    (ds : List ℕ) (off v n : ℕ)
    → AreBytes ds
    → v < 8
    → off + 2 < 8 * length ds
    → off % 8 < 6
    → bit_at (set ds (off / 8) (store_first (get_or ds (off / 8) 0) (off % 8) v)) n
      ≡ (if leb off n && ltb n (off + 3) then bit v (n - off) else bit_at ds n)
bit_at-set_low ds off v n b hv hl low =
    rw
      (get_or-set ds (off / 8) (n / 8) (store_first (get_or ds (off / 8) 0) (off % 8) v)
        (omega arith))
      (ground (
        arith,
        bit-store_first (get_or ds (off / 8) 0) (off % 8) v (n % 8) (get_or-lt ds _ b) (omega arith)
            hv (omega arith),
      ))

-- A write that goes on into the next byte.
bit_at-set_high :
    (ds : List ℕ) (off v n j : ℕ)
    → AreBytes ds
    → v < 8
    → off + 2 < 8 * length ds
    → 6 ≤ off % 8
    → j + off % 8 ≡ 8
    → let first = set ds (off / 8) (store_first (get_or ds (off / 8) 0) (off % 8) v) in
      bit_at (set first (off / 8 + 1) (store_second (get_or first (off / 8 + 1) 0) j v)) n
      ≡ (if leb off n && ltb n (off + 3) then bit v (n - off) else bit_at ds n)
bit_at-set_high ds off v n j b hv hl high ej =
    let p = off / 8 in
    let w = store_first (get_or ds p 0) (off % 8) v in
    let first = set ds p w in
    rw
      (get_or-set first (p + 1) (n / 8) (store_second (get_or first (p + 1) 0) j v)
        (omega (arith, length-set ds p w)))
      (rw (get_or-set ds p (n / 8) w (omega arith), get_or-set ds p (p + 1) w (omega arith))
        (ground (
          arith,
          bit-store_first (get_or ds p 0) (off % 8) v (n % 8) (get_or-lt ds _ b) (omega arith) hv
              (omega arith),
          bit-store_second (get_or ds (p + 1) 0) j v (n % 8) (get_or-lt ds _ b) (omega arith) hv
              (omega arith),
        )))

-- A write changes the three bits that hold the state, to the state's bits, and no other.
pub bit_at-set_bmap_ios_stat :
    (ds : List ℕ) (off v n : ℕ)
    → AreBytes ds
    → v < 8
    → off + 2 < 8 * length ds
    → bit_at (set_bmap_ios_stat ds off v) n
      ≡ (if leb off n && ltb n (off + 3) then bit v (n - off) else bit_at ds n)
unfolding set_bmap_ios_stat
bit_at-set_bmap_ios_stat ds off v n b hv hl = elim (shift_cases (off % 8) (omega arith)) [
  | inl low ↦ rw (lt8 (off % 8) low) (bit_at-set_low ds off v n b hv hl low)
  | inr high ↦
      rw (ge8 (off % 8) (omega arith))
        (bit_at-set_high ds off v n (3 - (off % 8 + 3 - 8)) b hv hl (omega arith) (omega arith))
]
  where
    lt8 : (s : ℕ) → s < 6 → ltb 8 (s + 3) ≡ false
    lt8 s h = ground arith

    ge8 : (s : ℕ) → 6 ≤ s → ltb 8 (s + 3) ≡ true
    ge8 s h = ground arith
