-- ===== src/ReplTable/Bytes.antt =====
-- The masks of the table's macros on one byte, read bit by bit. Each fact is checked at every value.
use Prim.Native.Nat.{bit_and, bit_or}
use slash.Prelude.{
  ℕ, ◌+◌, ◌-◌, ◌*◌, ◌/◌, ◌%◌, ◌^◌, ◌<◌, ◌≡◌, refl, true, ◌&&◌, ltb, leb, ◌==◌, ==_iff,
  if◌then◌else◌, arith,
}
use slash.Prelude.Table.{tabulated, tabulated-at}
use slash.ReplTable.{store_first, store_second}

-- Bit `t` of a number.
unfoldable pub bit : ℕ → ℕ → ℕ
bit x t = x / 2 ^ t % 2

store_first_table :
    tabulated 8 (λ s. tabulated 8 λ t. tabulated 8 λ v. tabulated 256 λ d.
      bit (store_first d s v) t == (if leb s t && ltb t (s + 3) then bit v (t - s) else bit d t))
    ≡ true
unfolding tabulated store_first bit
store_first_table = refl

store_second_table :
    tabulated 3 (λ j. tabulated 8 λ t. tabulated 8 λ v.
      tabulated 256
        λ d. bit (store_second d j v) t == (if ltb t (3 - j) then bit v (t + j) else bit d t))
    ≡ true
unfolding tabulated store_second bit
store_second_table = refl

-- The first store writes the bits of the value from bit `s` on, as far as the byte goes.
pub bit-store_first :
    (d s v t : ℕ)
    → d < 256
    → s < 8
    → v < 8
    → t < 8
    → bit (store_first d s v) t ≡ (if leb s t && ltb t (s + 3) then bit v (t - s) else bit d t)
bit-store_first d s v t hd hs hv ht = (==_iff _ _).0 (
    tabulated-at 256 _ d
      (tabulated-at 8 _ v (tabulated-at 8 _ t (tabulated-at 8 _ s store_first_table hs) ht) hv) hd)

-- The second store writes the other bits of the value at the foot of the byte.
pub bit-store_second :
    (d j v t : ℕ)
    → d < 256
    → j < 3
    → v < 8
    → t < 8
    → bit (store_second d j v) t ≡ (if ltb t (3 - j) then bit v (t + j) else bit d t)
bit-store_second d j v t hd hj hv ht = (==_iff _ _).0 (
    tabulated-at 256 _ d
      (tabulated-at 8 _ v (tabulated-at 8 _ t (tabulated-at 3 _ j store_second_table hj) ht) hv) hd)

pub store_first-lt : (d s v : ℕ) → store_first d s v < 256
unfolding store_first
store_first-lt d s v = omega arith

pub store_second-lt : (d j v : ℕ) → store_second d j v < 256
unfolding store_second
store_second-lt d j v = omega arith

-- The low three bits of a byte from bit `s` on.
one_byte_table :
    tabulated 6 (λ s.
      tabulated 256
        λ d. bit_and 7 (bit_or (d / 2 ^ s) 0) == (bit d s + 2 * bit d (s + 1) + 4 * bit d (s + 2)))
    ≡ true
unfolding tabulated bit
one_byte_table = refl

pub one_byte :
    (d s : ℕ)
    → d < 256
    → s < 6
    → bit_and 7 (bit_or (d / 2 ^ s) 0) ≡ bit d s + 2 * bit d (s + 1) + 4 * bit d (s + 2)
one_byte d s hd hs = (==_iff _ _).0 (tabulated-at 256 _ d (tabulated-at 6 _ s one_byte_table hs) hd)

six_table :
    tabulated 4 (λ a. tabulated 256 λ e. bit_and 7 (bit_or a (e * 4)) == (a + 4 * (e % 2))) ≡ true
unfolding tabulated
six_table = refl

seven_table :
    tabulated 2 (λ a. tabulated 256 λ e. bit_and 7 (bit_or a (e * 2)) == (a + 2 * (e % 4))) ≡ true
unfolding tabulated
seven_table = refl

-- Two bits at the top of one byte with one bit of the next.
pub bits_at_six :
    (d e : ℕ)
    → d < 256
    → e < 256
    → bit_and 7 (bit_or (d / 64) (e * 4)) ≡ bit d 6 + 2 * bit d 7 + 4 * bit e 0
unfolding bit
bits_at_six d e hd he = omega (
  arith,
  (==_iff _ _).0 (tabulated-at 256 _ e (tabulated-at 4 _ (d / 64) six_table (omega arith)) he),
)

-- One bit at the top of one byte with two of the next.
pub bits_at_seven :
    (d e : ℕ)
    → d < 256
    → e < 256
    → bit_and 7 (bit_or (d / 128) (e * 2)) ≡ bit d 7 + 2 * bit e 0 + 4 * bit e 1
unfolding bit
bits_at_seven d e hd he = omega (
  arith,
  (==_iff _ _).0 (tabulated-at 256 _ e (tabulated-at 2 _ (d / 128) seven_table (omega arith)) he),
)
