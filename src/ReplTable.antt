-- ===== src/ReplTable.antt =====
-- include/bmap.h and include/cache_params.h: the packed table of replica states of a bmap, three
-- bits to an I/O system, in an array of bytes.
pub mod Bytes
pub mod Bits
pub mod Slots
use Prim.Native.Nat.{bit_and, bit_or}
use slash.Prelude.{ℕ, ◌+◌, ◌-◌, ◌*◌, ◌/◌, ◌%◌, ◌^◌, List, ltb, if◌then◌else◌, get_or, set}

-- NBBY
abbrev pub nbby : ℕ
nbby = 8

abbrev pub sl_bits_per_replica : ℕ
sl_bits_per_replica = 3

abbrev pub sl_max_replicas : ℕ
sl_max_replicas = 64

abbrev pub sl_replica_mask : ℕ
sl_replica_mask = 2 ^ sl_bits_per_replica - 1

abbrev pub sl_replica_nbytes : ℕ
sl_replica_nbytes = sl_max_replicas * sl_bits_per_replica / nbby

-- `x << k` and `x >> k`; no operand below reaches the width of an `int`.
abbrev shl : ℕ → ℕ → ℕ
shl x k = x * 2 ^ k

abbrev shr : ℕ → ℕ → ℕ
shr x k = x / 2 ^ k

-- `~x` on a 32-bit `int`, as a bit pattern.
abbrev compl : ℕ → ℕ
compl x = 2 ^ 32 - 1 - x

-- A store to a `uint8_t` keeps the low eight bits.
abbrev uint8 : ℕ → ℕ
uint8 x = x % 256

-- SL_REPL_GET_BMAP_IOS_STAT
unfoldable pub get_bmap_ios_stat : List ℕ → ℕ → ℕ
get_bmap_ios_stat data_ off = bit_and sl_replica_mask (
    bit_or (shr (get_or data_ (off / nbby) 0) (off % nbby)) (
      if ltb nbby (off % nbby + sl_bits_per_replica)
      then shl (get_or data_ (off / nbby + 1) 0)
          (sl_bits_per_replica - (off % nbby + sl_bits_per_replica - nbby))
      else 0))

-- The first assignment of SL_REPL_SET_BMAP_IOS_STAT, to the byte that holds the lowest bit.
unfoldable pub store_first : ℕ → ℕ → ℕ → ℕ
store_first byte s val = uint8 (bit_or (bit_and byte (compl (shl sl_replica_mask s))) (shl val s))

-- The second, to the byte after it, for the bits that do not fit in the first.
unfoldable pub store_second : ℕ → ℕ → ℕ → ℕ
store_second byte j val = uint8 (bit_or (bit_and byte (compl (shr sl_replica_mask j))) (shr val j))

-- SL_REPL_SET_BMAP_IOS_STAT. `_j > 0` is the test `ltb`, since `-` stops at 0 here.
unfoldable pub set_bmap_ios_stat : List ℕ → ℕ → ℕ → List ℕ
set_bmap_ios_stat data_ off val =
    let s = off % nbby in
    let first = set data_ (off / nbby) (store_first (get_or data_ (off / nbby) 0) s val) in
    if ltb nbby (s + sl_bits_per_replica)
    then (let j = sl_bits_per_replica - (s + sl_bits_per_replica - nbby) in
        set first (off / nbby + 1) (store_second (get_or first (off / nbby + 1) 0) j val))
    else first
