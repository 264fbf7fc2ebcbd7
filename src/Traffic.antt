-- ===== src/Traffic.antt =====
-- slashd/mds.c `slm_bmap_calc_repltraffic`: how much data a replication of a bmap has to copy.
pub mod Bounds
use slash.Prelude.{ℕ, zero, suc, ◌+◌, ◌-◌, ◌/◌, ◌%◌, Bool, ◌&&◌, ◌==◌, if◌then◌else◌}
use slash.Request.{slash_bmap_size}

abbrev pub slash_slvr_size : ℕ
slash_slvr_size = 1048576

abbrev pub slash_slvrs_per_bmap : ℕ
slash_slvrs_per_bmap = 128

-- What it reads: the size of the file, the number of the bmap, and for each sliver whether
-- BMAP_SLVR_DATA is set.
pub record Slivers : Type 0 where
  pub fsz : ℕ
  pub bno : ℕ
  pub data_at : ℕ → Bool

-- The number of the last bmap of a file of this size, 0 if there is none.
unfoldable pub lastbno : ℕ → ℕ
lastbno fsz = (fsz + (slash_bmap_size - 1)) / slash_bmap_size - 1

-- The part of a size that stands in the last block of that many bytes, which is full at a multiple.
abbrev pub in_last : ℕ → ℕ → ℕ
in_last fsz n = if fsz % n == 0 then n else fsz % n

unfoldable pub lastslvr : ℕ → ℕ
lastslvr fsz = if fsz == 0 then 0 else (in_last fsz slash_bmap_size - 1) / slash_slvr_size

unfoldable pub lastsize : ℕ → ℕ
lastsize fsz = if fsz == 0 then 0 else in_last fsz slash_slvr_size

-- The loop from sliver `i`, with `k` slivers to go; the last sliver of the last bmap ends it.
unfoldable pub tally : Slivers → ℕ → ℕ → ℕ → ℕ
tally s zero i amt = amt
tally s (suc k) i amt =
    let rest = tally s k (i + 1) (if s.data_at i then amt + slash_slvr_size else amt) in
    if s.data_at i && (s.bno == lastbno s.fsz && i == lastslvr s.fsz)
    then amt + lastsize s.fsz
    else rest

unfoldable pub calc_repltraffic : Slivers → ℕ
calc_repltraffic s = tally s slash_slvrs_per_bmap 0 0
