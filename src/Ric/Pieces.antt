-- ===== src/Ric/Pieces.antt =====
-- The parts of a request by sliver.
use slash.Prelude.{
  ℕ, ◌+◌, ◌-◌, ◌*◌, ◌/◌, ◌%◌, ◌^◌, ◌≤◌, ◌<◌, ◌≡◌, List, [], ◌∷◌, some, true, ltb, arith, Bool-cases,
  inl, inr,
}
use slash.Request.{slash_bmap_size}
use slash.Traffic.{slash_slvr_size, slash_slvrs_per_bmap}
use slash.Ric.{
  Piece, pieces_of, split_io, nslvrs_of, in_range, add32, slash_slvr_blksz, BlockWrite, write_loop,
  write_sliver,
}

-- Parts that follow one another from one offset in the bmap to another, none empty, each within one
-- of the slivers of a bmap.
abbrev pub Covers : ℕ → List Piece → ℕ → Type 0
Covers pos [] end = pos ≡ end
Covers pos (p ∷ ps) end =
    (p.slvr * slash_slvr_size + p.roff ≡ pos)
    × (0 < p.len)
    × (p.roff + p.len ≤ slash_slvr_size)
    × (p.slvr < slash_slvrs_per_bmap)
    × Covers (pos + p.len) ps end

-- A request of at least one byte and at most a sliver, within the bmap, is split into parts that follow
-- one another from its start to its end, and nothing of it is left.
pub pieces_of-Covers :
    (offset size : ℕ)
    → 0 < size
    → size ≤ slash_slvr_size
    → offset + size ≤ slash_bmap_size
    → Covers offset (pieces_of offset size).0 (offset + size) × ((pieces_of offset size).1 ≡ 0)
unfolding split_io
pieces_of-Covers offset size a b c =
    elim (Bool-cases (ltb (offset / slash_slvr_size) ((add32 offset size - 1) / slash_slvr_size))) [
      | inl e ↦ rw e (ground arith)
      | inr e ↦ rw e (ground arith)
    ]

-- Writes of blocks that follow one another from one offset in the bmap to another, each within a
-- sliver.
abbrev pub Writes : ℕ → List BlockWrite → ℕ → Type 0
Writes pos [] end = pos ≡ end
Writes pos (w ∷ ws) end =
    (w.slvr * slash_slvr_size + w.sblk * slash_slvr_blksz ≡ pos)
    × (w.sblk * slash_slvr_blksz + w.bytes ≤ slash_slvr_size)
    × Writes (pos + w.bytes) ws end

-- The offset of the block in which a request starts.
abbrev pub block_start : ℕ → ℕ
block_start offset = offset - offset % slash_slvr_blksz

-- For a request of at least one byte and at most a sliver within the bmap, the writes to the file do
-- not fail an assertion, however they turn out; if none fails, they follow one another from the start
-- of the block in which the request starts to the end of the request.
pub write_sliver_lem :
    (rc_of : ℕ → ℕ) (offset size : ℕ)
    → 0 < size
    → size ≤ slash_slvr_size
    → offset + size ≤ slash_bmap_size
    → (ws : List BlockWrite) × (rc : ℕ) × (write_sliver rc_of offset size ≡ some (ws, rc))
      × (rc ≡ 0 → Writes (block_start offset) ws (offset + size))
unfolding write_sliver write_loop
write_sliver_lem rc_of offset size a b c =
    let i = offset / slash_slvr_size in
    let t =
      write_loop rc_of (nslvrs_of offset size) i ((offset - i * slash_slvr_size) / slash_slvr_blksz)
        (size + (offset - i * slash_slvr_size) % slash_slvr_blksz) in
    (t.0, t.2, ground arith, λ z. ground arith)

-- The range check adds in 32 bits: a request of at most a sliver whose end is past 2 ^ 32 passes it,
-- and its first sliver is number 4095, where a bmap has 128.
pub in_range-wraps :
    (offset size : ℕ)
    → offset < 2 ^ 32
    → size ≤ slash_slvr_size
    → 2 ^ 32 ≤ offset + size
    → (in_range offset size ≡ true) × (offset / slash_slvr_size ≡ 4095)
in_range-wraps offset size a b c = (ground arith, omega arith)
