-- ===== src/SlvrCrc.antt =====
-- sliod/slvr_worker.c `slislvrthr_main`, `slislvrthr_proc`, and sliod/slvr.c `slvr_do_crc`: the thread
-- that takes dirty slivers, computes their checksums and gives them back to the LRU list. The checksum
-- of the buffer is an argument; `none` stands for a failed `psc_assert`.
use slash.Prelude.{
  ℕ, List, [], ◌∷◌, ◌++◌, Option, none, some, Bool, true, false, not, ◌&&◌, ◌||◌, ◌==◌, ltb, leb,
  length, if◌then◌else◌,
}
use slash.Slvr.{Slvr, SlvrCache, put_slvr, lc_remove, slvr_remove}

-- MAX_BMAP_NCRC_UPDATES
abbrev pub max_bmap_ncrc_updates : ℕ
max_bmap_ncrc_updates = 64

-- `slvr_2_crc` and `slvr_2_crcbits`: BMAP_SLVR_DATA, BMAP_SLVR_CRC and BMAP_SLVR_CRCABSENT.
pub record CrcSlot : Type 0 where
  pub value : ℕ
  pub has_data : Bool
  pub has_crc : Bool
  pub absent : Bool

-- What `slvr_do_crc` returns: -1, 0, SLERR_CRCABSENT, PFLERR_BADCRC.
pub data CrcRc : Type 0 where
  not_applicable unchecked crc_absent bad_crc : CrcRc

unfoldable pub slvr_do_crc : ℕ → Slvr → CrcSlot → Option (CrcSlot × CrcRc)
slvr_do_crc crc s k =
    if s.crcdirty
    then some (record k { value = crc; has_data = true; has_crc = true }, not_applicable)
    else if not s.faulting
    then none
    else if k.absent
    then some (k, crc_absent)
    else if not (k.has_data && k.has_crc)
    then some (k, unchecked)
    else if crc == k.value
    then some (k, not_applicable)
    else some (k, bad_crc)

-- The scan of `slislvrthr_main` over `sli_crcqslvrs`: the slivers that it takes off the list. `free`
-- says whose lock can be had, `expire` is two seconds ago.
unfoldable pub crc_scan : (ℕ → Bool) → ℕ → List ℕ → List ℕ → SlvrCache → SlvrCache × List ℕ
crc_scan free expire [] ss c = (c, ss)
crc_scan free expire (i ∷ is) ss c = elim (c.slvrs i) [
  | none ↦ crc_scan free expire is ss c
  | some s ↦
      let skip = crc_scan free expire is ss c in
      let c1 = record (put_slvr i (record s { faulting = true }) c) {
        crcqslvrs = lc_remove i c.crcqslvrs;
      } in
      let ss1 = ss ++ (i ∷ []) in
      let full = leb max_bmap_ncrc_updates (length ss) in
      let full1 = leb max_bmap_ncrc_updates (length ss1) in
      let took = crc_scan free expire is ss1 c1 in
      if not (free i) || not (s.refcnt == 0) || s.freeing
      then skip
      else if ltb s.ts expire
      then (if full1 then (c1, ss1) else took)
      else if full
      then (c, ss)
      else skip
]

-- `slislvrthr_proc` up to BII_LOCK, on a sliver that was taken.
unfoldable pub proc_slvr : ℕ → ℕ → CrcSlot → SlvrCache → Option (SlvrCache × CrcSlot)
proc_slvr crc i k c = elim (c.slvrs i) [
  | none ↦ none
  | some s ↦ if s.lru || not s.crcdirty || not s.datardy then none else elim (slvr_do_crc crc s k) [
    | none ↦ none
    | some (k1, unchecked) ↦ none
    | some (k1, _) ↦
        if s.dataerr && s.refcnt == 0
        then some (slvr_remove i c, k1)
        else some (
          record (put_slvr i (record s { lru = true; crcdirty = false; faulting = false }) c) {
            lruslvrs = c.lruslvrs ++ (i ∷ []);
          },
          k1,
        )
  ]
]
