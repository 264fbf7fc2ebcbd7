-- ===== src/Crc.antt =====
-- New checksums of a bmap from an I/O server: `mds_bmap_crc_write` of slashd/mds.c,
-- `mds_bmap_crc_update` of slashd/bmap_mds.c, `mdslog_bmap_crc` of slashd/mdslog.c, and the replay of
-- its entries in slashd/jreplay.c. Finding the file, the wake-ups and the mode bits of the file are left
-- out; the write is an outcome. `none` stands for a failed assertion or a fatal message.
pub mod Log
pub mod Recover
pub mod Update
use mathlib.Core.Option
use slash.Prelude.{
  ℕ, zero, suc, ◌+◌, ◌-◌, ◌*◌, ◌/◌, List, [], ◌∷◌, ◌++◌, none, some, Bool, true, false, not, ◌&&◌,
  ◌||◌, ltb, ◌==◌, if◌then◌else◌, length, take, drop,
}
use slash.Prelude.{Option}
use slash.BmapMds.{
  Bmap, breplst_repl_queued, breplst_valid, breplst_truncpndg, breplst_truncpndg_sched,
  breplst_garbage, brpol_persist,
}
use slash.BmapWrite.{WriteOutcome, ensure_valid}
use slash.Errors.{Rc, done, fail, ebadf, einval, slerr_gen_old, slerr_gen_invalid}
use slash.InvExcept.{inv_except}
use slash.Request.{write_logrepls}
use slash.Residency.{Tract, arr_set, brepls_init, walk}
use slash.UpSched.{bmap_apply, one_change}

-- `struct srt_bmap_crcwire`
pub record CrcWire : Type 0 where
  pub slot : ℕ
  pub crc : ℕ

-- `struct srm_bmap_crcup`, less the names of file and bmap; the count of updates is the length.
pub record Crcup : Type 0 where
  pub gen : ℕ
  pub nblks : ℕ
  pub extend : Bool
  pub crcs : List CrcWire

-- The checksums and the flags of the slivers: BMAP_SLVR_DATA | BMAP_SLVR_CRC is 3.
pub record SliverTable : Type 0 where
  pub crcs : ℕ → ℕ
  pub states : ℕ → ℕ

-- What one update does, and what its replay does, which keeps the other flags.
unfoldable pub set_crc : CrcWire → SliverTable → SliverTable
set_crc c s = record { crcs = arr_set s.crcs c.slot c.crc; states = arr_set s.states c.slot 3 }

unfoldable pub replay_crc : CrcWire → SliverTable → SliverTable
replay_crc c s = record {
  crcs = arr_set s.crcs c.slot c.crc;
  states = arr_set s.states c.slot (s.states c.slot / 4 * 4 + 3);
}

unfoldable pub set_crcs : List CrcWire → SliverTable → SliverTable
set_crcs [] s = s
set_crcs (c ∷ cs) s = set_crcs cs (set_crc c s)

unfoldable pub replay_crcs : List CrcWire → SliverTable → SliverTable
replay_crcs [] s = s
replay_crcs (c ∷ cs) s = replay_crcs cs (replay_crc c s)

-- `struct slmds_jent_bmap_crc`: whether the size of the file is extended, and the updates.
pub record CrcEntry : Type 0 where
  pub extend : Bool
  pub crcs : List CrcWire

abbrev pub ncrcs : ℕ
ncrcs = 24

-- The loop of `mdslog_bmap_crc` over what is left of the updates, with the flag `distill`; `none` is
-- running out of fuel.
unfoldable pub crc_entries : ℕ → Bool → List CrcWire → Option (List CrcEntry)
crc_entries fuel distill [] = some []
crc_entries zero distill (c ∷ cs) = none
crc_entries (suc fuel) distill (c ∷ cs) = elim (crc_entries fuel false (drop ncrcs (c ∷ cs))) [
  | none ↦ none
  | some es ↦ some (record { extend = distill; crcs = take ncrcs (c ∷ cs) } ∷ es)
]

-- The replay of the entries, oldest first.
unfoldable pub replay_entries : List CrcEntry → SliverTable → SliverTable
replay_entries [] s = s
replay_entries (e ∷ es) s = replay_entries es (replay_crcs e.crcs s)

-- The bmap with its slivers, BMAPF_CRC_UP, and what was logged of checksums, oldest first.
pub record CrcBmap : Type 0 where
  pub bmap : Bmap
  pub slivers : SliverTable
  pub crc_up : Bool
  pub entries : List CrcEntry

-- `mdslog_bmap_crc`, which drops the lock first.
unfoldable pub mdslog_bmap_crc : Crcup → CrcBmap → Option CrcBmap
mdslog_bmap_crc c b =
    if not b.crc_up then none else elim (crc_entries (length c.crcs) c.extend c.crcs) [
      | none ↦ none
      | some es ↦ some (record b {
        bmap = record b.bmap { wrlock = false; rdlock = false };
        crc_up = false;
        entries = b.entries ++ es;
      })
    ]

-- `mds_bmap_write` with that callback, under the write lock.
unfoldable pub crc_bmap_write : ℕ → WriteOutcome → Crcup → CrcBmap → Option (CrcBmap × ℕ)
crc_bmap_write nr out c b = elim (ensure_valid nr b.bmap) [
  | none ↦ none
  | some b1 ↦
      elim (if out.logged
        then mdslog_bmap_crc c (record b { bmap = b1 })
        else some (record b { bmap = b1 })) [ none ↦ none | some b2 ↦ some (b2, out.rc) ]
]

-- BMAPOD_MODIFY_DONE, BMAP_UNBUSY and FCMH_UNBUSY.
unfoldable pub modify_end : Bmap → Option Bmap
modify_end b =
    if b.busy && b.fcmh_busy
    then some (record b { wrlock = false; busy = false; fcmh_busy = false })
    else none

-- The first half of `mds_bmap_crc_update`: the other replicas are out of date.
unfoldable pub crc_invalidate : ℕ → WriteOutcome → ℕ → Bmap → Option Bmap
crc_invalidate nr out idx b = elim (inv_except nr out (record b { fcmh_busy = true }) idx true) [
  | none ↦ none
  | some (b1, rc) ↦ if rc == 0 then modify_end b1 else write_logrepls nr out b1
]

-- `mds_bmap_crc_update`, with the index of the server if it is found, and the outcomes of the write of
-- the table and of the last write. The block counts of the file are left out.
unfoldable pub crc_update :
    ℕ → WriteOutcome → WriteOutcome → Option ℕ → Crcup → CrcBmap → Option (CrcBmap × ℕ)
crc_update nr out1 out2 none c b = none
crc_update nr out1 out2 (some idx) c b =
    if not b.crc_up then none else elim (crc_invalidate nr out1 idx b.bmap) [
      | none ↦ none
      | some b1 ↦
          crc_bmap_write nr out2 c
            (record b { bmap = record b1 { wrlock = true }; slivers = set_crcs c.crcs b.slivers })
    ]

abbrev ptrunc_tract : Tract
ptrunc_tract =
    arr_set (one_change breplst_truncpndg breplst_valid) breplst_truncpndg_sched
      (some breplst_valid)

-- What SRM_BMAPCRCWRT_PTRUNC does to the table.
unfoldable pub crc_ptrunc : ℕ → ℕ → Bmap → Option Bmap
crc_ptrunc nr idx b = elim (bmap_apply b ptrunc_tract none (3 * idx)) [
  | none ↦ none
  | some (b1, rc1) ↦
      elim (walk nr b1
        (some (
          one_change breplst_truncpndg
            (if b1.replpol == brpol_persist then breplst_repl_queued else breplst_garbage)))
        none false true (idx ∷ []) (λ i v s. s) (tt {0})) [
          | none ↦ none
          | some (b2, rc2, s) ↦ some (record b2 { wrlock = false })
        ]
]

-- What `mds_bmap_crc_write` knows: the generation of the file, the error of `bmap_lookup`, the server
-- with the write lease, the index of the sender, the outcomes of the writes, and the number
-- PFLERR_ALREADY.
pub record CrcSite : Type 0 where
  pub gen : ℕ
  pub lookup : Option ℕ
  pub wr_ion : Option ℕ
  pub idx : Option ℕ
  pub out1 : WriteOutcome
  pub out2 : WriteOutcome
  pub already : ℕ

abbrev is_ion : ℕ → Option ℕ → Bool
is_ion ios none = false
is_ion ios (some x) = x == ios

-- The end of it: the truncation if it is asked for, which a server that is not found skips.
unfoldable pub crc_write_end : ℕ → Bool → Option ℕ → CrcBmap × ℕ → Option (CrcBmap × Rc)
crc_write_end nr ptrunc none (b, rc) = some (b, done rc)
crc_write_end nr ptrunc (some idx) (b, rc) =
    if ptrunc
    then Option.map (λ b'. (record b { bmap = b' }, done rc)) (crc_ptrunc nr idx b.bmap)
    else some (b, done rc)

-- `mds_bmap_crc_write` for a file that was found; the code of a write is returned as it is.
unfoldable pub crc_write : ℕ → CrcSite → ℕ → Bool → Crcup → CrcBmap → Option (CrcBmap × Rc)
crc_write nr e ios ptrunc c b =
    if ltb c.gen e.gen
    then some (b, fail slerr_gen_old)
    else if ltb e.gen c.gen
    then some (b, fail slerr_gen_invalid)
    else elim e.lookup [
      | some err ↦ some (b, fail ebadf)
      | none ↦
          if not (is_ion ios e.wr_ion)
          then some (b, fail einval)
          else if b.crc_up
          then some (b, fail e.already)
          else elim (crc_update nr e.out1 e.out2 e.idx c (record b { crc_up = true })) [
            | none ↦ none
            | some r ↦ crc_write_end nr ptrunc e.idx r
          ]
    ]
