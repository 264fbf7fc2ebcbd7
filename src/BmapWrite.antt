-- ===== src/BmapWrite.antt =====
-- slashd/bmap_mds.c `mds_bmap_ensure_valid` and `mds_bmap_write`, with `mdslog_bmap_repls` of
-- slashd/mdslog.c, which a logged write runs; and `_slm_repl_bmap_rel_type` of slashd/repl_mds.c.
-- The write itself is the file system's: its outcome is an argument.
pub mod Laws
use slash.Prelude.{
  ℕ, zero, suc, ◌+◌, List, [], ◌∷◌, Option, none, some, Bool, true, false, not, ◌&&◌, ◌||◌, ◌==◌,
  if◌then◌else◌,
}
use slash.BmapMds.{
  Bmap, breplst_valid, breplst_garbage, breplst_garbage_sched, breplst_truncpndg,
  breplst_truncpndg_sched,
}
use slash.Residency.{Retif, arr_set, brepls_init, bmap_walk_all}

-- The outcome of `mdsio_pwritev` with the check for a short write: the return code, and whether the
-- log callback was run.
pub record WriteOutcome : Type 0 where
  pub rc : ℕ
  pub logged : Bool

abbrev pub ensure_valid_retif : Retif
ensure_valid_retif =
    arr_set
      (arr_set
        (arr_set (arr_set (arr_set (brepls_init 0) breplst_valid 1) breplst_garbage 1)
          breplst_garbage_sched 1)
        breplst_truncpndg 1)
      breplst_truncpndg_sched 1

-- `mds_bmap_ensure_valid`: `none` is its fatal message.
unfoldable pub ensure_valid : ℕ → Bmap → Option Bmap
ensure_valid nr b = elim (bmap_walk_all nr b none (some ensure_valid_retif) true) [
  | none ↦ none
  | some (b', rc) ↦ if rc == 0 then none else some b'
]

-- `mdslog_bmap_repls`, whose fill of the entry asserts that the file and the bmap are busy.
unfoldable pub mdslog_bmap_repls : Bmap → Option Bmap
mdslog_bmap_repls b =
    if b.fcmh_busy && b.busy
    then some (record b { journal = b.repls ∷ b.journal; replmodwr = true; work = b.work + 1 })
    else none

-- `mds_bmap_write`; the flag tells whether it is given `mdslog_bmap_repls`. A thread with no mode of
-- the lock takes the read mode, and the read mode is dropped at the end.
unfoldable pub bmap_write : ℕ → Bool → WriteOutcome → Bmap → Option (Bmap × ℕ)
bmap_write nr logf out b =
    elim (ensure_valid nr (record b { rdlock = if b.wrlock then b.rdlock else true })) [
      | none ↦ none
      | some b1 ↦ elim (if logf && out.logged then mdslog_bmap_repls b1 else some b1) [
        | none ↦ none
        | some b2 ↦ some (record b2 { rdlock = false }, out.rc)
      ]
    ]

-- `_slm_repl_bmap_rel_type`, less the reference that it drops.
unfoldable pub repl_bmap_rel : Bmap → Bmap
repl_bmap_rel b =
    if b.wrlock && not b.replmodwr
    then record b { wrlock = false; busy = false; fcmh_busy = false }
    else b
