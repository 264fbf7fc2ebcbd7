-- ===== src/Replay.antt =====
-- slashd/jreplay.c, with the entries that slashd/mdslog.c fills: the journal's entries for the replicas
-- of a bmap, for those of a file, and for the sequence numbers of leases. Finding the file and the
-- bmap, and the writes, are outcomes. `none` stands for a failed assertion or a fatal message.
pub mod Repls
pub mod Ino
pub mod Seq
use mathlib.Core.Option
use slash.Prelude.{
  ℕ, zero, suc, ◌*◌, List, [], ◌∷◌, ◌++◌, none, some, Bool, true, false, not, ◌&&◌, ◌||◌, ltb, leb,
  ◌==◌, if◌then◌else◌, take, drop, get_or,
}
use slash.Prelude.{Option}
use slash.BmapMds.{
  Bmap, insert_job, breplst_repl_queued, breplst_valid, breplst_garbage, breplst_garbage_sched,
  breplst_truncpndg, breplst_truncpndg_sched,
}
use slash.BmapWrite.{WriteOutcome, bmap_write}
use slash.Inode.{Inoh, InoxRead, sl_def_replicas, ensure_loaded}
use slash.ReplTable.{get_bmap_ios_stat, sl_bits_per_replica}
use slash.Request.{empty_tract}
use slash.Residency.{bmap_walk_all}
use slash.UpProc.{revert_tract}
use slash.UpdWrite.{repl_upd_write, known_of}

abbrev max_replicas : ℕ
max_replicas = 64

-- `struct slmds_jent_bmap_repls`, less the names of file and bmap.
pub record BmapRepls : Type 0 where
  pub bgen : ℕ
  pub replpol : ℕ
  pub nrepls : ℕ
  pub repls : List ℕ

-- `mdslogfill_bmap_repls`, with the policy and the number of replicas of the file.
unfoldable pub fill_bmap_repls : ℕ → ℕ → Bmap → Option BmapRepls
fill_bmap_repls replpol nr b =
    if b.fcmh_busy && b.busy
    then some (record { bgen = b.bgen; replpol = replpol; nrepls = nr; repls = b.repls })
    else none

-- A state that `mds_brepls_check` is content with.
abbrev pub is_fit : ℕ → Bool
is_fit v =
    v == breplst_valid
    || (v == breplst_garbage
        || (v == breplst_garbage_sched || (v == breplst_truncpndg || v == breplst_truncpndg_sched)))

unfoldable pub fit_below : List ℕ → ℕ → Bool
fit_below repls zero = false
fit_below repls (suc n) =
    fit_below repls n || is_fit (get_bmap_ios_stat repls (n * sl_bits_per_replica))

-- `mds_brepls_check`: whether it comes to an end.
unfoldable pub brepls_check : List ℕ → ℕ → Bool
brepls_check repls nr = not (nr == 0) && (leb nr max_replicas && fit_below repls nr)

-- The loop that inserts rows for what is to be done; a server that is not configured has none.
unfoldable pub insert_rows : (ℕ → ℕ) → (ℕ → Option Bool) → ℕ → Bmap → Bmap
insert_rows repl res zero b = b
insert_rows repl res (suc n) b =
    let b' = insert_rows repl res n b in
    let v = get_bmap_ios_stat b'.repls (n * sl_bits_per_replica) in
    if (v == breplst_repl_queued || v == breplst_garbage) && known_of (res (repl n))
    then record b' { jobs = b'.jobs ++ (insert_job (repl n) (some 0) (some 0) ∷ []) }
    else b'

-- B_REPLAY_OP_REPLS of `mds_replay_bmap`, up to the write. A walk that changes nothing takes the
-- locks; `nr`, `repl` and `res` are of the file.
unfoldable pub replay_repls : ℕ → (ℕ → ℕ) → (ℕ → Option Bool) → BmapRepls → Bmap → Option Bmap
replay_repls nr repl res e b =
    if not (brepls_check e.repls e.nrepls)
    then none
    else elim (bmap_walk_all nr b (some empty_tract) none false) [
      | none ↦ none
      | some (b1, rc1) ↦
          elim (bmap_walk_all nr
            (record b1 { orepls = b1.repls; replpol = e.replpol; repls = e.repls })
            (some revert_tract) none false) [
              | none ↦ none
              | some (b2, rc2) ↦ some (
                  insert_rows repl res nr
                    (repl_upd_write nr repl res true (record b2 { replmodwr = true })))
            ]
    ]

-- `mds_replay_bmap_repls` for a bmap that was found.
unfoldable pub replay_bmap_repls :
    ℕ → (ℕ → ℕ) → (ℕ → Option Bool) → WriteOutcome → BmapRepls → Bmap → Option (Bmap × ℕ)
replay_bmap_repls nr repl res out e b = elim (replay_repls nr repl res e b) [
  | none ↦ none
  | some b1 ↦ bmap_write nr false out b1
]

-- `struct slmds_jent_ino_repls`, less the name of the file and the policy.
pub record InoRepls : Type 0 where
  pub nrepls : ℕ
  pub repls : List ℕ

-- `mdslogfill_ino_repls` for a regular file, with what the buffer held behind the first IDs. An extras
-- block that is needed and not there is `none`, as a file with no replica is.
unfoldable pub fill_ino_repls : List ℕ → Inoh → Option InoRepls
fill_ino_repls behind ih =
    if ih.nrepls == 0
    then none
    else if ltb sl_def_replicas ih.nrepls
    then elim ih.extras [
      | none ↦ none
      | some xs ↦ some (record { nrepls = ih.nrepls; repls = ih.ino_repls ++ xs })
    ]
    else some (record { nrepls = ih.nrepls; repls = ih.ino_repls ++ behind })

unfoldable pub any_set : List ℕ → Bool
any_set [] = false
any_set (x ∷ xs) = not (x == 0) || any_set xs

-- The arrays of the inode from those of the entry, with the return code of the write of the extras.
unfoldable pub set_extras : InoxRead → ℕ → InoRepls → Inoh → Option (Inoh × ℕ)
set_extras rd inox_rc e ih =
    if ltb sl_def_replicas e.nrepls
    then elim (ensure_loaded rd ih).0.extras [
      | none ↦ none
      | some xs ↦ some (record ih { extras = some (drop sl_def_replicas e.repls) }, inox_rc)
    ]
    else some (ih, 0)

-- `mds_replay_ino` for a regular file that was found, with the return codes of the two writes. The
-- result of the load is not looked at.
unfoldable pub replay_ino : InoxRead → ℕ → ℕ → InoRepls → Inoh → Option (Inoh × ℕ)
replay_ino rd inox_rc ino_rc e ih =
    if not (any_set e.repls) || ltb max_replicas e.nrepls
    then none
    else elim (set_extras rd inox_rc e ih) [
      | none ↦ none
      | some (ih1, rc) ↦ some (
          if rc == 0
          then (record ih1 { nrepls = e.nrepls; ino_repls = take sl_def_replicas e.repls }, ino_rc)
          else (ih1, rc))
    ]

-- `struct slmds_jent_bmapseq`, and the two marks of the cursor of the journal.
pub record BmapSeq : Type 0 where
  pub high_wm : ℕ
  pub low_wm : ℕ

pub record Cursor : Type 0 where
  pub seqno_hwm : ℕ
  pub seqno_lwm : ℕ

-- `mds_replay_bmap_seq`
unfoldable pub replay_bmap_seq : BmapSeq → Cursor → Cursor
replay_bmap_seq e c =
    let c1 = if ltb c.seqno_hwm e.high_wm then record c { seqno_hwm = e.high_wm } else c in
    if ltb c1.seqno_lwm e.low_wm then record c1 { seqno_lwm = e.low_wm } else c1

-- The entries of the log, oldest first.
unfoldable pub replay_seqs : List BmapSeq → Cursor → Cursor
replay_seqs [] c = c
replay_seqs (e ∷ es) c = replay_seqs es (replay_bmap_seq e c)
