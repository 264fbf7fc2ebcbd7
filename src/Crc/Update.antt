-- ===== src/Crc/Update.antt =====
-- What an update of checksums does to the replicas, and to the mark that it is under way.
use slash.Prelude.{
  ℕ, ◌≡◌, refl, ◌<◌, ◌≤◌, ◌∙◌, List, ◌++◌, none, some, Bool, true, false, not, ◌||◌, ◌==◌, arith,
  length, Bool-cases, inl, inr,
}
use slash.BmapMds.{Bmap}
use slash.BmapWrite.{WriteOutcome}
use slash.BmapWrite.Laws.{write_result, ensure_valid_lem}
use slash.Crc.{
  Crcup, CrcEntry, CrcBmap, CrcSite, set_crcs, crc_entries, mdslog_bmap_crc, crc_bmap_write,
  modify_end, crc_invalidate, crc_update, crc_write,
}
use slash.Crc.Log.{crc_entries-Logs}
use slash.Errors.{fail}
use slash.InvExcept.{inv_except}
use slash.InvExcept.Laws.{inv_walks_lem, inv_slot}
use slash.ReplTable.Slots.{IsTable}
use slash.Request.{write_logrepls}
use slash.Residency.Apply.{slot, CanModify}
use slash.UpSched.Apply.{IsLocked, write_logrepls_lem, repls-written}

-- Without the log callback nothing else clears the mark.
crc_bmap_write-unlogged :
    (nr i : ℕ) (out : WriteOutcome) (c : Crcup) (b : CrcBmap)
    → IsTable b.bmap.repls
    → b.bmap.wrlock ≡ true
    → i < nr
    → slot b.bmap.repls i ≡ 3
    → out.logged ≡ false
    → crc_bmap_write nr out c b ≡ some (b, out.rc)
unfolding crc_bmap_write
crc_bmap_write-unlogged nr i out c b h w hi v l =
    ground (arith, ensure_valid_lem nr i b.bmap h w hi v, l)

crc_bmap_write-logged :
    (nr i : ℕ) (out : WriteOutcome) (c : Crcup) (b : CrcBmap)
    → IsTable b.bmap.repls
    → b.bmap.wrlock ≡ true
    → i < nr
    → slot b.bmap.repls i ≡ 3
    → out.logged ≡ true
    → b.crc_up ≡ true
    → (es : List CrcEntry) × (crc_entries (length c.crcs) c.extend c.crcs ≡ some es)
      × (crc_bmap_write nr out c b
          ≡ some (
            record b {
              bmap = record b.bmap { wrlock = false; rdlock = false };
              crc_up = false;
              entries = b.entries ++ es;
            },
            out.rc,
          ))
unfolding crc_bmap_write mdslog_bmap_crc
crc_bmap_write-logged nr i out c b h w hi v l u =
    let (es, e, a, f, x) = crc_entries-Logs (length c.crcs) c.extend c.crcs (omega arith) in
    (es, e, ground (arith, ensure_valid_lem nr i b.bmap h w hi v, l, u, e))

-- What the update does to the table of replicas.
abbrev Invalidated : ℕ → WriteOutcome → ℕ → Bmap → Type 0
Invalidated nr out i b =
    (b' : Bmap) × (crc_invalidate nr out i b ≡ some b')
    × IsTable b'.repls
    × ((j : ℕ) → slot b'.repls j ≡ inv_slot nr b.replpol i j (slot b.repls j))

crc_invalidate_lem :
    (nr i : ℕ) (out : WriteOutcome) (b : Bmap)
    → nr ≤ 64
    → i < nr
    → b.replmodwr ≡ false
    → b.wrlock ≡ false
    → IsTable b.repls
    → (slot b.repls i == 0 || (slot b.repls i == 3 || slot b.repls i == 6)) ≡ true
    → Invalidated nr out i b
unfolding crc_invalidate inv_except modify_end
crc_invalidate_lem nr i out b hn hi cl w h st =
    let b0 : Bmap = record b { fcmh_busy = true } in
    let c0 : CanModify b0 = record { clean = cl; held = λ e. absurd (ground (arith, w, e)) } in
    let (b1, e1, h1, c1, s1, g1) = inv_walks_lem nr i b0 hn hi c0 h in
    let lock : b1.wrlock ≡ true = g1.1 in
    let l1 : IsLocked b1 = record {
      clean = c1.clean;
      write = lock;
      file = (c1.held lock).0;
      busy = (c1.held lock).1;
    } in
    elim (Bool-cases (slot b.repls i == 6)) [
      | inl y ↦
          let wr : write_logrepls nr out b1 ≡ some (write_result true out b1) =
            write_logrepls_lem nr i out b1 h1 l1 hi (ground (arith, s1 i, y)) in
          (
            write_result true out b1,
            ground (arith, e1, y, wr),
            rw (repls-written out b1) h1,
            λ j. rw (repls-written out b1) (s1 j),
          )
      | inr y ↦ (
        record b1 { wrlock = false; busy = false; fcmh_busy = false },
        ground (arith, e1, y, st, l1.busy, l1.file),
        h1,
        s1,
      )
    ]

-- What an update of checksums comes to.
abbrev pub Updates : ℕ → WriteOutcome → WriteOutcome → ℕ → Crcup → CrcBmap → Type 0
Updates nr out1 out2 i c b =
    (b' : CrcBmap) × (crc_update nr out1 out2 (some i) c b ≡ some (b', out2.rc))
    × IsTable b'.bmap.repls
    × ((j : ℕ) → slot b'.bmap.repls j ≡ inv_slot nr b.bmap.replpol i j (slot b.bmap.repls j))
    × (b'.slivers ≡ set_crcs c.crcs b.slivers)
    × (b'.crc_up ≡ not out2.logged)

-- An update of checksums from the replica `i`, which is VALID, INVALID or GARBAGE, on a bmap that is
-- free and marked for it, does not fail: `i` becomes VALID and no other replica of the file stays VALID,
-- the slivers have the new checksums, the return code is that of the last write, and the mark that an
-- update is under way is cleared exactly if the log callback of that write was run.
pub crc_update_lem :
    (nr i : ℕ) (out1 out2 : WriteOutcome) (c : Crcup) (b : CrcBmap)
    → nr ≤ 64
    → i < nr
    → b.crc_up ≡ true
    → b.bmap.replmodwr ≡ false
    → b.bmap.wrlock ≡ false
    → IsTable b.bmap.repls
    → (slot b.bmap.repls i == 0 || (slot b.bmap.repls i == 3 || slot b.bmap.repls i == 6)) ≡ true
    → Updates nr out1 out2 i c b
unfolding crc_update
crc_update_lem nr i out1 out2 c b hn hi u cl w h st =
    let (b1, e1, h1, s1) = crc_invalidate_lem nr i out1 b.bmap hn hi cl w h st in
    let b2 : CrcBmap = record b {
      bmap = record b1 { wrlock = true };
      slivers = set_crcs c.crcs b.slivers;
    } in
    let v : slot b1.repls i ≡ 3 = ground (arith, s1 i, st) in
    elim (Bool-cases out2.logged) [
      | inl y ↦
          let (es, en, e2) = crc_bmap_write-logged nr i out2 c b2 h1 refl hi v y u in
          let b3 : CrcBmap = record b2 {
            bmap = record b2.bmap { wrlock = false; rdlock = false };
            crc_up = false;
            entries = b2.entries ++ es;
          } in
          (b3, ground (arith, u, e1, e2), h1, s1, refl, ground (arith, y))
      | inr y ↦ (
        b2,
        ground (arith, u, e1, crc_bmap_write-unlogged nr i out2 c b2 h1 refl hi v y),
        h1,
        s1,
        refl,
        u ∙ ground (arith, y),
      )
    ]

-- While the mark is set, every further request of the server with the write lease, for the generation
-- that the file has, is refused.
abbrev pub Refused :
    ℕ → WriteOutcome → WriteOutcome → ℕ → Crcup → CrcBmap → CrcSite → ℕ → Bool → Crcup → Type 0
Refused nr out1 out2 i c b e ios ptrunc c2 =
    (b' : CrcBmap) × (crc_update nr out1 out2 (some i) c b ≡ some (b', out2.rc))
    × (crc_write nr e ios ptrunc c2 b' ≡ some (b', fail e.already))

-- After an update whose last write ends without its log callback, nothing clears the mark: a further
-- request of the server with the write lease is refused as one that comes while another is under way.
pub crc_write-Refused :
    (nr i : ℕ) (out1 out2 : WriteOutcome) (c : Crcup) (b : CrcBmap) (e : CrcSite) (ios : ℕ)
    (ptrunc : Bool) (c2 : Crcup)
    → nr ≤ 64
    → i < nr
    → b.crc_up ≡ true
    → b.bmap.replmodwr ≡ false
    → b.bmap.wrlock ≡ false
    → IsTable b.bmap.repls
    → (slot b.bmap.repls i == 0 || (slot b.bmap.repls i == 3 || slot b.bmap.repls i == 6)) ≡ true
    → out2.logged ≡ false
    → c2.gen ≡ e.gen
    → e.lookup ≡ none
    → e.wr_ion ≡ some ios
    → Refused nr out1 out2 i c b e ios ptrunc c2
unfolding crc_write
crc_write-Refused nr i out1 out2 c b e ios ptrunc c2 hn hi u cl w h st l g lk wi =
    let (b', e1, h1, s1, v1, u1) = crc_update_lem nr i out1 out2 c b hn hi u cl w h st in
    (b', e1, ground (arith, u1, l, g, lk, wi))
