-- ===== src/BmapWrite/Laws.antt =====
-- `mds_bmap_write` under the write lock.
use slash.Prelude.{
  ℕ, ◌+◌, ◌≡◌, refl, ap, ◌<◌, List, [], ◌∷◌, some, Bool, true, false, ◌&&◌, if◌then◌else◌, arith,
}
use slash.BmapMds.{Bmap}
use slash.ReplTable.Slots.{IsTable}
use slash.Residency.{visited, upto, walk, bmap_walk, bmap_walk_all}
use slash.Residency.Apply.{slot}
use slash.Residency.Visited.{iosidx_in-upto}
use slash.Residency.Query.{glanced, look_each_lem, first_of-zero}
use slash.BmapWrite.{WriteOutcome, ensure_valid_retif, ensure_valid, mdslog_bmap_repls, bmap_write}

-- A thread with the write lock looks at the bmap without a change.
pub glanced-wrlock : (ks : List ℕ) (b : Bmap) → b.wrlock ≡ true → glanced ks b ≡ b
unfolding glanced
glanced-wrlock [] b h = refl
glanced-wrlock (k ∷ ks) b h = rw h refl

-- A table with a valid replica is fit to be written.
pub ensure_valid_lem :
    (nr j : ℕ) (b : Bmap)
    → IsTable b.repls
    → b.wrlock ≡ true
    → j < nr
    → slot b.repls j ≡ 3
    → ensure_valid nr b ≡ some b
unfolding ensure_valid bmap_walk_all bmap_walk walk visited
ensure_valid_lem nr j b h w hj v = ground (
  arith,
  look_each_lem (some ensure_valid_retif) b.repls (upto nr) b 0 h refl,
  glanced-wrlock (upto nr) b w,
  first_of-zero ensure_valid_retif (slot b.repls) (upto nr) j,
  iosidx_in-upto j nr,
)

-- What such a write leaves.
abbrev pub write_result : Bool → WriteOutcome → Bmap → Bmap
write_result logf out b =
    if logf && out.logged
    then record b {
      journal = b.repls ∷ b.journal;
      replmodwr = true;
      work = b.work + 1;
      rdlock = false;
    }
    else record b { rdlock = false }

rd_same :
    (b : Bmap) → b.wrlock ≡ true → record b { rdlock = if b.wrlock then b.rdlock else true } ≡ b
rd_same b w = ground arith

-- A write under the write lock and the busy flags, of a table with a valid replica, does not fail. It
-- returns the outcome of the file system, and leaves the bmap as it was without the read mode, but
-- with the table journaled and a pending write marked if that is asked for and the log callback was
-- run.
pub bmap_write_lem :
    (nr j : ℕ) (logf : Bool) (out : WriteOutcome) (b : Bmap)
    → IsTable b.repls
    → b.wrlock ≡ true
    → b.fcmh_busy ≡ true
    → b.busy ≡ true
    → j < nr
    → slot b.repls j ≡ 3
    → bmap_write nr logf out b ≡ some (write_result logf out b, out.rc)
unfolding bmap_write mdslog_bmap_repls
bmap_write_lem nr j logf out b h w fb bb hj v =
    let same : record b { rdlock = if b.wrlock then b.rdlock else true } ≡ b = rd_same b w in
    ground (arith, ap (ensure_valid nr) same, ensure_valid_lem nr j b h w hj v)
