-- ===== src/UpProc/Arrange.antt =====
-- A queued replica is copied once a server can be found for it.
use slash.Prelude.{
  ℕ, ◌*◌, ◌≡◌, refl, ap, ◌<◌, ◌≤◌, ◌∙◌, List, [], ◌∷◌, some, true, false, ◌||◌, ◌==◌, if◌then◌else◌,
  arith, Bool-cases, inl, inr,
}
use slash.Bandwidth.{Ios}
use slash.BmapMds.{Bmap}
use slash.ReplTable.{get_bmap_ios_stat}
use slash.ReplTable.Slots.{IsTable}
use slash.Residency.Apply.{slot, CanModify}
use slash.Traffic.{calc_repltraffic}
use slash.UpProc.{
  Proc, Res, Work, try_src, try_srcs, arrange, proc_dst, proc_dsts, proc_bmap, tried_work,
}
use slash.UpSched.{Attempt, ReplEntry, tryrepl, repl_finish, repl_succeeded}
use slash.UpSched.Finish.{repl_finish_lem}
use slash.UpSched.Try.{tryrepl_lem, arranged, can_reserve}

-- The attempt that is made with the source `i` for the destination `k`.
abbrev pub attempt : Proc → ℕ → ℕ → Res → Attempt
attempt p k i d = record {
  src = p.repl i;
  dst = p.repl k;
  slivers = p.slivers;
  online = d.rpc.online;
  batch_rc = d.batch_rc;
}

-- The scheduler meets the queued replica `k` first, and among its sources the valid replica `i`.
pub record Ready (p : Proc) (k i : ℕ) (d s : Res) (b : Bmap) (ios : ℕ → Ios) : Type 0 where
  pub few : p.nr ≤ 64
  pub dst_in : k < p.nr
  pub src_in : i < p.nr
  pub dst : p.res (p.repl k) ≡ some d
  pub src : p.res (p.repl i) ≡ some s
  pub soon : s.later ≡ false
  pub online : s.rpc.online ≡ true
  pub lease : p.wr_ion ≡ false
  pub queued : slot b.repls k ≡ 2
  pub valid : slot b.repls i ≡ 3
  pub table : IsTable b.repls
  pub clean : b.replmodwr ≡ false
  pub fits : can_reserve (attempt p k i d) ios ≡ true
  pub goes : (calc_repltraffic p.slivers == 0 || arranged (attempt p k i d) ios) ≡ true

abbrev pub Arranged : Proc → ℕ → Bmap → (ℕ → Ios) → Type 0
Arranged p k b ios =
    (w : Work) × (proc_bmap p b ios ≡ some w)
    × IsTable w.bmap.repls
    × ((j : ℕ)
        → slot w.bmap.repls j
          ≡ (if k == j then (if calc_repltraffic p.slivers == 0 then 3 else 1) else slot b.repls j))

-- If the scheduler comes to the queued replica `k` first and to the valid replica `i` as its first
-- source, whose server is connected and serves leases, there is no write lease, no counter of
-- bandwidth wraps, and the request can be arranged or there is nothing to copy, then a run ends with `k` being SCHED, or VALID if there is
-- nothing to copy, and with all other slots as they were.
pub proc_bmap-arranges :
    (p : Proc) (k i : ℕ) (ks is : List ℕ) (d s : Res) (b : Bmap) (ios : ℕ → Ios)
    → p.dsts ≡ k ∷ ks
    → p.srcs k false ≡ i ∷ is
    → Ready p k i d s b ios
    → Arranged p k b ios
unfolding proc_bmap proc_dsts proc_dst arrange try_srcs try_src
proc_bmap-arranges p k i ks is d s b ios eks eis r =
    let b0 : Bmap = record b { fcmh_busy = true; busy = true; upd_busy = true } in
    let c0 : CanModify b0 = record { clean = r.clean; held = λ e. (refl, refl) } in
    let (t, e, g) =
      tryrepl_lem p.nr p.out (attempt p k i d) k i b0 ios r.few r.dst_in r.src_in c0 r.table
        r.queued r.valid r.fits in
    let tk : get_bmap_ios_stat b.repls (3 * k) ≡ 2 =
      ap (get_bmap_ios_stat b.repls) (omega arith) ∙ r.queued in
    let ti : get_bmap_ios_stat b.repls (3 * i) ≡ 3 =
      ap (get_bmap_ios_stat b.repls) (omega arith) ∙ r.valid in
    let ne : (i == k) ≡ false = elim (Bool-cases (i == k)) [
      | inl y ↦
          let q : i ≡ k = ground arith in
          absurd (ground (arith, r.valid, r.queued, ap (slot b.repls) q))
      | inr y ↦ y
    ] in
    let ok : t.ok ≡ true = g.ok ∙ r.goes in
    let e' : tryrepl p.nr p.out (attempt p k i d) (3 * k) b0 ios ≡ some t =
      ap (λ o. tryrepl p.nr p.out (attempt p k i d) o b0 ios) (omega arith) ∙ e in
    let w0 : Work = record { bmap = b0; ios = ios; sent = []; valid_exists = true } in
    let w1 : Work = record { bmap = b0; ios = ios; sent = []; valid_exists = false } in
    let one : try_src p k d false i w1 ≡ some (tried_work w0 t, true) =
      ground (arith, r.src, ne, ti, r.soon, r.online, e', ok) in
    let all : try_srcs p k d false (p.srcs k false) w1 ≡ some (tried_work w0 t, true) =
      rw eis (ground (arith, one)) in
    let dst : proc_dst p k w1 ≡ some (tried_work w0 t, true) =
      ground (arith, r.dst, tk, r.lease, all) in
    let dsts : proc_dsts p p.dsts w1 ≡ some (tried_work w0 t, true) =
      rw eks (ground (arith, dst)) in
    (tried_work w0 t, ground (arith, r.clean, dsts), g.table, λ j. ground (arith, g.slots j, ok))

abbrev pub Copied : Proc → ℕ → ℕ → ReplEntry → ℕ → Bmap → Bmap → Type 0
Copied p ecode resid e k b b2 =
    (b3 : Bmap) × (repl_finish p.nr p.out ecode resid e b2 ≡ some b3)
    × IsTable b3.repls
    × ((j : ℕ) → slot b3.repls j ≡ (if k == j then 3 else slot b.repls j))

-- In such a run, if then the bmap is free with the table that the run left, and the server answers that
-- the copy was made for the generation that the bmap has, the replica `k` ends VALID, with all other
-- slots as they were before the run.
pub proc_bmap-copies :
    (p : Proc) (k i : ℕ) (ks is : List ℕ) (d s : Res) (b b2 : Bmap) (ios : ℕ → Ios) (w : Work)
    (ecode resid : ℕ) (e : ReplEntry)
    → p.dsts ≡ k ∷ ks
    → p.srcs k false ≡ i ∷ is
    → Ready p k i d s b ios
    → proc_bmap p b ios ≡ some w
    → CanModify b2
    → b2.repls ≡ w.bmap.repls
    → e.off ≡ k * 3
    → repl_succeeded ecode e b2.bgen ≡ true
    → Copied p ecode resid e k b b2
proc_bmap-copies p k i ks is d s b b2 ios w ecode resid e eks eis r run c2 t2 off good =
    let (w1, e1, h1, s1) = proc_bmap-arranges p k i ks is d s b ios eks eis r in
    let same : w1 ≡ w = ground (arith, run, e1) in
    let tab : b2.repls ≡ w1.bmap.repls = rw same t2 in
    let vi : slot b2.repls i ≡ 3 = rw tab (elim (Bool-cases (k == i)) [
      | inl y ↦
          let q : k ≡ i = ground arith in
          absurd (ground (arith, r.valid, r.queued, ap (slot b.repls) q))
      | inr y ↦ ground (arith, s1 i, r.valid)
    ]) in
    let (b3, e3, h3, s3) =
      repl_finish_lem p.nr p.out ecode resid e k i b2 r.few c2 (rw tab h1) r.dst_in r.src_in vi
        off in
    (
      b3,
      e3,
      h3,
      λ j.
          let u : slot b2.repls j ≡ slot w1.bmap.repls j = ap (λ x. slot x j) tab in
          ground (arith, s3 j, u, s1 j, good),
    )
