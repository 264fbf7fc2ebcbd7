-- ===== src/UpProc/Offline.antt =====
-- The scheduler on a bmap while no I/O server is connected.
use slash.Prelude.{
  ℕ, ◌*◌, ◌≡◌, refl, ◌<◌, ◌∙◌, List, [], ◌∷◌, none, some, Bool, true, false, not, ◌||◌, ◌&&◌, ◌==◌,
  if◌then◌else◌, arith, Bool-cases, Option-cases, inl, inr, ap, ◌⊎◌,
}
use slash.Bandwidth.{Ios}
use slash.BmapMds.{Bmap}
use slash.ReplTable.Slots.{IsTable}
use slash.Residency.Visited.{iosidx_in-upto}
use slash.ReplTable.{get_bmap_ios_stat}
use slash.Residency.{arr_set, iosidx_in, upto, visited, walk, bmap_walk, bmap_walk_all}
use slash.Residency.Apply.{slot, looked}
use slash.Residency.Query.{first_of, look_each_lem, glanced}
use slash.UpProc.{Proc, Res, Work, proc_dst, proc_dsts, proc_end, proc_bmap, is_success}
use slash.UpReclaim.{Rpc, Verdict, give_up, unsuccessful, tryptrunc, trypreclaim, ptrunc_retif}

-- A replica of a configured server is TRUNCPNDG.
abbrev pub pending : Proc → List ℕ → ℕ → Bool
pending p repls k = elim (p.res (p.repl k)) [ none ↦ false | some d ↦ slot repls k == 4 ]

unfoldable pub any_pending : Proc → List ℕ → List ℕ → Bool
any_pending p repls [] = false
any_pending p repls (k ∷ ks) = pending p repls k || any_pending p repls ks

-- What the scheduler goes on with: the table as it was, no lock held, and the bmap still busy or not.
record Goes (repls : List ℕ) (held : Bool) (w : Work) : Type 0 where
  pub table : w.bmap.repls ≡ repls
  pub unlocked : w.bmap.wrlock ≡ false
  pub unread : w.bmap.rdlock ≡ false
  pub file : w.bmap.fcmh_busy ≡ true
  pub busy : w.bmap.busy ≡ held

glanced-some : (ks : List ℕ) (b : Bmap) → iosidx_in 0 ks ≡ true → glanced ks b ≡ looked b
unfolding glanced iosidx_in
glanced-some [] b h = cc
glanced-some (k ∷ ks) b h = refl

-- With the server not connected, an attempt at a truncation only drops the busy flag.
tryptrunc-offline :
    (nr upd : ℕ) (q : Rpc) (off : ℕ) (b : Bmap) (x : Ios)
    → 0 < nr
    → q.online ≡ false
    → IsTable b.repls
    → b.wrlock ≡ false
    → b.rdlock ≡ false
    → (v : Verdict) × (tryptrunc nr upd q off b x ≡ some (looked b, x, v)) × (is_success v ≡ false)
unfolding tryptrunc bmap_walk_all bmap_walk walk visited
tryptrunc-offline nr upd q off b x hn o h w r =
    let look = look_each_lem (some ptrunc_retif) b.repls (upto nr) b 0 h refl in
    let g : glanced (upto nr) b ≡ looked b =
      glanced-some (upto nr) b (iosidx_in-upto 0 nr ∙ ground arith) in
    elim (Bool-cases (first_of (some ptrunc_retif) (slot b.repls) (upto nr) 0 == 0)) [
      | inl z ↦ (unsuccessful, ground (arith, look, g, z, o), refl)
      | inr z ↦ (give_up, ground (arith, look, g, z, o), refl)
    ]

-- None of these replicas is QUEUED.
abbrev pub NoneQueued : List ℕ → List ℕ → Type 0
NoneQueued repls [] = Unit {0}
NoneQueued repls (k ∷ ks) = ((slot repls k == 2) ≡ false) × NoneQueued repls ks

-- No server of the file is connected.
abbrev pub AllOffline : Proc → Type 0
AllOffline p = (k : ℕ) (d : Res) → p.res (p.repl k) ≡ some d → d.rpc.online ≡ false

module _ (p : Proc) (repls : List ℕ) (hn : 0 < p.nr) (o : AllOffline p) (h : IsTable repls) where
  proc_dst-Goes :
      (k : ℕ) (held : Bool) (w : Work)
      → (slot repls k == 2) ≡ false
      → Goes repls held w
      → (w' : Work) × (proc_dst p k w ≡ some (w', false))
        × Goes repls (if pending p repls k then false else held) w'
  unfolding proc_dst trypreclaim
  proc_dst-Goes k held w n2 g = elim (Option-cases (p.res (p.repl k))) [
    | inl e ↦ (
      w,
      ground (arith, e),
      record {
        table = g.table;
        unlocked = g.unlocked;
        unread = g.unread;
        file = g.file;
        busy = g.busy ∙ ground (arith, e);
      },
    )
    | inr (d, e) ↦
        let t : get_bmap_ios_stat w.bmap.repls (3 * k) ≡ slot repls k =
          rw g.table (ap (get_bmap_ios_stat repls) (omega arith)) in
        let off = o k d e in
        elim (Bool-cases (slot repls k == 4)) [
          | inl f ↦
              let (v, e4, ns) =
                tryptrunc-offline p.nr p.slivers.bno d.rpc (3 * k) w.bmap (w.ios (p.repl k)) hn off
                  (rw g.table h) g.unlocked g.unread in
              (
                record w {
                  bmap = looked w.bmap;
                  ios = arr_set w.ios (p.repl k) (w.ios (p.repl k));
                },
                ground (arith, e, t, n2, f, e4, ns),
                record {
                  table = ground (arith, g.table);
                  unlocked = ground (arith, g.unlocked);
                  unread = ground (arith, g.unlocked, g.unread);
                  file = ground (arith, g.file);
                  busy = ground (arith, g.unlocked, g.unread, e, f);
                },
              )
          | inr f ↦ (
            w,
            elim (Bool-cases (slot repls k == 6)) [
              | inl y ↦ ground (arith, e, t, n2, f, y, off)
              | inr y ↦ ground (arith, e, t, n2, f, y)
            ],
            record {
              table = g.table;
              unlocked = g.unlocked;
              unread = g.unread;
              file = g.file;
              busy = g.busy ∙ ground (arith, e, f);
            },
          )
        ]
  ]

  proc_dsts-Goes :
      (ks : List ℕ) (held : Bool) (w : Work)
      → NoneQueued repls ks
      → Goes repls held w
      → (w' : Work) × (proc_dsts p ks w ≡ some (w', false))
        × Goes repls (held && not (any_pending p repls ks)) w'
  unfolding proc_dsts any_pending
  proc_dsts-Goes [] held w n2 g = (
    w,
    refl,
    record {
      table = g.table;
      unlocked = g.unlocked;
      unread = g.unread;
      file = g.file;
      busy = g.busy ∙ ground arith;
    },
  )
  proc_dsts-Goes (k ∷ ks) held w n2 g =
      let (w1, e1, g1) = proc_dst-Goes k held w n2.0 g in
      let (w2, e2, g2) = proc_dsts-Goes ks (if pending p repls k then false else held) w1 n2.1 g1 in
      (
        w2,
        ground (arith, e1, e2),
        record {
          table = g2.table;
          unlocked = g2.unlocked;
          unread = g2.unread;
          file = g2.file;
          busy = g2.busy ∙ ground arith;
        },
      )

-- What one run of the scheduler comes to.
abbrev pub Ends : Proc → Bmap → (ℕ → Ios) → Type 0
Ends p b ios =
    ((any_pending p b.repls p.dsts ≡ true) × (proc_bmap p b ios ≡ none))
    ⊎ ((any_pending p b.repls p.dsts ≡ false)
        × ((w : Work) × (proc_bmap p b ios ≡ some w)
            × (w.bmap.repls ≡ b.repls)
            × ((w.bmap.busy ≡ false) × (w.bmap.fcmh_busy ≡ false) × (w.bmap.wrlock ≡ false))))

-- While no server of the file is connected and no visited replica is QUEUED, a run of the scheduler on a bmap
-- that this thread has not locked fails an assertion if one of the replicas that it visits is
-- TRUNCPNDG at a configured server: the look for another truncation drops the busy flag, which the end
-- of the run asserts. Otherwise the table stays, and no lock is held at the end.
pub proc_bmap-offline :
    (p : Proc) (b : Bmap) (ios : ℕ → Ios)
    → 0 < p.nr
    → AllOffline p
    → IsTable b.repls
    → NoneQueued b.repls p.dsts
    → b.replmodwr ≡ false
    → b.wrlock ≡ false
    → b.rdlock ≡ false
    → Ends p b ios
unfolding proc_bmap proc_end
proc_bmap-offline p b ios hn o h n2 cl w r =
    let w0 : Work = record {
      bmap = record b { fcmh_busy = true; busy = true; upd_busy = true };
      ios = ios;
      sent = [];
      valid_exists = false;
    } in
    let (w1, e1, g1) =
      proc_dsts-Goes p b.repls hn o h p.dsts true w0 n2
        (record { table = refl; unlocked = w; unread = r; file = refl; busy = refl }) in
    elim (Bool-cases (any_pending p b.repls p.dsts)) [
      | inl y ↦ inl (y, ground (arith, cl, e1, g1.busy, y))
      | inr y ↦ inr (
        y,
        (
          record w1 { bmap = record w1.bmap { wrlock = false; busy = false; fcmh_busy = false } },
          ground (arith, cl, e1, g1.busy, g1.file, y),
          g1.table,
          (refl, refl, refl),
        ),
      )
    ]
