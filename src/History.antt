-- ===== src/History.antt =====
-- What happens to the residency table of a bmap over time, across slashd/repl_mds.c and
-- slashd/up_sched_res.c: requests, new data, and the scheduler with the answers of the I/O servers.
pub mod Kept
pub mod Safe
use slash.Prelude.{ℕ, ◌*◌, ◌≡◌, ◌<◌, List, [], ◌∷◌, some, Bool, true, false, ◌||◌, ◌&&◌, ◌==◌}
use slash.Bandwidth.{Ios}
use slash.BmapMds.{Bmap}
use slash.BmapWrite.{WriteOutcome}
use slash.Errors.{Rc}
use slash.Inode.{Inoh}
use slash.InvExcept.{inv_walks}
use slash.Request.{Site, Prios, del_one, add_one}
use slash.Residency.{iosidx_in}
use slash.Residency.Apply.{slot, CanModify}
use slash.Residency.Walk.{AllLt, Distinct}
use slash.UpProc.{revert_cb}
use slash.UpReclaim.{Rpc, Verdict, send_ptrunc, finish_ptrunc, trypreclaim, preclaim_finish}
use slash.UpSched.{Attempt, Tried, ReplEntry, tryrepl, repl_finish}

-- An operation starts on a bmap with the one table, on which nothing is left to be written, and ends
-- with the other.
pub record Between (t u : List ℕ) (b b' : Bmap) : Type 0 where
  pub free : CanModify b
  pub from : b.repls ≡ t
  pub to : b'.repls ≡ u

-- One thing that happens to the table of a bmap of a file with `nr` replicas. New data reaches a
-- replica that is VALID, INVALID or GARBAGE, since otherwise it can leave no valid one
-- (`inv_walks-lost`); the scheduler tries what it finds in the state it looks for. The truncation of a
-- file and its completion by a server are not among what happens.
pub data Happens (nr : ℕ) (t u : List ℕ) : Type 0 where
  delrq :
      (out : WriteOutcome) (i : ℕ) (is : List ℕ) (b b' : Bmap) (rc : Rc)
      → Between t u b b'
      → AllLt nr (i ∷ is)
      → Distinct (i ∷ is)
      → del_one nr out (i ∷ is) b ≡ some (b', rc)
      → Happens nr t u
  addrq :
      (e : Site) (ih : Inoh) (p : Prios) (i : ℕ) (is : List ℕ) (b b' : Bmap) (rc : Rc)
      → ih.nrepls ≡ nr
      → Between t u b b'
      → AllLt ih.nrepls (i ∷ is)
      → Distinct (i ∷ is)
      → add_one e ih p (i ∷ is) b ≡ some (b', rc)
      → Happens nr t u
  new_data :
      (i : ℕ) (b b' : Bmap) (rc : ℕ)
      → Between t u b b'
      → i < nr
      → (slot t i == 0 || (slot t i == 3 || slot t i == 6)) ≡ true
      → inv_walks nr b i ≡ some (b', rc)
      → Happens nr t u
  repl_try :
      (out : WriteOutcome) (a : Attempt) (k : ℕ) (b : Bmap) (ios : ℕ → Ios) (r : Tried)
      → Between t u b r.bmap
      → k < nr
      → slot t k ≡ 2
      → tryrepl nr out a (k * 3) b ios ≡ some r
      → Happens nr t u
  repl_answer :
      (out : WriteOutcome) (ecode resid : ℕ) (e : ReplEntry) (k : ℕ) (b b' : Bmap)
      → Between t u b b'
      → k < nr
      → e.off ≡ k * 3
      → repl_finish nr out ecode resid e b ≡ some b'
      → Happens nr t u
  preclaim_try :
      (out : WriteOutcome) (online : Bool) (batch_rc k : ℕ) (b b' : Bmap) (x : Ios) (ok : Bool)
      → Between t u b b'
      → k < nr
      → slot t k ≡ 6
      → trypreclaim nr out online batch_rc (k * 3) b x ≡ some (b', ok)
      → Happens nr t u
  preclaim_answer :
      (out : WriteOutcome) (rc k : ℕ) (b b' : Bmap)
      → Between t u b b'
      → k < nr
      → preclaim_finish nr out rc (some k) b ≡ some b'
      → Happens nr t u
  ptrunc_try :
      (upd : ℕ) (q : Rpc) (k : ℕ) (b b' : Bmap) (x x' : Ios) (v : Verdict)
      → Between t u b b'
      → k < nr
      → slot t k ≡ 4
      → iosidx_in upd x.upschq ≡ false
      → send_ptrunc upd q (k * 3) b x ≡ some (b', x', v)
      → Happens nr t u
  ptrunc_answer :
      (upd rc k : ℕ) (b b' : Bmap) (x x' : Ios)
      → Between t u b b'
      → k < nr
      → finish_ptrunc upd rc (k * 3) b x ≡ some (b', x')
      → Happens nr t u
  restart :
      (out : WriteOutcome) (b b' : Bmap)
      → Between t u b b'
      → revert_cb nr out b ≡ some b'
      → Happens nr t u

-- Any number of them, one after the other.
pub data History (nr : ℕ) (t : List ℕ) : List ℕ → Type 0 where
  begin : History nr t t
  next : (u v : List ℕ) → History nr t u → Happens nr u v → History nr t v

-- The changes of a state that there are.
abbrev pub edge : ℕ → ℕ → Bool
edge v w =
    v == w
    || (v == 0 && (w == 2 || w == 3))
    || (v == 1 && (w == 2 || w == 3 || w == 6))
    || (v == 2 && (w == 1 || w == 3 || w == 6))
    || (v == 3 && (w == 2 || w == 6))
    || (v == 4 && w == 5)
    || (v == 5 && w == 4)
    || (v == 6 && (w == 2 || w == 3 || w == 7))
    || (v == 7 && (w == 0 || w == 2 || w == 6))
