-- ===== src/ReplWork.antt =====
-- sliod/repl_iod.c, and of sliod/rii.c what it does to the work: a piece of replication work on the I/O
-- server that copies a bmap, from its creation to its report. The sliver cache, the connections and the
-- bandwidth are left out; what comes of a read is an argument. `none` stands for a failed `psc_assert`,
-- or for work that is gone.
pub mod Complete
pub mod Turn
pub mod Reach
use slash.Prelude.{
  ℕ, zero, suc, ◌+◌, ◌-◌, ◌*◌, List, [], ◌∷◌, Option, none, some, Bool, true, false, not, ◌&&◌,
  ◌||◌, ◌==◌, ltb, leb, length, if◌then◌else◌,
}
use slash.Residency.{arr_set}
use slash.Slvr.{lc_remove}
use slash.Traffic.{slash_slvr_size, slash_slvrs_per_bmap}

-- ETIMEDOUT
abbrev pub etimedout : ℕ
etimedout = 110

-- `struct sli_repl_workrq`: BMAP_SLVR_WANTREPL of each sliver, the slivers in `srw_slvr`, whether it is
-- on `sli_replwkq_pending`, its references, its status without the sign, the slivers that were read and
-- written, and whether it has been reported and freed.
pub record Work : Type 0 where
  pub ptrunc : Bool
  pub len : ℕ
  pub want : ℕ → Bool
  pub slots : List ℕ
  pub queued : Bool
  pub refcnt : ℕ
  pub status : ℕ
  pub copied : ℕ → Bool
  pub reported : Bool

-- `replwk_queue`
unfoldable pub replwk_queue : Work → Work
replwk_queue w = if w.queued then w else record w { queued = true; refcnt = w.refcnt + 1 }

-- The loop of `sli_repl_addwk` that marks slivers: whether it marks one.
abbrev pub is_marked : ℕ → ℕ → Bool
is_marked len i = ltb i slash_slvrs_per_bmap && ltb (i * slash_slvr_size) len

-- What `sli_repl_addwk` makes of work that it accepts.
unfoldable pub addwk : Bool → ℕ → Work
addwk ptrunc len = replwk_queue (record {
  ptrunc = ptrunc;
  len = len;
  want = λ i. not ptrunc && is_marked len i;
  slots = [];
  queued = false;
  refcnt = 0;
  status = 0;
  copied = λ i. false;
  reported = false;
})

-- `pflrpc_portable_rc`; `timedout` is PFLERR_TIMEDOUT.
abbrev pub portable_rc : ℕ → ℕ → ℕ
portable_rc timedout rc = if rc == etimedout then timedout else rc

-- `sli_replwkrq_decref`
unfoldable pub replwkrq_decref : ℕ → ℕ → Work → Option Work
replwkrq_decref timedout rc w =
    let status =
      if not (portable_rc timedout rc == 0) && w.status == 0
      then portable_rc timedout rc
      else w.status in
    if w.refcnt == 0 || w.reported
    then none
    else some (record w { status = status; refcnt = w.refcnt - 1; reported = w.refcnt == 1 })

-- What comes of the call that asks for a sliver: no service, no request, a sliver in the cache whose
-- preparation fails, which the code asserts against, a request that could not be sent, or one that was
-- sent.
pub data Issue : Type 0 where
  offline : Issue
  no_request : Issue
  bad_slvr : Issue
  refused : ℕ → Issue
  sent : Issue

-- The first sliver that is wanted, of some from one on.
unfoldable pub find_want : (ℕ → Bool) → ℕ → ℕ → Option ℕ
find_want want zero i = none
find_want want (suc n) i = let rest = find_want want n (i + 1) in if want i then some i else rest

-- After a sliver was chosen: what `sli_rii_issue_repl_read` and the thread do to the work.
unfoldable pub issue_read : ℕ → Issue → ℕ → Work → Option Work
issue_read timedout offline i w =
    some (record w { slots = lc_remove i w.slots; want = arr_set w.want i true })
issue_read timedout no_request i w =
    some (record w { slots = lc_remove i w.slots; want = arr_set w.want i true })
issue_read timedout bad_slvr i w = none
issue_read timedout (refused rc) i w =
    elim (replwkrq_decref timedout rc
      (replwk_queue (record w { refcnt = w.refcnt + 1; slots = lc_remove i w.slots }))) [
        | none ↦ none
        | some w1 ↦ some (record w1 { want = arr_set w1.want i true })
      ]
issue_read timedout sent i w = some (record w { refcnt = w.refcnt + 1 })

-- A turn of `slireplpndthr_main` on queued work; `nslots` is the length of `srw_slvr`.
unfoldable pub repl_turn : ℕ → ℕ → Issue → Work → Option Work
repl_turn timedout nslots o w =
    let w0 = record w { queued = false } in
    if not w.queued || w.reported
    then none
    else if not (w.status == 0) || w.ptrunc
    then replwkrq_decref timedout 0 w0
    else elim (find_want w.want slash_slvrs_per_bmap 0) [
      | none ↦ replwkrq_decref timedout 0 w0
      | some i ↦
          if leb nslots (length w.slots)
          then replwkrq_decref timedout 0 (replwk_queue w0)
          else elim (issue_read timedout o i
              (replwk_queue (record w0 { want = arr_set w.want i false; slots = i ∷ w.slots }))) [
                | none ↦ none
                | some w1 ↦ replwkrq_decref timedout 0 w1
              ]
    ]

-- `sli_rii_replread_release_sliver` with a result that is not SLERR_AIOWAIT: `rc` is that of the read,
-- or else of the write to the file.
unfoldable pub read_done : ℕ → ℕ → ℕ → Work → Option Work
read_done timedout rc i w = replwkrq_decref timedout rc (
    replwk_queue (record w {
      slots = lc_remove i w.slots;
      copied = if rc == 0 then arr_set w.copied i true else w.copied;
    }))
