-- ===== src/Coh.antt =====
-- slashd/coh.c: a client that has a lease is asked to use the bmap directly, and its answer.
-- The references on the file and on the bmap, the message buffers and the service handle are left
-- out; whether there is an export, a service and a request, and the status of the reply, are parameters.
pub mod Answer
use slash.Prelude.{ℕ, Option, none, some, Bool, true, false, not, if◌then◌else◌}
use slash.Errors.{Rc, done, fail}
use slash.BmapTimeo.{Timeo}
use slash.Lease.{Client, Lease}
use slash.Leases.{LeasedBmap, put, getbml}
use slash.IosAssign.{Site}
use slash.LeaseOps.{Released, bml_release}

-- What `mdscoh_req` fills of `struct srm_bmap_dio_req`; `dio` is 1.
pub record DioReq : Type 0 where
  pub fid : ℕ
  pub bno : ℕ
  pub seq : ℕ

-- `struct slm_wkdata_coh_releasebml`
pub record CohWork : Type 0 where
  pub fid : ℕ
  pub bno : ℕ
  pub seq : ℕ
  pub peer : Client

-- `mdscoh_req`: what it returns, and the request that it sends. `notconn` is PFLERR_NOTCONN, `newreq` is what SL_RSX_NEWREQ returns.
unfoldable pub mdscoh_req : ℕ → Bool → Bool → Rc → LeasedBmap → Lease → Option (Rc × Option DioReq)
mdscoh_req notconn has_exp online newreq b l =
    if l.recover
    then (if has_exp then none else some (fail notconn, none))
    else if not has_exp
    then none
    else if not online
    then some (fail notconn, none)
    else elim newreq [
      | fail n ↦ some (fail n, none)
      | done n ↦ some (done 0, some (record { fid = b.fid; bno = b.bmapno; seq = l.seq }))
    ]

-- `slm_rcm_bmapdio_cb`: the work item that it leaves.
unfoldable pub bmapdio_cb : Rc → Client → DioReq → Option CohWork
bmapdio_cb rc peer m = elim rc [
  | fail n ↦ none
  | done n ↦ some (record { fid = m.fid; bno = m.bno; seq = m.seq; peer = peer })
]

-- `slmcoh_releasebml`; `cached` says whether the file and the bmap are still there.
unfoldable pub releasebml : Site → Bool → CohWork → LeasedBmap → Timeo → Released
releasebml e cached wk b t =
    if not cached
    then some (b, (t, none))
    else let r = getbml wk.seq wk.peer b in
      elim r.1 [
        | none ↦ some (r.0, (t, none))
        | some l ↦
            let l1 = record l { dio = true; diocb = false } in bml_release e (put l1 r.0) t l1
      ]
