-- ===== src/Coh/Answer.antt =====
-- slashd/coh.c with `mds_bmap_directio`: the answer of the last client that was awaited.
use slash.Prelude.{ℕ, ◌+◌, ◌≡◌, refl, List, [], ◌∷◌, some, Bool, true, false, not, ◌==◌, arith}
use slash.Errors.{done}
use slash.BmapTimeo.{Timeo}
use slash.Lease.{Client, Lease}
use slash.Leases.{
  LeasedBmap, is_chain_of, update_chain, replace, put, awaited, any_lease, any_chain, directio,
  unchain, find_seq, getbml,
}
use slash.IosAssign.{Site}
use slash.LeaseOps.{bml_release}
use slash.Coh.{DioReq, CohWork, mdscoh_req, bmapdio_cb, releasebml}

replace-replace :
    (k l : Lease) (ch : List Lease) → k.ptr ≡ l.ptr → replace l (replace k ch) ≡ replace l ch
unfolding replace
replace-replace k l [] e = refl
replace-replace k l (x ∷ ch) e = ground (arith, replace-replace k l ch e, e)

is_chain_of-replace :
    (k : Lease) (ch : List Lease)
    → is_chain_of k.client ch ≡ true
    → is_chain_of k.client (replace k ch) ≡ true
unfolding replace is_chain_of
is_chain_of-replace k [] h = h
is_chain_of-replace k (x ∷ ch) h = ground (arith, h)

update_chain-twice :
    (k l : Lease) (chs : List (List Lease))
    → k.ptr ≡ l.ptr
    → update_chain k.client (replace l) (update_chain k.client (replace k) chs)
      ≡ update_chain k.client (replace l) chs
unfolding update_chain
update_chain-twice k l [] e = refl
update_chain-twice k l (ch ∷ chs) e =
    ground (arith, update_chain-twice k l chs e, replace-replace k l ch e, is_chain_of-replace k ch)

any_lease-replace :
    (p : Lease → Bool) (l : Lease) (ch : List Lease)
    → p l ≡ false
    → any_lease p ch ≡ false
    → any_lease p (replace l ch) ≡ false
unfolding any_lease replace
any_lease-replace p l [] n h = refl
any_lease-replace p l (x ∷ ch) n h = ground (arith, any_lease-replace p l ch n, n, h)

any_lease-unchain :
    (p : Lease → Bool) (l : Lease) (ch : List Lease)
    → p l ≡ false
    → any_lease p (unchain l.ptr ch) ≡ false
    → any_lease p (replace l ch) ≡ false
unfolding any_lease replace unchain
any_lease-unchain p l [] n h = refl
any_lease-unchain p l (x ∷ ch) n h =
    ground (arith, any_lease-unchain p l ch n, any_lease-replace p l ch n, n, h)

any_chain-unchain :
    (p : Lease → Bool) (l : Lease) (chs : List (List Lease))
    → p l ≡ false
    → any_chain p (update_chain l.client (unchain l.ptr) chs) ≡ false
    → any_chain p (update_chain l.client (replace l) chs) ≡ false
unfolding any_chain update_chain
any_chain-unchain p l [] n h = refl
any_chain-unchain p l (ch ∷ chs) n h =
    ground (arith, any_chain-unchain p l chs n, any_lease-unchain p l ch n, n, h)

-- The chains of the bmap after a lease got an answer.
abbrev pub answered : Lease → LeasedBmap → LeasedBmap
answered l b = put (record l { dio = true; diocb = false }) (record b { iosassigned = false })

getbml-found :
    (seq : ℕ) (l : Lease) (b : LeasedBmap)
    → find_seq l.client seq b.leases ≡ some l
    → l.freeing ≡ false
    → getbml seq l.client b
      ≡ (put (record l { refcnt = l.refcnt + 1 }) b, some (record l { refcnt = l.refcnt + 1 }))
unfolding getbml
getbml-found seq l b f n = ground (arith, f, n)

release-answered :
    (e : Site) (t : Timeo) (l : Lease) (b : LeasedBmap)
    → (b.opcnt == 0) ≡ false
    → l.freeing ≡ false
    → l.bmi ≡ true
    → let l1 = record l { refcnt = l.refcnt + 1 } in
      let l2 = record l1 { dio = true; diocb = false } in
      bml_release e (put l2 (put l1 b)) t l2
      ≡ some (answered l b, (t, some (record l { dio = true; diocb = false })))
unfolding bml_release
release-answered e t l b o n i =
    let l1 = record l { refcnt = l.refcnt + 1 } in
    let l2 = record l1 { dio = true; diocb = false } in
    let l3 = record l { dio = true; diocb = false } in
    ground (
      arith,
      o,
      n,
      i,
      update_chain-twice l1 l2 b.leases refl,
      update_chain-twice l2 l3 b.leases refl,
    )

-- Whether a client awaits nobody but the holder of a lease.
abbrev pub awaits_only : Client → Lease → LeasedBmap → Bool
awaits_only d l b = not (any_chain (awaited d) (update_chain l.client (unchain l.ptr) b.leases))

-- A client that can be reached is sent a request with the number of its lease. Once it has answered,
-- while the bmap is still there with the lease linked and not being freed, the lease is for direct I/O
-- and keeps its count of references; and if another client, whose request for the bmap had to wait,
-- awaits no other lease, then its next request does not wait, and the bmap is in use directly.
pub releasebml-directio :
    (e : Site) (t : Timeo) (notconn seq_rc reply_rc : ℕ) (l : Lease) (b : LeasedBmap)
    (wr want : Bool) (d : Client)
    → l.recover ≡ false
    → l.freeing ≡ false
    → l.bmi ≡ true
    → find_seq l.client l.seq b.leases ≡ some l
    → (b.opcnt == 0) ≡ false
    → b.dio ≡ false
    → b.diocb ≡ true
    → awaits_only d l b ≡ true
    → (m : DioReq) × (wk : CohWork) × (mdscoh_req notconn true true (done seq_rc) b l
        ≡ some (done 0, some m))
      × (bmapdio_cb (done reply_rc) l.client m ≡ some wk)
      × (releasebml e true wk b t
          ≡ some (answered l b, (t, some (record l { dio = true; diocb = false }))))
      × ((directio wr want d (answered l b)).1 ≡ done 0)
      × ((directio wr want d (answered l b)).0.dio ≡ true)
unfolding mdscoh_req bmapdio_cb releasebml directio
releasebml-directio e t notconn seq_rc reply_rc l b wr want d r n i f o nd cb a =
    let m : DioReq = record { fid = b.fid; bno = b.bmapno; seq = l.seq } in
    let wk : CohWork = record { fid = b.fid; bno = b.bmapno; seq = l.seq; peer = l.client } in
    let l3 = record l { dio = true; diocb = false } in
    let quiet : any_chain (awaited d) (update_chain l.client (replace l3) b.leases) ≡ false =
      any_chain-unchain (awaited d) l3 b.leases (ground arith) (ground (arith, a)) in
    (
      m,
      wk,
      ground (arith, r),
      refl,
      ground (arith, getbml-found l.seq l b f n, release-answered e t l b o n i),
      ground (arith, nd, cb, quiet),
      ground (arith, nd, cb, quiet),
    )
