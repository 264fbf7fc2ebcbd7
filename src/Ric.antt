-- ===== src/Ric.antt =====
-- sliod/ric.c `sli_ric_handle_io`, `sli_ric_write_sliver`, with `slvr_fsio` of sliod/slvr.c and
-- share/bmap.c `bmapdesc_access_check`: reads and writes of clients, with blocking I/O. What the
-- configuration, the file, the network and the caches of files and bmaps answer are parameters.
-- `none` stands for a failed `psc_assert`, or for a wait that another thread has to end.
pub mod Pieces
pub mod Loops
pub mod Serve
pub mod Failed
use slash.Prelude.{
  ℕ, zero, suc, ◌+◌, ◌-◌, ◌*◌, ◌/◌, ◌%◌, ◌^◌, List, [], ◌∷◌, Option, none, some, Bool, true, false,
  not, ◌&&◌, ◌||◌, ◌==◌, ltb, leb, if◌then◌else◌,
}
use slash.Errors.{Rc, done, fail, einval, ebadf}
use slash.Request.{slash_bmap_size}
use slash.Traffic.{slash_slvr_size}
use slash.Slvr.{
  Slvr, SlvrCache, put_slvr, slvr_lookup, slvr_io_prep, slvr_io_done, slvr_rio_done, slvr_wio_done,
}

abbrev pub slash_slvr_blksz : ℕ
slash_slvr_blksz = 32768

abbrev pub slash_blks_per_slvr : ℕ
slash_blks_per_slvr = slash_slvr_size / slash_slvr_blksz

-- ERANGE
abbrev pub erange : ℕ
erange = 34

-- A sum of two `uint32_t`.
abbrev pub add32 : ℕ → ℕ → ℕ
add32 a b = (a + b) % 2 ^ 32

-- What `pread` and `pwrite` come to.
pub data Moved : Type 0 where
  failed : ℕ → Moved
  moved : ℕ → Moved

-- `slvr_fsio` with blocking I/O: the error number, 0 for none. A short read or write is logged only.
abbrev pub slvr_fsio : Bool → Moved → ℕ
slvr_fsio backfile (failed e) = if backfile then e else ebadf
slvr_fsio backfile (moved n) = if backfile then 0 else ebadf

-- What the modelled code uses of `struct srm_io_req`.
pub record IoReq : Type 0 where
  pub write : Bool
  pub bench : Bool
  pub size : ℕ
  pub offset : ℕ
  pub ios : ℕ
  pub seq : ℕ

-- What is found elsewhere: LNET_MTU, PFLERR_KEYEXPIRED, this server, `bim_getcurseq`, the outcomes of
-- the test mode, of `sli_fcmh_get`, of `bmap_get`, of the bulk transfer and of the file operations on
-- each sliver, the number of the bmap's first sliver, and the time.
pub record IoSite : Type 0 where
  pub lnet_mtu : ℕ
  pub keyexpired : ℕ
  pub ios_id : ℕ
  pub curseq : ℕ
  pub bench_rc : Rc
  pub fcmh_rc : Rc
  pub bmap_rc : Rc
  pub bulk_rc : ℕ
  pub backfile : Bool
  pub reads : ℕ → Moved
  pub writes : ℕ → Moved
  pub base : ℕ
  pub now : ℕ

-- `bmapdesc_access_check`; the failure of a read check is logged only.
abbrev pub bmapdesc_access_check : Bool → ℕ → ℕ → ℕ
bmapdesc_access_check write sbd_ios ios_id =
    if write then (if sbd_ios == ios_id then 0 else ebadf) else 0

-- `nslvrs`
abbrev pub nslvrs_of : ℕ → ℕ → ℕ
nslvrs_of offset size =
    if ltb (offset / slash_slvr_size) ((add32 offset size - 1) / slash_slvr_size) then 2 else 1

-- A sliver of a request, the offset in it, and the length.
pub record Piece : Type 0 where
  pub slvr : ℕ
  pub roff : ℕ
  pub len : ℕ

abbrev pub min : ℕ → ℕ → ℕ
min a b = if leb a b then a else b

-- The slivers with their parts of a request, as the loop of `sli_ric_handle_io` splits it, and what is
-- left of its size.
unfoldable pub split_io : ℕ → ℕ → ℕ → ℕ → List Piece × ℕ
split_io zero i roff tsize = ([], tsize)
split_io (suc n) i roff tsize =
    let l = min tsize (slash_slvr_size - roff) in
    let r = split_io n (i + 1) 0 (tsize - l) in
    (record { slvr = i; roff = roff; len = l } ∷ r.0, r.1)

abbrev pub pieces_of : ℕ → ℕ → List Piece × ℕ
pieces_of offset size =
    let slvrno = offset / slash_slvr_size in
    split_io (nslvrs_of offset size) slvrno (offset - slvrno * slash_slvr_size) size

-- The loop: the cache, the slivers that were looked up, and the error that stops it, 0 for none. A
-- part of no bytes fails an assertion.
unfoldable pub prep_each : IoSite → Bool → List Piece → SlvrCache → Option (SlvrCache × List ℕ × ℕ)
prep_each e write [] c = some (c, [], 0)
prep_each e write (p ∷ ps) c = elim (slvr_lookup (e.base + p.slvr) c) [
  | none ↦ none
  | some c1 ↦ elim (c1.slvrs (e.base + p.slvr)) [
    | none ↦ none
    | some s ↦
        let i = e.base + p.slvr in
        let r = slvr_io_prep (write && p.roff == 0 && p.len == slash_slvr_size) false s in
        let c2 = put_slvr i r.0 c1 in
        let rv = if r.1 then slvr_fsio e.backfile (e.reads p.slvr) else r.2 in
        let rest = prep_each e write ps c2 in
        if s.faulting
        then none
        else if not (rv == 0)
        then some (c2, i ∷ [], rv)
        else if p.len == 0
        then none
        else elim rest [ none ↦ none | some (c3, is, rc) ↦ some (c3, i ∷ is, rc) ]
  ]
]

-- The loop at `out`.
unfoldable pub done_each : IoSite → Bool → ℕ → List ℕ → SlvrCache → Option SlvrCache
done_each e write rc [] c = some c
done_each e write rc (i ∷ is) c = elim (c.slvrs i) [
  | none ↦ none
  | some s ↦
      let c1 = put_slvr i (slvr_io_done rc s) c in
      elim (if write then slvr_wio_done e.now false i c1 else slvr_rio_done i c1) [
        | none ↦ none
        | some c2 ↦ done_each e write rc is c2
      ]
]

-- A write of blocks of a sliver: the sliver, its first block, the number of bytes.
pub record BlockWrite : Type 0 where
  pub slvr : ℕ
  pub sblk : ℕ
  pub bytes : ℕ

-- The loop of `sli_ric_write_sliver`: what it writes, what is left, and the error that stops it.
unfoldable pub write_loop : (ℕ → ℕ) → ℕ → ℕ → ℕ → ℕ → List BlockWrite × ℕ × ℕ
write_loop rc_of zero i sblk tsize = ([], tsize, 0)
write_loop rc_of (suc n) i sblk tsize =
    let tsz = min ((slash_blks_per_slvr - sblk) * slash_slvr_blksz) tsize in
    let w : BlockWrite = record { slvr = i; sblk = sblk; bytes = tsz } in
    let rest = write_loop rc_of n (i + 1) 0 (tsize - tsz) in
    if rc_of i == 0 then (w ∷ rest.0, rest.1, rest.2) else (w ∷ [], tsize - tsz, rc_of i)

-- `sli_ric_write_sliver`
unfoldable pub write_sliver : (ℕ → ℕ) → ℕ → ℕ → Option (List BlockWrite × ℕ)
write_sliver rc_of offset size =
    let slvrno = offset / slash_slvr_size in
    let roff = offset - slvrno * slash_slvr_size in
    let r =
      write_loop rc_of (nslvrs_of offset size) slvrno (roff / slash_slvr_blksz)
        (size + roff % slash_slvr_blksz) in
    if r.2 == 0 && not (r.1 == 0) then none else some (r.0, r.2)

-- A request of a read ahead, as `readahead_enqueue` queues it.
abbrev pub readahead_enqueue : ℕ → ℕ → List (ℕ × ℕ) → List (ℕ × ℕ)
readahead_enqueue off size q = if leb slash_bmap_size off then q else (off, size) ∷ q

-- What a request leaves: the cache, the reads ahead, what the handler returns, and `mp->rc`.
pub record Served : Type 0 where
  pub cache : SlvrCache
  pub ahead : List (ℕ × ℕ)
  pub rc : Rc
  pub reply : Rc

abbrev pub refuse : SlvrCache → List (ℕ × ℕ) → Rc → Option Served
refuse c q rc = some (record { cache = c; ahead = q; rc = rc; reply = rc })

abbrev pub code : ℕ → Rc
code n = if n == 0 then done 0 else fail n

abbrev pub is_ok : Rc → Bool
is_ok (done n) = n == 0
is_ok (fail n) = false

-- From `out` on.
abbrev pub finish_io : IoSite → Bool → ℕ → Rc → List ℕ → List (ℕ × ℕ) → SlvrCache → Option Served
finish_io e write rc reply is q c = elim (done_each e write rc is c) [
  | none ↦ none
  | some c1 ↦ some (record { cache = c1; ahead = q; rc = code rc; reply = reply })
]

-- The transfer, and the write to the file.
unfoldable pub transfer : IoSite → IoReq → List ℕ → List (ℕ × ℕ) → SlvrCache → Option Served
transfer e r is q c =
    if not (e.bulk_rc == 0)
    then finish_io e r.write e.bulk_rc (fail e.bulk_rc) is q c
    else if r.write
    then elim (write_sliver (λ i. slvr_fsio e.backfile (e.writes i)) r.offset r.size) [
      | none ↦ none
      | some (ws, rc) ↦ finish_io e r.write 0 (code rc) is q c
    ]
    else finish_io e r.write 0 (done 0) is (readahead_enqueue (add32 r.offset r.size) r.size q) c

-- The range check of a request.
abbrev pub in_range : ℕ → ℕ → Bool
in_range offset size = leb (add32 offset size) slash_bmap_size

-- From the split of the request on.
unfoldable pub serve_io : IoSite → IoReq → List (ℕ × ℕ) → SlvrCache → Option Served
serve_io e r q c = elim (prep_each e r.write (pieces_of r.offset r.size).0 c) [
  | none ↦ none
  | some (c1, is, rc) ↦
      if not (rc == 0)
      then finish_io e r.write rc (fail rc) is q c1
      else if not ((pieces_of r.offset r.size).1 == 0)
      then none
      else transfer e r is q c1
]

-- `sli_ric_handle_io`
unfoldable pub handle_io : IoSite → IoReq → List (ℕ × ℕ) → SlvrCache → Option Served
handle_io e r q c =
    if r.size == 0 || ltb e.lnet_mtu r.size
    then refuse c q (fail einval)
    else if r.bench
    then refuse c q e.bench_rc
    else if not (in_range r.offset r.size)
    then refuse c q (fail erange)
    else if not (bmapdesc_access_check r.write r.ios e.ios_id == 0)
    then refuse c q (done (bmapdesc_access_check r.write r.ios e.ios_id))
    else if ltb r.seq e.curseq
    then refuse c q (fail e.keyexpired)
    else if not (is_ok e.fcmh_rc)
    then refuse c q e.fcmh_rc
    else if not (is_ok e.bmap_rc)
    then refuse c q e.bmap_rc
    else serve_io e r q c
