-- ===== src/SlvrAio/Order.antt =====
-- The order in which two asynchronous reads of one request end.
use slash.Prelude.{
  ℕ, ◌-◌, ◌≡◌, refl, ◌∙◌, [], ◌∷◌, ◌++◌, none, some, true, false, not, ◌&&◌, ◌||◌, ◌==◌,
  if◌then◌else◌, arith, Bool-cases, inl, inr,
}
use slash.Residency.{arr_set}
use slash.Slvr.{
  Slvr, SlvrCache, put_slvr, slvr_rio_done, slvr_tryunpin, rio_unlock, unpinned, slvr_remove,
  lc_remove,
}
use slash.Slvr.Other.{rio_done-other}
use slash.SlvrAio.{
  AioReply, AioSite, aio_attach, any_faulting, aio_tryreply, fsaio_done, fsaio_slvr, aio_reply,
  aio_release, aio_chkslvrs,
}

-- Two slivers that are being read for one request.
pub record IsWaiting (y : AioSite) (i j : ℕ) (s t : Slvr) : Type 0 where
  pub ne : (i == j) ≡ false
  pub at_i : y.cache.slvrs i ≡ some s
  pub at_j : y.cache.slvrs j ≡ some t
  pub busy_i : s.faulting ≡ true
  pub busy_j : t.faulting ≡ true
  pub fresh_i : (s.datardy || s.dataerr) ≡ false
  pub fresh_j : (t.datardy || t.dataerr) ≡ false
  pub none_j : y.aioreply j ≡ none

-- If the read of the first sliver, where the reply stands, ends before that of the second, then no reply
-- is sent when both have ended, no sliver keeps it for later, and both slivers keep their references.
pub fsaio_done-lost :
    (now rc rc' i j : ℕ) (a : AioReply) (y : AioSite) (s t : Slvr)
    → a.slvrs ≡ i ∷ (j ∷ [])
    → IsWaiting y i j s t
    → (y1 : AioSite) × (y2 : AioSite) × (fsaio_done now rc i (aio_attach a a.slvrs y).0 ≡ some y1)
      × (fsaio_done now rc' j y1 ≡ some y2)
      × (y2.sent ≡ y.sent)
      × (y2.aioreply i ≡ none)
      × (y2.aioreply j ≡ none)
      × (y2.cache.slvrs i ≡ some (fsaio_slvr rc s))
      × (y2.cache.slvrs j ≡ some (fsaio_slvr rc' t))
unfolding fsaio_done aio_attach aio_tryreply any_faulting
fsaio_done-lost now rc rc' i j a y s t e h =
    let y0 : AioSite = record y { aioreply = arr_set y.aioreply i (some a) } in
    let at0 : (aio_attach a a.slvrs y).0 ≡ y0 = ground (arith, e, h) in
    let y1 : AioSite = record y {
      cache = put_slvr i (fsaio_slvr rc s) y.cache;
      aioreply = arr_set y0.aioreply i none;
    } in
    let y2 : AioSite = record y1 {
      cache = put_slvr j (fsaio_slvr rc' t) y1.cache;
      aioreply = arr_set y1.aioreply j none;
    } in
    (
      y1,
      y2,
      rw at0 (ground (arith, e, h)),
      ground (arith, h),
      refl,
      ground (arith, h),
      ground arith,
      ground (arith, h),
      ground arith,
    )

-- The release of a sliver on the LRU list whose read has ended.
rio_done-some :
    (i : ℕ) (c : SlvrCache) (s : Slvr)
    → c.slvrs i ≡ some s
    → (s.refcnt == 0) ≡ false
    → s.lru ≡ true
    → (s.datardy || s.dataerr) ≡ true
    → (c' : SlvrCache) × (slvr_rio_done i c ≡ some c')
unfolding slvr_rio_done slvr_tryunpin rio_unlock unpinned
rio_done-some i c s e r l d =
    let s1 : Slvr = record s { refcnt = s.refcnt - 1 } in
    let c1 = put_slvr i s1 c in
    elim (Bool-cases (not (s1.refcnt == 0) || s.crcdirty)) [
      | inl a ↦ (c1, ground (arith, e, r, a))
      | inr a ↦ elim (Bool-cases (s.dataerr || s.freeing)) [
        | inl b ↦ (slvr_remove i c1, ground (arith, e, r, a, b))
        | inr b ↦ (
          record c1 { lruslvrs = lc_remove i c1.lruslvrs ++ (i ∷ []) },
          ground (arith, e, r, l, d, a, b),
        )
      ]
    ]

-- What a reply to a read of two slivers that have both ended comes to.
reply_two :
    (now i j : ℕ) (a : AioReply) (y : AioSite) (s t : Slvr)
    → a.slvrs ≡ i ∷ (j ∷ [])
    → a.read ≡ true
    → (a.has_csvc && a.new_req) ≡ true
    → (j == i) ≡ false
    → y.cache.slvrs i ≡ some s
    → y.cache.slvrs j ≡ some t
    → (s.refcnt == 0 || t.refcnt == 0) ≡ false
    → (s.lru && t.lru) ≡ true
    → (s.datardy || s.dataerr) ≡ true
    → (t.datardy || t.dataerr) ≡ true
    → (y2 : AioSite) × (rc : ℕ) × (aio_reply now a y ≡ some y2) × (y2.sent ≡ (a.id, rc) ∷ y.sent)
unfolding aio_reply aio_release aio_chkslvrs
reply_two now i j a y s t e f g n p q r l d k =
    let rc =
      if s.dataerr && not (s.err == 0)
      then s.err
      else if t.dataerr && not (t.err == 0)
      then t.err
      else 0 in
    let chk : aio_chkslvrs (i ∷ (j ∷ [])) y.cache ≡ some rc = ground (arith, p, q, d, k) in
    let (c1, x1) = rio_done-some i y.cache s p (ground (arith, r)) (ground (arith, l)) d in
    let o : c1.slvrs j ≡ some t = rio_done-other j i y.cache c1 n x1 ∙ q in
    let (c2, x2) = rio_done-some j c1 t o (ground (arith, r)) (ground (arith, l)) k in
    (
      record y { cache = c2; sent = (a.id, rc) ∷ y.sent },
      rc,
      ground (arith, e, f, g, chk, x1, x2),
      refl,
    )

-- If the read of the second sliver ends first, then exactly one reply is sent, when both have ended,
-- to a read of two slivers on the LRU list that both have a reference, for which a request can be had.
pub fsaio_done-sent :
    (now rc rc' i j : ℕ) (a : AioReply) (y : AioSite) (s t : Slvr)
    → a.slvrs ≡ i ∷ (j ∷ [])
    → a.read ≡ true
    → a.repl ≡ false
    → (a.has_csvc && a.new_req) ≡ true
    → IsWaiting y i j s t
    → (s.refcnt == 0 || t.refcnt == 0) ≡ false
    → (s.lru && t.lru) ≡ true
    → (y1 : AioSite) × (y2 : AioSite) × (r : ℕ) × (fsaio_done now rc' j (aio_attach a a.slvrs y).0
        ≡ some y1)
      × (y1.sent ≡ y.sent)
      × (fsaio_done now rc i y1 ≡ some y2)
      × (y2.sent ≡ (a.id, r) ∷ y.sent)
unfolding fsaio_done aio_attach aio_tryreply any_faulting
fsaio_done-sent now rc rc' i j a y s t e f p g h r l =
    let y0 : AioSite = record y { aioreply = arr_set y.aioreply i (some a) } in
    let at0 : (aio_attach a a.slvrs y).0 ≡ y0 = ground (arith, e, h) in
    let y1 : AioSite = record y0 {
      cache = put_slvr j (fsaio_slvr rc' t) y0.cache;
      aioreply = arr_set y0.aioreply j none;
    } in
    let z : AioSite = record y1 {
      cache = put_slvr i (fsaio_slvr rc s) y1.cache;
      aioreply = arr_set y1.aioreply i none;
    } in
    let (y2, q, x, m) =
      reply_two now i j a z (fsaio_slvr rc s) (fsaio_slvr rc' t) e f g (ground (arith, h))
        (ground (arith, h)) (ground (arith, h)) (ground (arith, r)) (ground (arith, l))
        (ground arith) (ground arith) in
    (y1, y2, q, rw at0 (ground (arith, e, h)), refl, ground (arith, h, e, p, x), m)
