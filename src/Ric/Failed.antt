-- ===== src/Ric/Failed.antt =====
-- What a failed write to the file changes.
use slash.Prelude.{
  ℕ, ◌+◌, ◌^◌, ◌≤◌, ◌<◌, ◌≡◌, refl, sym, ap, ◌∙◌, List, [], ◌∷◌, Option, none, some, Bool, true,
  false, not, ◌&&◌, ◌==◌, if◌then◌else◌, arith, Bool-cases, Option-cases, inl, inr,
}
use slash.Errors.{Rc, done, fail}
use slash.Request.{slash_bmap_size}
use slash.Traffic.{slash_slvr_size}
use slash.Slvr.{
  SlvrCache, put_slvr, slvr_lookup, slvr_io_prep, slvr_io_done, slvr_wio_done, slvr_rio_done,
}
use slash.Ric.{
  IoSite, IoReq, Piece, Served, Moved, prep_each, done_each, finish_io, transfer, serve_io,
  handle_io, slvr_fsio, code, pieces_of,
}
use slash.Ric.Pieces.{write_sliver_lem}
use slash.Ric.Serve.{turned_down, handle_io-serve_io}

-- The state of the cache and what the handler returns, without the reply.
abbrev pub kept : Option Served → Option (SlvrCache × Rc)
kept none = none
kept (some v) = some (v.cache, v.rc)

module _ (e : IoSite) (w : ℕ → Moved) where
  abbrev with_writes : IoSite
  with_writes = record e { writes = w }

  prep_each-writes :
      (write : Bool) (ps : List Piece) (c : SlvrCache)
      → prep_each with_writes write ps c ≡ prep_each e write ps c
  unfolding prep_each
  prep_each-writes write [] c = refl
  prep_each-writes write (p ∷ ps) c = elim (Option-cases (slvr_lookup (e.base + p.slvr) c)) [
    | inl a ↦ ground (arith, a)
    | inr (c1, a) ↦ elim (Option-cases (c1.slvrs (e.base + p.slvr))) [
      | inl b ↦ ground (arith, a, b)
      | inr (s, b) ↦
          let i = e.base + p.slvr in
          let c2 =
            put_slvr i (slvr_io_prep (write && p.roff == 0 && p.len == slash_slvr_size) false s).0
              c1 in
          ground (arith, a, b, prep_each-writes write ps c2)
    ]
  ]

  done_each-writes :
      (write : Bool) (rc : ℕ) (is : List ℕ) (c : SlvrCache)
      → done_each with_writes write rc is c ≡ done_each e write rc is c
  unfolding done_each
  done_each-writes write rc [] c = refl
  done_each-writes write rc (i ∷ is) c = elim (Option-cases (c.slvrs i)) [
    | inl a ↦ ground (arith, a)
    | inr (s, a) ↦
        let c1 = put_slvr i (slvr_io_done rc s) c in
        elim (Option-cases (if write then slvr_wio_done e.now false i c1 else slvr_rio_done i c1)) [
          | inl b ↦ ground (arith, a, b)
          | inr (c2, b) ↦ ground (arith, a, b, done_each-writes write rc is c2)
        ]
  ]

-- What a write that was transferred comes to, whatever the file system answered.
abbrev write_end : IoSite → List ℕ → SlvrCache → Option (SlvrCache × Rc)
write_end e is c = elim (done_each e true 0 is c) [ none ↦ none | some c1 ↦ some (c1, done 0) ]

transfer-write :
    (e : IoSite) (w : ℕ → Moved) (r : IoReq) (is : List ℕ) (q : List (ℕ × ℕ)) (c : SlvrCache)
    → r.write ≡ true
    → (e.bulk_rc == 0) ≡ true
    → 0 < r.size
    → r.size ≤ slash_slvr_size
    → r.offset + r.size ≤ slash_bmap_size
    → kept (transfer (with_writes e w) r is q c) ≡ write_end e is c
unfolding transfer
transfer-write e w r is q c a b l m n =
    let (ws, rc, x, _) = write_sliver_lem (λ i. slvr_fsio e.backfile (w i)) r.offset r.size l m n in
    let d = done_each-writes e w true 0 is c in
    elim (Option-cases (done_each e true 0 is c)) [
      | inl y ↦ ground (arith, a, b, x, d, y)
      | inr (c1, y) ↦ ground (arith, a, b, x, d, y)
    ]

-- A write that is not refused, up to what the transfer leaves.
abbrev served_write : IoSite → IoReq → SlvrCache → Option (SlvrCache × Rc)
served_write e r c = elim (prep_each e true (pieces_of r.offset r.size).0 c) [
  | none ↦ none
  | some (c1, is, rc) ↦
      if not (rc == 0)
      then elim (done_each e true rc is c1) [ none ↦ none | some c2 ↦ some (c2, code rc) ]
      else if not ((pieces_of r.offset r.size).1 == 0)
      then none
      else if not (e.bulk_rc == 0)
      then elim (done_each e true e.bulk_rc is c1) [
        | none ↦ none
        | some c2 ↦ some (c2, code e.bulk_rc)
      ]
      else write_end e is c1
]

finish-kept :
    (e : IoSite) (w : ℕ → Moved) (rc : ℕ) (reply : Rc) (is : List ℕ) (q : List (ℕ × ℕ))
    (c : SlvrCache)
    → kept (finish_io (with_writes e w) true rc reply is q c)
      ≡ elim (done_each e true rc is c) [ none ↦ none | some c2 ↦ some (c2, code rc) ]
finish-kept e w rc reply is q c =
    let d = done_each-writes e w true rc is c in
    elim (Option-cases (done_each e true rc is c)) [
      | inl y ↦ ground (arith, d, y)
      | inr (c1, y) ↦ ground (arith, d, y)
    ]

transfer-bulk :
    (e : IoSite) (w : ℕ → Moved) (r : IoReq) (is : List ℕ) (q : List (ℕ × ℕ)) (c : SlvrCache)
    → r.write ≡ true
    → (e.bulk_rc == 0) ≡ false
    → kept (transfer (with_writes e w) r is q c)
      ≡ elim (done_each e true e.bulk_rc is c) [ none ↦ none | some c2 ↦ some (c2, code e.bulk_rc) ]
unfolding transfer
transfer-bulk e w r is q c a b =
    ground (arith, a, b, finish-kept e w e.bulk_rc (fail e.bulk_rc) is q c)

-- A request that is turned down.
handle_io-refused :
    (e : IoSite) (w : ℕ → Moved) (r : IoReq) (q : List (ℕ × ℕ)) (c : SlvrCache)
    → turned_down e r ≡ true
    → kept (handle_io (with_writes e w) r q c) ≡ kept (handle_io e r q c)
unfolding handle_io
handle_io-refused e w r q c a = ground (arith, a)

serve_io-write :
    (e : IoSite) (w : ℕ → Moved) (r : IoReq) (q : List (ℕ × ℕ)) (c : SlvrCache)
    → r.write ≡ true
    → 0 < r.size
    → r.size ≤ slash_slvr_size
    → r.offset + r.size ≤ slash_bmap_size
    → kept (serve_io (with_writes e w) r q c) ≡ served_write e r c
unfolding serve_io
serve_io-write e w r q c b l m n =
    let ps = (pieces_of r.offset r.size).0 in
    let x = prep_each-writes e w true ps c in
    elim (Option-cases (prep_each e true ps c)) [
      | inl a ↦ ground (arith, a, b, x)
      | inr ((c1, is, rc), a) ↦ elim (Bool-cases (rc == 0)) [
        | inr d ↦ ground (arith, a, b, x, d, finish-kept e w rc (fail rc) is q c1)
        | inl d ↦ elim (Bool-cases (e.bulk_rc == 0)) [
          | inl k ↦ ground (arith, a, b, x, d, k, transfer-write e w r is q c1 b k l m n)
          | inr k ↦ ground (arith, a, b, x, d, k, transfer-bulk e w r is q c1 b k)
        ]
      ]
    ]

-- However the writes to the file turn out, a write request whose end does not pass 2 ^ 32 leaves the
-- cache of slivers the same and has the handler return the same: a failed write marks no sliver with
-- its error, it only changes the reply.
pub handle_io-writes :
    (e : IoSite) (w w' : ℕ → Moved) (r : IoReq) (q : List (ℕ × ℕ)) (c : SlvrCache)
    → r.write ≡ true
    → e.lnet_mtu ≤ slash_slvr_size
    → r.offset + r.size < 2 ^ 32
    → kept (handle_io (record e { writes = w }) r q c)
      ≡ kept (handle_io (record e { writes = w' }) r q c)
handle_io-writes e w w' r q c b m n = elim (Bool-cases (turned_down e r)) [
  | inl a ↦ handle_io-refused e w r q c a ∙ sym (handle_io-refused e w' r q c a)
  | inr a ↦
      let l : (0 < r.size) × (r.size ≤ slash_slvr_size) × (r.offset + r.size ≤ slash_bmap_size) =
        (ground (arith, a), ground (arith, a), ground (arith, a)) in
      let f = λ (v : ℕ → Moved).
        ap kept (handle_io-serve_io (with_writes e v) r q c a)
        ∙ serve_io-write e v r q c b l.0 l.1 l.2 in
      f w ∙ sym (f w')
]
