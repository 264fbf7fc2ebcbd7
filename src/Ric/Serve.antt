-- ===== src/Ric/Serve.antt =====
-- A request of a client is a sequence of steps on the cache of slivers, and gives back what it takes.
use slash.Prelude.{
  ℕ, ◌≡◌, List, [], some, Bool, true, false, not, ◌||◌, ◌==◌, ltb, arith, Bool-cases, Option-cases,
  inl, inr,
}
use slash.Errors.{Rc, done, fail}
use slash.Slvr.{SlvrCache}
use slash.Slvr.Users.{Sys, count, Steps, here}
use slash.Slvr.Fits.{view}
use slash.Ric.{
  readahead_enqueue, add32, write_sliver, code, in_range, bmapdesc_access_check, is_ok, pieces_of,
  IoSite, IoReq, Served, prep_each, done_each, finish_io, transfer, serve_io, handle_io, slvr_fsio,
}
use slash.Ric.Loops.{Holds, Holds-refl, prep_each-Steps, done_each-Steps}

-- The end of a request.
finish_io-Steps :
    (e : IoSite) (write : Bool) (rc : ℕ) (reply : Rc) (is : List ℕ) (q : List (ℕ × ℕ)) (o y z : Sys)
    (v : Served)
    → Steps y z
    → Holds is o z
    → finish_io e write rc reply is q z.cache ≡ some v
    → (w : Sys) × Steps y w × (w.cache ≡ v.cache) × Holds [] o w
finish_io-Steps e write rc reply is q o y z v p h f =
    elim (Option-cases (done_each e write rc is z.cache)) [
      | inl a ↦ absurd (ground (arith, a))
      | inr (c, a) ↦
          let (w, pw, ew, hw) = done_each-Steps e write rc is o y z c p h a in
          (w, pw, ground (arith, a, ew), hw)
    ]

transfer-Steps :
    (e : IoSite) (r : IoReq) (is : List ℕ) (q : List (ℕ × ℕ)) (o y z : Sys) (v : Served)
    → Steps y z
    → Holds is o z
    → transfer e r is q z.cache ≡ some v
    → (w : Sys) × Steps y w × (w.cache ≡ v.cache) × Holds [] o w
unfolding transfer
transfer-Steps e r is q o y z v p h t = elim (Bool-cases (e.bulk_rc == 0)) [
  | inr a ↦
      finish_io-Steps e r.write e.bulk_rc (fail e.bulk_rc) is q o y z v p h (ground (arith, a))
  | inl a ↦ elim (Bool-cases r.write) [
    | inr b ↦
        finish_io-Steps e r.write 0 (done 0) is (readahead_enqueue (add32 r.offset r.size) r.size q)
          o y z v p h (ground (arith, a, b))
    | inl b ↦
        elim (Option-cases
          (write_sliver (λ i. slvr_fsio e.backfile (e.writes i)) r.offset r.size)) [
            | inl d ↦ absurd (ground (arith, a, b, d))
            | inr ((ws, rc), d) ↦
                finish_io-Steps e r.write 0 (code rc) is q o y z v p h (ground (arith, a, b, d))
          ]
  ]
]

Holds-view :
    (y w : Sys) (c : SlvrCache) (k : ℕ)
    → w.cache ≡ c
    → Holds [] y w
    → view w k ≡ view (record y { cache = c }) k
unfolding count
Holds-view y w c k e h =
    ground (arith, h.inside k, h.refused k, h.waiting k, h.leaving k, h.work k, h.removing k)

-- A request that the handler refuses before it looks at the cache.
abbrev pub turned_down : IoSite → IoReq → Bool
turned_down e r =
    r.size == 0
    || ltb e.lnet_mtu r.size
    || r.bench
    || not (in_range r.offset r.size)
    || not (bmapdesc_access_check r.write r.ios e.ios_id == 0)
    || ltb r.seq e.curseq
    || not (is_ok e.fcmh_rc)
    || not (is_ok e.bmap_rc)

handle_io-turned_down :
    (e : IoSite) (r : IoReq) (q : List (ℕ × ℕ)) (c : SlvrCache) (v : Served)
    → turned_down e r ≡ true
    → handle_io e r q c ≡ some v
    → c ≡ v.cache
unfolding handle_io
handle_io-turned_down e r q c v a h = ground (arith, a)

pub handle_io-serve_io :
    (e : IoSite) (r : IoReq) (q : List (ℕ × ℕ)) (c : SlvrCache)
    → turned_down e r ≡ false
    → handle_io e r q c ≡ serve_io e r q c
unfolding handle_io
handle_io-serve_io e r q c a = ground (arith, a)

abbrev Reached : Sys → Served → Type 0
Reached y v = (w : Sys) × Steps y w × (w.cache ≡ v.cache) × Holds [] y w

serve_io-Steps :
    (e : IoSite) (r : IoReq) (q : List (ℕ × ℕ)) (y : Sys) (v : Served)
    → serve_io e r q y.cache ≡ some v
    → Reached y v
unfolding serve_io
serve_io-Steps e r q y v h =
    let ps = (pieces_of r.offset r.size).0 in
    elim (Option-cases (prep_each e r.write ps y.cache)) [
      | inl b ↦ absurd (ground (arith, b))
      | inr ((c1, is, rc), b) ↦
          let (z, pz, ez, hz) = prep_each-Steps e r.write ps y y c1 is rc here b in
          elim (Bool-cases (rc == 0)) [
            | inr d ↦
                finish_io-Steps e r.write rc (fail rc) is q y y z v pz hz
                  (rw ez (ground (arith, b, d)))
            | inl d ↦ transfer-Steps e r is q y y z v pz hz (rw ez (ground (arith, b, d)))
          ]
    ]

-- What a request does to the cache of slivers, on every branch that returns, is a sequence of steps of
-- one user after another; afterwards there are as many users of each kind at each sliver as before.
pub handle_io-Steps :
    (e : IoSite) (r : IoReq) (q : List (ℕ × ℕ)) (y : Sys) (v : Served)
    → handle_io e r q y.cache ≡ some v
    → (w : Sys) × Steps y w
      × (w.cache ≡ v.cache)
      × ((k : ℕ) → view w k ≡ view (record y { cache = v.cache }) k)
handle_io-Steps e r q y v h =
    let t : Reached y v = elim (Bool-cases (turned_down e r)) [
      | inl a ↦ (y, here, handle_io-turned_down e r q y.cache v a h, Holds-refl y)
      | inr a ↦ serve_io-Steps e r q y v (rw (← handle_io-serve_io e r q y.cache a) h)
    ] in
    let (w, pw, ew, hw) = t in (w, pw, ew, λ k. Holds-view y w v.cache k ew hw)
