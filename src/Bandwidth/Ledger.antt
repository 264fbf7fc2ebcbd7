-- ===== src/Bandwidth/Ledger.antt =====
-- The reservations of bandwidth that stand, and the steps that change them.
use slash.Prelude.{
  ℕ, zero, suc, ◌+◌, ◌≡◌, refl, ◌<◌, ◌≤◌, List, [], ◌∷◌, Option, none, some, Bool, true, ◌==◌, ◌&&◌,
  ltb, if◌then◌else◌, arith, Option-cases, inl, inr,
}
use slash.Prelude.Ints.{pos, neg}
use slash.Residency.{arr_set}
use slash.Bandwidth.{Ios, howmany_units, resmpair_bw_adj, BwQueued, unpack_statfs}
use slash.Bandwidth.Adjust.{amount}

-- A reservation of bytes that was not released.
pub record Reserved : Type 0 where
  pub src : ℕ
  pub dst : ℕ
  pub amt : ℕ

-- The units reserved from a server, and to it.
unfoldable pub sent_by : List Reserved → ℕ → ℕ
sent_by [] i = 0
sent_by (r ∷ rs) i = (if r.src == i then howmany_units r.amt else 0) + sent_by rs i

unfoldable pub sent_to : List Reserved → ℕ → ℕ
sent_to [] i = 0
sent_to (r ∷ rs) i = (if r.dst == i then howmany_units r.amt else 0) + sent_to rs i

-- The reservation at a place, and the others.
unfoldable pub pick : List Reserved → ℕ → Option (Reserved × List Reserved)
pick [] k = none
pick (r ∷ rs) zero = some (r, rs)
pick (r ∷ rs) (suc k) = elim (pick rs k) [ none ↦ none | some (x, xs) ↦ some (x, r ∷ xs) ]

-- The servers and the reservations that stand.
pub record Promised : Type 0 where
  pub ios : ℕ → Ios
  pub held : List Reserved

-- What a server reports leaves room in a 32-bit counter for what is on its way.
abbrev pub is_modest : BwQueued → Bool
is_modest q =
    ltb q.sbq_ingress 1073741824 && (ltb q.sbq_egress 1073741824 && ltb q.sbq_aggr 1073741824)

-- A bmap's worth of data at most is reserved for a request; the refused ones change nothing.
pub data Step : Promised → Promised → Type 0 where
  reserve :
      (w : Promised) (ios : ℕ → Ios) (more : Bool) (r : Reserved)
      → 0 < r.amt
      → r.amt ≤ 134217728
      → resmpair_bw_adj w.ios r.src r.dst (pos r.amt) ≡ some (ios, true, more)
      → Step w (record { ios = ios; held = r ∷ w.held })
  release :
      (w : Promised) (ios : ℕ → Ios) (rc more : Bool) (k : ℕ) (r : Reserved) (rs : List Reserved)
      → 0 < r.amt
      → pick w.held k ≡ some (r, rs)
      → resmpair_bw_adj w.ios r.src r.dst (neg r.amt) ≡ some (ios, rc, more)
      → Step w (record { ios = ios; held = rs })
  report :
      (w : Promised) (i : ℕ) (q : BwQueued)
      → is_modest q ≡ true
      → Step w (record w { ios = arr_set w.ios i (unpack_statfs q (w.ios i)) })

pub data Reach (w : Promised) : Promised → Type 0 where
  start : Reach w w
  step_on : (v u : Promised) → Reach w v → Step v u → Reach w u

pub record IsBalanced (w : Promised) : Type 0 where
  pub out : (i : ℕ) → (w.ios i).egress.assigned ≡ sent_by w.held i
  pub into : (i : ℕ) → (w.ios i).ingress.assigned ≡ sent_to w.held i
  pub both : (i : ℕ) → (w.ios i).aggr.assigned ≡ sent_by w.held i + sent_to w.held i

pub pick-sums :
    (rs : List Reserved) (k : ℕ) (r : Reserved) (xs : List Reserved) (i : ℕ)
    → pick rs k ≡ some (r, xs)
    → (sent_by rs i ≡ amount (r.src == i) (howmany_units r.amt) + sent_by xs i)
      × (sent_to rs i ≡ amount (r.dst == i) (howmany_units r.amt) + sent_to xs i)
unfolding pick sent_by sent_to
pick-sums [] k r xs i e = cc
pick-sums (y ∷ rs) zero r xs i e =
    let a : y ≡ r = ground (arith, e) in
    let b : rs ≡ xs = ground (arith, e) in rw (a, b) (refl, refl)
pick-sums (y ∷ rs) (suc k) r xs i e = elim (Option-cases (pick rs k)) [
  | inl n ↦ ground (arith, e, n)
  | inr ((z, zs), n) ↦
      let a : z ≡ r = ground (arith, e, n) in
      let b : y ∷ zs ≡ xs = ground (arith, e, n) in
      let (p, q) = pick-sums rs k z zs i n in rw (← a, ← b) (ground (arith, p), ground (arith, q))
]
