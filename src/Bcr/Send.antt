-- ===== src/Bcr/Send.antt =====
-- What is taken for a request, and what its callback leaves.
use slash.Prelude.{
  ℕ, ◌+◌, ◌-◌, ◌≡◌, ◌≤◌, refl, List, [], ◌∷◌, ◌++◌, Option, none, some, Bool, true, false, not,
  ◌||◌, ◌==◌, leb, length, if◌then◌else◌, arith, Bool-cases, inl, inr,
}
use slash.Residency.{arr_set}
use slash.SlvrCrc.{max_bmap_ncrc_updates}
use slash.Bcr.{
  Bcr, Bcrs, crud_scan, unsent, bcrcupd_each, bcrcupd_cb, bcr_ready_remove, max_bmap_inode_pairs,
  bcr_batch_age,
}

abbrev pub one : Bool → ℕ
one t = if t then 1 else 0

-- How many updates of a bmap are in a request.
unfoldable pub of_bmap : ℕ → List Bcr → ℕ
of_bmap b [] = 0
of_bmap b (x ∷ xs) = if x.bmap == b then of_bmap b xs + 1 else of_bmap b xs

of_bmap-snoc :
    (b : ℕ) (x : Bcr) (xs : List Bcr)
    → of_bmap b (xs ++ (x ∷ [])) ≡ (if x.bmap == b then of_bmap b xs + 1 else of_bmap b xs)
unfolding of_bmap
of_bmap-snoc b x [] = ground arith
of_bmap-snoc b x (z ∷ zs) = ground (arith, of_bmap-snoc b x zs)

-- Every update has a sliver.
abbrev pub AllFilled : List Bcr → Type 0
AllFilled [] = Unit {0}
AllFilled (x ∷ xs) = ((length x.crcs == 0) ≡ false) × AllFilled xs

-- The marks of a state are those of another and one for each update in a request.
abbrev pub Marks : (ℕ → Bool) → List Bcr → Bcrs → Type 0
Marks o a y = (b : ℕ) → one (y.inflight b) ≡ one (o b) + of_bmap b a

abbrev mark : Bcr → Bcrs → Bcrs
mark x y = record y {
  current = arr_set y.current x.bmap none;
  inflight = arr_set y.inflight x.bmap true;
}

Marks-mark :
    (o : ℕ → Bool) (a : List Bcr) (y : Bcrs) (x : Bcr)
    → Marks o a y
    → y.inflight x.bmap ≡ false
    → Marks o (a ++ (x ∷ [])) (mark x y)
Marks-mark o a y x h f = λ b. elim (Bool-cases (x.bmap == b)) [
  | inl e ↦ let same : x.bmap ≡ b = ground arith in ground (arith, h x.bmap, of_bmap-snoc b x a, f)
  | inr e ↦ ground (arith, h b, of_bmap-snoc b x a, e)
]

-- The scan ends, leaves the list, and marks what it takes.
abbrev Scanned : (ℕ → Bool) → Bcrs → Option (Bcrs × List Bcr) → Type 0
Scanned o y r =
    (y1 : Bcrs) × (a1 : List Bcr) × (r ≡ some (y1, a1)) × Marks o a1 y1 × (y1.ready ≡ y.ready)

crud_scan-Marks :
    (free : ℕ → Bool) (now : ℕ) (o : ℕ → Bool) (xs a : List Bcr) (y : Bcrs)
    → AllFilled xs
    → Marks o a y
    → Scanned o y (crud_scan free now xs a y)
unfolding crud_scan
crud_scan-Marks free now o [] a y f h = (y, a, refl, h, refl)
crud_scan-Marks free now o (x ∷ xs) a y f h =
    let (y1, a1, e1, h1, r1) = crud_scan-Marks free now o xs a y f.1 h in
    elim (Bool-cases (not (free x.bmap) || y.inflight x.bmap)) [
      | inl b ↦ (y1, a1, ground (arith, f, b, e1), h1, r1)
      | inr b ↦
          elim (Bool-cases
            (length x.crcs == max_bmap_inode_pairs || leb (x.age + bcr_batch_age) now)) [
              | inr c ↦ (y1, a1, ground (arith, f, b, c, e1), h1, r1)
              | inl c ↦
                  let z = mark x y in
                  let az = a ++ (x ∷ []) in
                  let hz = Marks-mark o a y x h (ground (arith, b)) in
                  elim (Bool-cases (length az == max_bmap_ncrc_updates)) [
                    | inl d ↦ (z, az, ground (arith, f, b, c, d), hz, refl)
                    | inr d ↦
                        let (y2, a2, e2, h2, r2) = crud_scan-Marks free now o xs az z f.1 hz in
                        (y2, a2, ground (arith, f, b, c, d, e2), h2, r2)
                  ]
            ]
    ]

-- The list without the updates of a request.
unfoldable pub less : List Bcr → List Bcr → List Bcr
less [] q = q
less (x ∷ xs) q = less xs (bcr_ready_remove x.ptr q)

Marks-less :
    (o : ℕ → Bool) (x : Bcr) (xs q : List Bcr) (y : Bcrs)
    → Marks o (x ∷ xs) y
    → Marks o xs (record y { inflight = arr_set y.inflight x.bmap false; ready = q })
unfolding of_bmap
Marks-less o x xs q y h = λ b. elim (Bool-cases (x.bmap == b)) [
  | inl e ↦ let same : x.bmap ≡ b = ground arith in ground (arith, h b)
  | inr e ↦ ground (arith, h b, e)
]

bcrcupd_each_lem :
    (failed : Bool) (o : ℕ → Bool) (a : List Bcr) (y : Bcrs)
    → Marks o a y
    → (y1 : Bcrs) × (bcrcupd_each failed a y ≡ some y1)
      × Marks o [] y1
      × (y1.ready ≡ (if failed then y.ready else less a y.ready))
unfolding bcrcupd_each less of_bmap
bcrcupd_each_lem failed o [] y h = (y, refl, h, ground arith)
bcrcupd_each_lem failed o (x ∷ xs) y h =
    let q = if failed then y.ready else bcr_ready_remove x.ptr y.ready in
    let z : Bcrs = record y { inflight = arr_set y.inflight x.bmap false; ready = q } in
    let (y1, e, m, r) = bcrcupd_each_lem failed o xs z (Marks-less o x xs q y h) in
    (y1, ground (arith, h x.bmap, e), m, ground (arith, r))

unsent_lem :
    (o : ℕ → Bool) (a : List Bcr) (y : Bcrs)
    → Marks o a y
    → Marks o [] (unsent a y) × ((unsent a y).ready ≡ y.ready)
unfolding unsent
unsent_lem o [] y h = (h, refl)
unsent_lem o (x ∷ xs) y h =
    unsent_lem o xs (record y { inflight = arr_set y.inflight x.bmap false })
      (Marks-less o x xs y.ready y h)

Marks-nil : (o : ℕ → Bool) (y : Bcrs) → Marks o [] y → (b : ℕ) → y.inflight b ≡ o b
unfolding of_bmap
Marks-nil o y h b = ground (arith, h b)

-- The scan for a request over a list on which every update has a sliver does not fail an assertion,
-- takes at most one update of a bmap and none of a bmap that has one under way, and leaves the list. If
-- the request cannot be sent, the marks are as before; if it is answered, the callback does not fail an
-- assertion either, the marks are as before, and the list is as before if it failed, else without the
-- updates that were taken.
pub crud_scan_lem :
    (free : ℕ → Bool) (now : ℕ) (failed : Bool) (y : Bcrs)
    → AllFilled y.ready
    → (y1 : Bcrs) × (a : List Bcr) × (crud_scan free now y.ready [] y ≡ some (y1, a))
      × ((b : ℕ) → of_bmap b a + one (y.inflight b) ≤ 1)
      × (y1.ready ≡ y.ready)
      × ((b : ℕ) → (unsent a y1).inflight b ≡ y.inflight b)
      × ((y2 : Bcrs) × (bcrcupd_cb failed a y1 ≡ some y2)
          × ((b : ℕ) → y2.inflight b ≡ y.inflight b)
          × (y2.ready ≡ (if failed then y.ready else less a y.ready)))
unfolding bcrcupd_cb of_bmap
crud_scan_lem free now failed y f =
    let (y1, a, e, h, r) = crud_scan-Marks free now y.inflight y.ready [] y f (λ b. omega arith) in
    let (y2, e2, m, r2) = bcrcupd_each_lem failed y.inflight a y1 h in
    (
      y1,
      a,
      e,
      λ b. ground (arith, h b),
      r,
      Marks-nil y.inflight (unsent a y1) (unsent_lem y.inflight a y1 h).0,
      (
        record y2 { ninfl = y2.ninfl - 1 },
        ground (arith, e2),
        Marks-nil y.inflight y2 m,
        ground (arith, r, r2),
      ),
    )
