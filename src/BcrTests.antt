-- ===== src/BcrTests.antt =====
-- The theorems on updates of checksums at small concrete states.
use slash.Prelude.{
  ℕ, ◌+◌, ◌≡◌, ◌≤◌, refl, List, [], ◌∷◌, none, some, true, false, ◌&&◌, ◌==◌, if◌then◌else◌, arith,
  inl, inr,
}
use slash.Bcr.{Bcr, Bcrs, add_crc, crud_scan, unsent, bcrcupd_cb}
use slash.Bcr.Pending.{pending, IsCurrent, LastOf}
use slash.Bcr.Adds.{add_crc_lem}
use slash.Bcr.Send.{AllFilled, of_bmap, one, less, crud_scan_lem}

-- Two updates of bmap 5, of which the first could not be sent, and one of bmap 6.
abbrev bcr : ℕ → ℕ → List (ℕ × ℕ) → Bcr
bcr p b crcs = record { ptr = p; bmap = b; crcs = crcs; age = 10 }

abbrev bcrs : Bcrs
bcrs = record {
  ready =
      bcr 0 5 ((1, 70) ∷ ((2, 71) ∷ [])) ∷ (bcr 1 6 ((1, 80) ∷ []) ∷ (bcr 2 5 ((1, 72) ∷ []) ∷ []));
  current = λ b. if b == 5 then some 2 else none;
  inflight = λ b. false;
  ninfl = 1;
  fresh = 3;
}

bcrs-last : (b p : ℕ) → bcrs.current b ≡ some p → LastOf b p bcrs.ready
bcrs-last b p e =
    let at_b : b ≡ 5 = ground arith in
    let at_p : p ≡ 2 = ground arith in
    rw (at_b, at_p) (inr (refl, inr (refl, inl (refl, refl, omega arith, tt))))

bcrs-IsCurrent : IsCurrent bcrs
bcrs-IsCurrent = record { last = bcrs-last; below = omega arith }

add_crc_lem_example :
    (y' : Bcrs) × (add_crc 5 2 99 40 bcrs ≡ some y')
    × ((c k : ℕ)
        → pending c k y'.ready ≡ (if 5 == c && 2 == k then some 99 else pending c k bcrs.ready))
    × IsCurrent y'
add_crc_lem_example = add_crc_lem 5 2 99 40 bcrs bcrs-IsCurrent

filled : AllFilled bcrs.ready
filled = (refl, (refl, (refl, tt)))

crud_scan_lem_example :
    (y1 : Bcrs) × (a : List Bcr) × (crud_scan (λ b. true) 40 bcrs.ready [] bcrs ≡ some (y1, a))
    × ((b : ℕ) → of_bmap b a + one (bcrs.inflight b) ≤ 1)
    × (y1.ready ≡ bcrs.ready)
    × ((b : ℕ) → (unsent a y1).inflight b ≡ bcrs.inflight b)
    × ((y2 : Bcrs) × (bcrcupd_cb false a y1 ≡ some y2)
        × ((b : ℕ) → y2.inflight b ≡ bcrs.inflight b)
        × (y2.ready ≡ (if false then bcrs.ready else less a bcrs.ready)))
crud_scan_lem_example = crud_scan_lem (λ b. true) 40 false bcrs filled
