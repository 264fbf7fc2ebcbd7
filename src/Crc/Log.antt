-- ===== src/Crc/Log.antt =====
-- The loop that logs the checksums comes to an end, and logs each once.
use slash.Prelude.{
  ℕ, zero, suc, ◌≡◌, refl, ◌<◌, ◌≤◌, List, [], ◌∷◌, ◌++◌, some, Bool, false, arith, length, take,
  drop, take-append-drop, length-drop, length-take,
}
use slash.Crc.{CrcWire, CrcEntry, crc_entries}

-- The updates of some entries, in order.
unfoldable pub all_crcs : List CrcEntry → List CrcWire
all_crcs [] = []
all_crcs (e ∷ es) = e.crcs ++ all_crcs es

-- Every entry has at least one update and at most what there is room for.
abbrev pub AllFit : List CrcEntry → Type 0
AllFit [] = Unit {0}
AllFit (e ∷ es) = ((0 < length e.crcs) × (length e.crcs ≤ 24)) × AllFit es

-- Only the first entry extends the file.
abbrev pub FirstExtends : Bool → List CrcEntry → Type 0
FirstExtends distill [] = Unit {0}
FirstExtends distill (e ∷ es) = (e.extend ≡ distill) × FirstExtends false es

abbrev pub Logs : ℕ → Bool → List CrcWire → Type 0
Logs fuel distill cs =
    (es : List CrcEntry) × (crc_entries fuel distill cs ≡ some es)
    × (all_crcs es ≡ cs)
    × AllFit es
    × FirstExtends distill es

-- The loop that logs the updates ends within as many turns as there are updates: the entries hold the
-- updates in order and each once, none is empty or has more than there is room for, and only the first
-- extends the file, if that is asked for.
pub crc_entries-Logs :
    (fuel : ℕ) (distill : Bool) (cs : List CrcWire) → length cs ≤ fuel → Logs fuel distill cs
unfolding crc_entries all_crcs
crc_entries-Logs fuel distill [] h = ([], refl, refl, tt, tt)
crc_entries-Logs zero distill (c ∷ cs) h = absurd (omega arith)
crc_entries-Logs (suc fuel) distill (c ∷ cs) h =
    let (es, e, a, f, x) =
      crc_entries-Logs fuel false (drop 24 (c ∷ cs)) (omega (arith, length-drop 24 (c ∷ cs), h)) in
    (
      record { extend = distill; crcs = take 24 (c ∷ cs) } ∷ es,
      ground (arith, e),
      rw a (take-append-drop 24 (c ∷ cs)),
      ((omega (arith, length-take 24 (c ∷ cs)), omega (arith, length-take 24 (c ∷ cs))), f),
      (refl, x),
    )
