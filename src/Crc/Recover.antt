-- ===== src/Crc/Recover.antt =====
-- Checksums that were logged are recovered.
use slash.Prelude.{
  ℕ, ◌+◌, ◌*◌, ◌/◌, ◌%◌, ◌≡◌, refl, ◌∙◌, List, [], ◌∷◌, ◌++◌, some, Bool, ◌==◌, arith, length,
  Bool-cases, inl, inr,
}
use slash.Crc.{
  CrcWire, CrcEntry, SliverTable, set_crc, replay_crc, set_crcs, replay_crcs, crc_entries,
  replay_entries,
}
use slash.Crc.Log.{all_crcs, crc_entries-Logs}

-- The same checksums and the same two flags, for data and for a checksum, of each sliver as one table has
-- them; the other flags, CRCABSENT and WANTREPL, as a third has them.
pub record IsRecovered (o s s' : SliverTable) : Type 0 where
  pub crcs : (j : ℕ) → s'.crcs j ≡ s.crcs j
  pub states : (j : ℕ) → s'.states j % 4 ≡ s.states j % 4
  pub others : (j : ℕ) → s'.states j / 4 ≡ o.states j / 4

crc-IsRecovered :
    (c : CrcWire) (o s s' : SliverTable)
    → IsRecovered o s s'
    → IsRecovered o (set_crc c s) (replay_crc c s')
unfolding set_crc replay_crc
crc-IsRecovered c o s s' h = record {
  crcs = λ j. ground (arith, h.crcs j);
  states = λ j. elim (Bool-cases (c.slot == j)) [
    | inl y ↦ ground (arith, y)
    | inr y ↦ ground (arith, y, h.states j)
  ];
  others = λ j. elim (Bool-cases (c.slot == j)) [
    | inl y ↦
        let same : c.slot ≡ j = ground arith in
        let q : (s'.states j / 4 * 4 + 3) / 4 ≡ s'.states j / 4 = omega arith in
        rw same (ground (arith, q, h.others j))
    | inr y ↦ ground (arith, y, h.others j)
  ];
}

crcs-IsRecovered :
    (cs : List CrcWire) (o s s' : SliverTable)
    → IsRecovered o s s'
    → IsRecovered o (set_crcs cs s) (replay_crcs cs s')
unfolding set_crcs replay_crcs
crcs-IsRecovered [] o s s' h = h
crcs-IsRecovered (c ∷ cs) o s s' h =
    crcs-IsRecovered cs o (set_crc c s) (replay_crc c s') (crc-IsRecovered c o s s' h)

replay_crcs-append :
    (xs ys : List CrcWire) (s : SliverTable)
    → replay_crcs (xs ++ ys) s ≡ replay_crcs ys (replay_crcs xs s)
unfolding replay_crcs
replay_crcs-append [] ys s = refl
replay_crcs-append (x ∷ xs) ys s = replay_crcs-append xs ys (replay_crc x s)

replay_entries-all :
    (es : List CrcEntry) (s : SliverTable) → replay_entries es s ≡ replay_crcs (all_crcs es) s
unfolding replay_entries all_crcs replay_crcs
replay_entries-all [] s = refl
replay_entries-all (e ∷ es) s =
    replay_entries-all es (replay_crcs e.crcs s)
    ∙ rw (replay_crcs-append e.crcs (all_crcs es) s) refl

-- The entries that an update of checksums logs, replayed on the slivers as they were before it, give
-- every sliver the checksum that the update gave it, and the same two flags for data and checksum. The
-- other flags of each sliver are as they were before the update, which clears them where it sets a
-- checksum.
pub replay-crc_entries :
    (extend : Bool) (cs : List CrcWire) (es : List CrcEntry) (s : SliverTable)
    → crc_entries (length cs) extend cs ≡ some es
    → IsRecovered s (set_crcs cs s) (replay_entries es s)
replay-crc_entries extend cs es s h =
    let (es1, e1, a1, f1, x1) = crc_entries-Logs (length cs) extend cs (omega arith) in
    let same : es ≡ es1 = ground (arith, h, e1) in
    let all : replay_entries es s ≡ replay_crcs cs s =
      rw same (replay_entries-all es1 s ∙ rw a1 refl) in
    rw all (
      crcs-IsRecovered cs s s s
        (record { crcs = λ j. refl; states = λ j. refl; others = λ j. refl }))
