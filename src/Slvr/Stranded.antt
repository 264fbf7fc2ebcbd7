-- ===== src/Slvr/Stranded.antt =====
-- A writer that gives its sliver back after `slvr_remove_all` has marked the sliver as being freed.
use slash.Prelude.{
  ℕ, ◌≡◌, ◌≢◌, refl, sym, ◌∙◌, List, [], Bool, some, true, false, ◌==◌, arith, Bool-cases, inl, inr,
}
use slash.Slvr.{
  Slvr, SlvrCache, lc_remove, slvr_lookup, wio_unlock, slvr_schedule_crc, reap_scan, remove_round,
}
use slash.Slvr.Users.{
  Sys, count, Step, looked_up, prepared, turned_away, ended, failed, read_done, write_done, reaped,
  marked, removed, then_remove, took, worked, Steps, here, next,
}
use slash.Slvr.Fits.{count-lc_remove, count-append, view, IsCache, at_some}
use slash.Slvr.Safe.{Step-IsCache, Steps-IsCache}
use slash.Slvr.Other.{
  reap_scan-other, slvr_remove-other, lookup-other, proc-other, round-other, rio-other, wio-other,
}

-- A sliver that waits for its checksum and is being freed, with no user and in nobody's hands.
record IsStranded (i : ℕ) (s : Slvr) (y : Sys) : Type 0 where
  there : y.cache.slvrs i ≡ some s
  freeing : s.freeing ≡ true
  unused : s.refcnt ≡ 0
  idle : count i y.at_work ≡ 0
  kept : count i y.removing ≡ 0

module _ (y : Sys) (i : ℕ) (s : Slvr) (d : IsStranded i s y) where
  -- It stays so while another sliver is at hand.
  still :
      (z : Sys)
      → z.cache.slvrs i ≡ y.cache.slvrs i
      → count i z.at_work ≡ count i y.at_work
      → count i z.removing ≡ count i y.removing
      → IsStranded i s z
  still z e w n = record {
    there = e ∙ d.there;
    freeing = d.freeing;
    unused = d.unused;
    idle = w ∙ d.idle;
    kept = n ∙ d.kept;
  }

  unused_lem :
      IsCache y
      → (count i y.waiting ≡ 0)
        × (count i y.inside ≡ 0)
        × (count i y.refused ≡ 0)
        × (count i y.leaving ≡ 0)
  unused_lem h =
      let g = at_some (view y i) s d.there (h i) in
      (ground (arith, g, d), ground (arith, g, d), ground (arith, g, d), ground (arith, g, d))

  -- It is not looked up, and not taken again.
  lookup-ne : (j : ℕ) (c : SlvrCache) → slvr_lookup j y.cache ≡ some c → (i == j) ≡ false
  unfolding slvr_lookup
  lookup-ne j c e = elim (Bool-cases (i == j)) [
    | inl q ↦ let same : i ≡ j = ground arith in absurd (ground (arith, d))
    | inr q ↦ q
  ]

  round-same : remove_round i y.cache ≡ (y.cache, false)
  unfolding remove_round
  round-same = ground (arith, d)

ne_of_count : (i j : ℕ) (q : List ℕ) → count i q ≡ 0 → count j q ≢ 0 → (i == j) ≡ false
ne_of_count i j q a b = ground arith

Step-IsStranded :
    (y z : Sys) (i : ℕ) (s : Slvr) → IsCache y → IsStranded i s y → Step y z → IsStranded i s z
unfolding count
Step-IsStranded y z i s h d (looked_up j c e) =
    still y i s d z (lookup-other i j y.cache c (lookup-ne y i s d j c e) e) refl refl
Step-IsStranded y z i s h d (prepared j t whole ahead e f n w) =
    let q = ne_of_count i j y.waiting (unused_lem y i s d h).0 w in
    still y i s d z (ground arith) refl refl
Step-IsStranded y z i s h d (turned_away j t whole ahead e f n w) =
    let q = ne_of_count i j y.waiting (unused_lem y i s d h).0 w in
    still y i s d z (ground arith) refl refl
Step-IsStranded y z i s h d (ended j t rc e w) =
    let q = ne_of_count i j y.inside (unused_lem y i s d h).1 w in
    still y i s d z (ground arith) refl refl
Step-IsStranded y z i s h d (failed j t rc e w r) =
    let q = ne_of_count i j y.refused (unused_lem y i s d h).2 w in
    still y i s d z (ground arith) refl refl
Step-IsStranded y z i s h d (read_done j c gone w e) =
    let q = ne_of_count i j y.leaving (unused_lem y i s d h).3 w in
    still y i s d z (rio-other i j y.cache c q gone e) refl (ground arith)
Step-IsStranded y z i s h d (write_done now j repl c gone w e) =
    let q = ne_of_count i j y.leaving (unused_lem y i s d h).3 w in
    still y i s d z (wio-other i j y.cache c q now repl gone e) refl (ground arith)
Step-IsStranded y z i s h d (reaped free most o) =
    let q = y.cache.lruslvrs in
    let (g, n) = reap_scan-other free most i s q [] y.cache d.there d.freeing refl in
    still y i s d z (g ∙ sym d.there) refl
      (ground (arith, n, count-append i (reap_scan free most q [] y.cache).1 y.removing))
Step-IsStranded y z i s h d (marked j t e f n) = elim (Bool-cases (i == j)) [
  | inl q ↦
      let same : i ≡ j = ground arith in
      let keep = round-same y i s d in
      still y i s d z (ground (arith, keep)) refl (ground (arith, keep))
  | inr q ↦ still y i s d z (round-other i j y.cache y.cache q) refl (ground arith)
]
Step-IsStranded y z i s h d (removed j r) =
    let q = ne_of_count i j y.removing d.kept r in
    still y i s d z (slvr_remove-other y.cache i j q) refl
      (ground (arith, count-lc_remove i j y.removing))
Step-IsStranded y z i s h d (took j expire t e c r f x) = elim (Bool-cases (i == j)) [
  | inl q ↦ let same : i ≡ j = ground arith in absurd (ground (arith, d))
  | inr q ↦ still y i s d z (ground arith) (ground arith) refl
]
Step-IsStranded y z i s h d (worked crc j k k' c w p) =
    let q = ne_of_count i j y.at_work d.idle w in
    still y i s d z (proc-other i j y.cache c q crc k k' p)
      (ground (arith, count-lc_remove i j y.at_work)) refl

Steps-IsStranded :
    (y z : Sys) (i : ℕ) (s : Slvr) → IsCache y → IsStranded i s y → Steps y z → IsStranded i s z
Steps-IsStranded y z i s h d here = d
Steps-IsStranded y z i s h d (next m w p q) =
    Step-IsStranded m w i s (Steps-IsCache y m p h) (Steps-IsStranded y m i s h d p) q

-- A sliver on the LRU list that has been marked as being freed while one user held it, and that this
-- user gives back after a write without an error: whatever happens later, the sliver stays as it is,
-- in the tree, and each round of the loop that removes the slivers of its file leaves it there.
pub remove_round-stranded :
    (y z : Sys) (now i : ℕ) (s : Slvr) (c : SlvrCache) (gone : Bool)
    → IsCache y
    → y.cache.slvrs i ≡ some s
    → s.freeing ≡ true
    → s.dataerr ≡ false
    → s.lru ≡ true
    → s.refcnt ≡ 1
    → count i y.leaving ≢ 0
    → wio_unlock now false i y.cache ≡ some (c, gone)
    → Steps
        (record y {
          cache = c;
          leaving = lc_remove i y.leaving;
          removing = then_remove gone i y.removing;
        })
        z
    → (z.cache.slvrs i ≡ some (record s { refcnt = 0; lru = false; crcdirty = true; ts = now }))
      × (remove_round i z.cache ≡ (z.cache, false))
unfolding wio_unlock slvr_schedule_crc
remove_round-stranded y z now i s c gone h e f n l r w x p =
    let s1 : Slvr = record s { refcnt = 0; lru = false; crcdirty = true; ts = now } in
    let y1 : Sys = record y {
      cache = c;
      leaving = lc_remove i y.leaving;
      removing = then_remove gone i y.removing;
    } in
    let h1 = Step-IsCache y y1 (write_done now i false c gone w x) h in
    let g = at_some (view y i) s e (h i) in
    let d : IsStranded i s1 y1 = record {
      there = ground (arith, e, n, l, r, x);
      freeing = f;
      unused = refl;
      idle = ground (arith, g);
      kept = ground (arith, e, n, l, r, x, g);
    } in
    let d1 = Steps-IsStranded y1 z i s1 h1 d p in (d1.there, round-same z i s1 d1)
