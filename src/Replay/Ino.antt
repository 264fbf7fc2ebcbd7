-- ===== src/Replay/Ino.antt =====
-- The replicas of a file that were logged are recovered.
use slash.Prelude.{
  ℕ, ◌≡◌, refl, ap, ◌≤◌, List, [], ◌∷◌, ◌++◌, some, true, if◌then◌else◌, arith, Bool-cases,
  Option-cases, inl, inr, ltb, length, take, drop,
}
use slash.Inode.{Inoh, InoxRead, ensure_loaded, repl_at}
use slash.Replay.{InoRepls, fill_ino_repls, any_set, set_extras, replay_ino}

take-length : (xs ys : List ℕ) → take (length xs) (xs ++ ys) ≡ xs
take-length [] ys = refl
take-length (x ∷ xs) ys = ap (λ zs. x ∷ zs) (take-length xs ys)

drop-length : (xs ys : List ℕ) → drop (length xs) (xs ++ ys) ≡ ys
drop-length [] ys = refl
drop-length (x ∷ xs) ys = drop-length xs ys

-- What the replay of logged replicas comes to.
abbrev pub RecoversIno : InoxRead → ℕ → InoRepls → Inoh → Inoh → Type 0
RecoversIno rd rc e ih ih' =
    (ih2 : Inoh) × (replay_ino rd 0 rc e ih' ≡ some (ih2, rc))
    × (ih2.nrepls ≡ ih.nrepls)
    × ((j : ℕ)
        → (if ltb j ih.nrepls then repl_at ih2 j else 0)
          ≡ (if ltb j ih.nrepls then repl_at ih j else 0))

-- The replicas of a regular file that were logged are recovered by the replay of the entry on whatever
-- the inode held, if the extras block can be had and can be written where it is needed: the number of
-- replicas and each replica are those that were logged, and the return code is that of the write of the
-- inode.
pub replay-fill_ino :
    (rd : InoxRead) (rc : ℕ) (behind xs : List ℕ) (e : InoRepls) (ih ih' : Inoh)
    → length ih.ino_repls ≡ 4
    → ih.nrepls ≤ 64
    → fill_ino_repls behind ih ≡ some e
    → any_set e.repls ≡ true
    → (ensure_loaded rd ih').0.extras ≡ some xs
    → RecoversIno rd rc e ih ih'
unfolding replay_ino set_extras fill_ino_repls repl_at
replay-fill_ino rd rc behind xs e ih ih' hl hn fill any ld = elim (Bool-cases (ltb 4 ih.nrepls)) [
  | inl big ↦ elim (Option-cases ih.extras) [
    | inl y ↦ ground (arith, fill, big, y)
    | inr (ys, y) ↦
        let er : e.repls ≡ ih.ino_repls ++ ys = ground (arith, fill, big, y) in
        let en : e.nrepls ≡ ih.nrepls = ground (arith, fill, big, y) in
        let t : take 4 e.repls ≡ ih.ino_repls = rw (er, ← hl) (take-length ih.ino_repls ys) in
        let d : drop 4 e.repls ≡ ys = rw (er, ← hl) (drop-length ih.ino_repls ys) in
        let ih2 : Inoh = record ih' {
          extras = some (drop 4 e.repls);
          nrepls = e.nrepls;
          ino_repls = take 4 e.repls;
        } in
        (ih2, ground (arith, en, big, any, ld), en, λ j. ground (arith, t, d, y))
  ]
  | inr small ↦
      let er : e.repls ≡ ih.ino_repls ++ behind = ground (arith, fill, small) in
      let en : e.nrepls ≡ ih.nrepls = ground (arith, fill, small) in
      let t : take 4 e.repls ≡ ih.ino_repls = rw (er, ← hl) (take-length ih.ino_repls behind) in
      let ih2 : Inoh = record ih' { nrepls = e.nrepls; ino_repls = take 4 e.repls } in
      (ih2, ground (arith, en, small, any), en, λ j. ground (arith, t, small))
]
