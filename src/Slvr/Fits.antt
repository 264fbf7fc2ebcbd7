-- ===== src/Slvr/Fits.antt =====
-- What fits together at each sliver: its references, its lists, its flags and its users.
use mathlib.Core.Path.{subst}
use slash.Prelude.{
  ℕ, ◌+◌, ◌-◌, ◌≡◌, sym, List, [], ◌∷◌, ◌++◌, Option, none, some, Bool, true, false, ◌&&◌, ◌||◌,
  ◌==◌, if◌then◌else◌, arith, Bool-cases, inl, inr, ◌⊎◌,
}
use slash.Slvr.{Slvr, lc_remove}
use slash.Slvr.Users.{Sys, count}

pub count-lc_remove :
    (k i : ℕ) (q : List ℕ) → count k (lc_remove i q) ≡ (if i == k then count k q - 1 else count k q)
unfolding count lc_remove
count-lc_remove k i [] = ground arith
count-lc_remove k i (j ∷ q) = ground (arith, count-lc_remove k i q)

pub count-snoc :
    (k i : ℕ) (q : List ℕ) → count k (q ++ (i ∷ [])) ≡ (if i == k then count k q + 1 else count k q)
unfolding count
count-snoc k i [] = ground arith
count-snoc k i (j ∷ q) = ground (arith, count-snoc k i q)

pub count-cons :
    (k i : ℕ) (q : List ℕ) → count k (i ∷ q) ≡ (if i == k then count k q + 1 else count k q)
unfolding count
count-cons k i q = ground arith

pub count-append : (k : ℕ) (xs ys : List ℕ) → count k (xs ++ ys) ≡ count k xs + count k ys
unfolding count
count-append k [] ys = omega arith
count-append k (x ∷ xs) ys = ground (arith, count-append k xs ys)

pub ==-refl : (i : ℕ) → (i == i) ≡ true
==-refl i = ground arith

abbrev pub one : Bool → ℕ
one t = if t then 1 else 0

-- What there is at one number: the sliver, how often it stands on the two lists and in the thread's
-- hands, and how many users there are of each kind.
pub record View : Type 0 where
  pub slvr : Option Slvr
  pub lru : ℕ
  pub crcq : ℕ
  pub work : ℕ
  pub waiting : ℕ
  pub inside : ℕ
  pub refused : ℕ
  pub leaving : ℕ
  pub removing : ℕ

abbrev pub view : Sys → ℕ → View
view y k = record {
  slvr = y.cache.slvrs k;
  lru = count k y.cache.lruslvrs;
  crcq = count k y.cache.crcqslvrs;
  work = count k y.at_work;
  waiting = count k y.waiting;
  inside = count k y.inside;
  refused = count k y.refused;
  leaving = count k y.leaving;
  removing = count k y.removing;
}

-- A sliver that a thread is about to remove: no other thread is, nobody uses it, and nobody can take
-- it up.
abbrev is_doomed : Slvr → View → Bool
is_doomed s v =
    v.removing == 1 && (s.refcnt == 0 && (v.work == 0 && (s.freeing || (s.dataerr && s.lru))))

-- The references are the users. The sliver is on the LRU list, on the list of the dirty ones or in
-- the thread's hands, once and as its flags say. FAULTING is owned by one user inside or by the
-- thread; an error shuts everybody out.
pub record IsSlvr (s : Slvr) (v : View) : Type 0 where
  pub refs : s.refcnt ≡ v.waiting + v.inside + v.refused + v.leaving
  pub clean : v.lru ≡ one s.lru
  pub dirty : v.crcq + v.work ≡ one s.crcdirty
  pub either : one s.lru + one s.crcdirty ≡ 1
  pub owner : v.inside + v.work ≡ one s.faulting
  pub alone : (v.work ≡ 0) ⊎ (v.refused + v.leaving ≡ 0)
  pub valid : (s.dataerr ≡ false) ⊎ (v.inside ≡ 0)
  pub refusal : (s.dataerr ≡ true) ⊎ (v.refused ≡ 0)
  pub ended : (s.dataerr ≡ true) ⊎ (s.datardy ≡ true) ⊎ (v.leaving ≡ 0)
  pub written : (s.dataerr ≡ true) ⊎ (s.datardy ≡ true) ⊎ (s.crcdirty ≡ false)
  pub doomed : (v.removing ≡ 0) ⊎ (is_doomed s v ≡ true)
  pub shut : (s.dataerr ≡ false) ⊎ (s.datardy ≡ false)

-- Where there is no sliver there is nothing on a list and no user.
pub record IsGone (v : View) : Type 0 where
  pub lists : v.lru + v.crcq + v.work ≡ 0
  pub nobody : v.removing ≡ 0
  pub users : v.waiting + v.inside + v.refused + v.leaving ≡ 0

abbrev pub FitsAt : Option Slvr → View → Type 0
FitsAt none v = IsGone v
FitsAt (some s) v = IsSlvr s v

abbrev pub Fits : View → Type 0
Fits v = FitsAt v.slvr v

abbrev pub IsCache : Sys → Type 0
IsCache y = (k : ℕ) → Fits (view y k)

pub at_some : (v : View) (s : Slvr) → v.slvr ≡ some s → Fits v → IsSlvr s v
at_some v s e h = let f : FitsAt (some s) v = subst (λ o. FitsAt o v) e h in f

pub at_none : (v : View) → v.slvr ≡ none → Fits v → IsGone v
at_none v e h = let f : FitsAt none v = subst (λ o. FitsAt o v) e h in f

pub from_some : (v : View) (s : Slvr) → v.slvr ≡ some s → IsSlvr s v → Fits v
from_some v s e h = subst (λ o. FitsAt o v) (sym e) h

pub from_none : (v : View) → v.slvr ≡ none → IsGone v → Fits v
from_none v e h = subst (λ o. FitsAt o v) (sym e) h

-- A step that looks at one number keeps what fits if it does there.
pub change :
    (y z : Sys) (i : ℕ)
    → IsCache y
    → Fits (view z i)
    → ((k : ℕ) → (i == k) ≡ false → view z k ≡ view y k)
    → IsCache z
change y z i h f o k = elim (Bool-cases (i == k)) [
  | inl e ↦ let same : i ≡ k = ground arith in subst (λ j. Fits (view z j)) same f
  | inr e ↦ subst Fits (sym (o k e)) (h k)
]

pub same_view : (y z : Sys) → ((k : ℕ) → view z k ≡ view y k) → IsCache y → IsCache z
same_view y z e h k = subst Fits (sym (e k)) (h k)
