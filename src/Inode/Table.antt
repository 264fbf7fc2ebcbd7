-- ===== src/Inode/Table.antt =====
-- The two arrays as one list of replicas, and `_mds_repl_ios_lookup` as an operation on it.
use slash.Prelude.{
  ℕ, zero, suc, ◌+◌, ◌≡◌, refl, ◌≤◌, ◌<◌, ap, ◌∙◌, List, [], ◌++◌, none, some, ◌==◌, length, get_or,
  take, drop, arith, length-append, Bool-cases, inl, inr,
}
use slash.Prelude.{Option}
use slash.Inode.{
  Inoh, InoxRead, block, broken, Search, at, absent, ensure_loaded, repl_at, look_at, search_from,
}
use slash.Inode.Lists.{get_or-append, index_from, drop-cons}

-- The extras block as it is in memory, or else as it is on disk.
abbrev pub ext : InoxRead → Inoh → List ℕ
ext rd ih = elim ih.extras [ some xs ↦ xs | none ↦ elim rd [ block xs ↦ xs | broken e ↦ [] ] ]

abbrev pub entries : InoxRead → Inoh → List ℕ
entries rd ih = ih.ino_repls ++ ext rd ih

-- The replicas of the file, in order.
unfoldable pub replicas : InoxRead → Inoh → List ℕ
replicas rd ih = take ih.nrepls (entries rd ih)

-- Both arrays have their sizes, and the extras block can be had.
pub record IsInoh (rd : InoxRead) (ih : Inoh) : Type 0 where
  pub size_ino : length ih.ino_repls ≡ 4
  pub size_ext : length (ext rd ih) ≡ 60
  pub bound : ih.nrepls ≤ 64

-- The same table, whether or not the extras block was loaded on the way.
pub record Same (rd : InoxRead) (ih ih' : Inoh) : Type 0 where
  pub ino : ih'.ino_repls ≡ ih.ino_repls
  pub exts : ext rd ih' ≡ ext rd ih
  pub count : ih'.nrepls ≡ ih.nrepls
  pub syncs : ih'.synced ≡ ih.synced

pub Same-IsInoh : {rd : InoxRead} {ih ih' : Inoh} → Same rd ih ih' → IsInoh rd ih → IsInoh rd ih'
Same-IsInoh s v = record {
  size_ino = ap length s.ino ∙ v.size_ino;
  size_ext = ap length s.exts ∙ v.size_ext;
  bound = omega (arith, s.count, v.bound);
}

pub replicas-Same :
    {rd : InoxRead} {ih ih' : Inoh} → Same rd ih ih' → replicas rd ih' ≡ replicas rd ih
unfolding replicas
replicas-Same s = rw (s.ino, s.exts, s.count)

-- The inode with its extras block loaded.
abbrev pub loaded : InoxRead → Inoh → Inoh
loaded rd ih = record ih { extras = some (ext rd ih) }

loaded-Same : (rd : InoxRead) (ih : Inoh) → Same rd ih (loaded rd ih)
loaded-Same rd ih = record { ino = refl; exts = refl; count = refl; syncs = refl }

pub ensure_loaded-loaded :
    (rd : InoxRead) (ih : Inoh) → IsInoh rd ih → ensure_loaded rd ih ≡ (loaded rd ih, none)
unfolding ensure_loaded
ensure_loaded-loaded rd ih v = ground (arith, v.size_ext)

-- The entry that the loop compares.
repl_at-entries :
    (rd : InoxRead) (ih : Inoh) (j : ℕ)
    → IsInoh rd ih
    → (4 ≤ j → ih.extras ≡ some (ext rd ih))
    → repl_at ih j ≡ get_or (entries rd ih) j 0
unfolding repl_at
repl_at-entries rd ih j v l =
    ground (arith, get_or-append ih.ino_repls (ext rd ih) j, v.size_ino, l)

-- What a loop that starts at `j` finds among the entries.
abbrev pub outcome : Option ℕ → Inoh → Search
outcome o ih = elim o [ none ↦ absent ih | some i ↦ at i ih ]

pub record Finds (rd : InoxRead) (ih : Inoh) (o : Option ℕ) (s : Search) : Type 0 where
  pub end_ : Inoh
  pub same : Same rd ih end_
  pub result : s ≡ outcome o end_

Same-refl : (rd : InoxRead) (ih : Inoh) → Same rd ih ih
Same-refl rd ih = record { ino = refl; exts = refl; count = refl; syncs = refl }

Same-trans : {rd : InoxRead} {a b c : Inoh} → Same rd a b → Same rd b c → Same rd a c
Same-trans s t = record {
  ino = t.ino ∙ s.ino;
  exts = t.exts ∙ s.exts;
  count = t.count ∙ s.count;
  syncs = t.syncs ∙ s.syncs;
}

look_step :
    (rd : InoxRead) (ios n j : ℕ) (ih : Inoh) (rest : Search)
    → j < length (entries rd ih)
    → repl_at ih j ≡ get_or (entries rd ih) j 0
    → Finds rd ih (index_from ios (j + 1) (take n (drop (j + 1) (entries rd ih)))) rest
    → Finds rd ih (index_from ios j (take (suc n) (drop j (entries rd ih)))) (look_at ios j ih rest)
unfolding index_from
look_step rd ios n j ih rest h e f = elim (Bool-cases (get_or (entries rd ih) j 0 == ios)) [
  | inl hit ↦ record {
    end_ = ih;
    same = Same-refl rd ih;
    result = rw (drop-cons j (entries rd ih) h, e, hit);
  }
  | inr miss ↦ record {
    end_ = f.end_;
    same = f.same;
    result = rw (drop-cons j (entries rd ih) h, e, miss) f.result;
  }
]

in_range :
    (n : ℕ) {rd : InoxRead} {ih : Inoh} {j : ℕ}
    → IsInoh rd ih
    → j + suc n ≡ ih.nrepls
    → j < length (entries rd ih)
in_range n {rd} {ih} v e = omega (arith, length-append ih.ino_repls (ext rd ih))

over_loaded :
    {rd : InoxRead} {ih : Inoh} {o : Option ℕ} {s : Search}
    → Finds rd (loaded rd ih) o s
    → Finds rd ih o s
over_loaded {rd} {ih} f = record {
  end_ = f.end_;
  same = Same-trans (loaded-Same rd ih) f.same;
  result = f.result;
}

pub search_lem :
    (rd : InoxRead) (ios n j : ℕ) (ih : Inoh)
    → IsInoh rd ih
    → j + n ≡ ih.nrepls
    → (4 < j → ih.extras ≡ some (ext rd ih))
    → Finds rd ih (index_from ios j (take n (drop j (entries rd ih)))) (search_from rd ios n j ih)
unfolding search_from index_from
search_lem rd ios zero j ih v e l = record { end_ = ih; same = Same-refl rd ih; result = refl }
search_lem rd ios (suc n) j ih v e l = elim (Bool-cases (j == 4)) [
  | inl four ↦
      rw (four, ensure_loaded-loaded rd ih v)
        (over_loaded (
          look_step rd ios n j (loaded rd ih) _ (in_range n v e)
            (repl_at-entries rd (loaded rd ih) j (Same-IsInoh (loaded-Same rd ih) v) (λ h. refl))
            (search_lem rd ios n (j + 1) (loaded rd ih) (Same-IsInoh (loaded-Same rd ih) v)
              (omega arith) (λ h. refl))))
  | inr other ↦ rw other (
      look_step rd ios n j ih _ (in_range n v e) (repl_at-entries rd ih j v (λ h. l (ground arith)))
        (search_lem rd ios n (j + 1) ih v (omega arith) (λ h. l (ground arith))))
]
