-- ===== src/Inode.antt =====
-- slashd/inode.h, and from slashd/repl_mds.c the table of a file's replicas: `_mds_repl_ios_lookup`
-- and `_mds_repl_iosv_lookup`. The first replicas stand in the inode, the others in the extras
-- block, which is read from disk when it is first needed.
-- `none` stands for a failed `psc_assert`, or for the use of an extras block that is not there.
pub mod Lists
pub mod Table
pub mod Remove
pub mod Lookup
pub mod Vector
use mathlib.Core.Option
use slash.Prelude.{
  ℕ, zero, suc, ◌+◌, ◌-◌, ◌&&◌, ◌||◌, ◌⊎◌, inl, inr, List, [], ◌∷◌, none, some, Bool, true, false,
  ltb, leb, ◌==◌, if◌then◌else◌, get_or, set,
}
use slash.Prelude.{Option}
use slash.Errors.{Rc, done, fail, einval, enospc, slerr_repl_not_act, slerr_res_badtype}

abbrev pub sl_def_replicas : ℕ
sl_def_replicas = 4

abbrev pub sl_max_replicas : ℕ
sl_max_replicas = 64

-- `struct slm_inoh`: the IDs in the inode, those in the extras block if it is loaded, and the number
-- of replicas. `synced` counts the calls of `mds_inodes_odsync`.
pub record Inoh : Type 0 where
  pub ino_repls : List ℕ
  pub extras : Option (List ℕ)
  pub nrepls : ℕ
  pub synced : ℕ

-- What `mds_inox_load_locked` finds on disk: the extras block, or an error.
pub data InoxRead : Type 0 where
  block : List ℕ → InoxRead
  broken : ℕ → InoxRead

-- The flags of a lookup.
pub data LookupFlag : Type 0 where
  plain add del : LookupFlag

-- `mds_inox_ensure_loaded`, with its error.
unfoldable pub ensure_loaded : InoxRead → Inoh → Inoh × Option ℕ
ensure_loaded rd ih = elim ih.extras [
  | some xs ↦ (ih, none)
  | none ↦ elim rd [ block xs ↦ (record ih { extras = some xs }, none) | broken e ↦ (ih, some e) ]
]

abbrev pub extras_or : Inoh → List ℕ
extras_or ih = elim ih.extras [ some xs ↦ xs | none ↦ [] ]

-- `repl[k].bs_id` in the loop, where `j` counts the replicas.
unfoldable pub repl_at : Inoh → ℕ → ℕ
repl_at ih j =
    if ltb j sl_def_replicas
    then get_or ih.ino_repls j 0
    else get_or (extras_or ih) (j - sl_def_replicas) 0

-- Where the loop ends: at a replica, past the last, or by an error.
pub data Search : Type 0 where
  at : ℕ → Inoh → Search
  absent : Inoh → Search
  broke : ℕ → Inoh → Search

abbrev look_at : ℕ → ℕ → Inoh → Search → Search
look_at ios j ih rest = if repl_at ih j == ios then at j ih else rest

-- `inox_rc = mds_inox_ensure_loaded(ih); if (inox_rc) goto out;`
abbrev loaded_or : {A : Type 0} → (ℕ → Inoh → A) → (Inoh → A) → Inoh × Option ℕ → A
loaded_or failed next (ih, none) = next ih
loaded_or failed next (ih, some e) = failed e ih

-- The loop of `_mds_repl_ios_lookup` with `n` replicas to go.
unfoldable pub search_from : InoxRead → ℕ → ℕ → ℕ → Inoh → Search
search_from rd ios zero j ih = absent ih
search_from rd ios (suc n) j ih =
    if j == sl_def_replicas
    then loaded_or broke (λ ih'. look_at ios j ih' (search_from rd ios n (j + 1) ih'))
        (ensure_loaded rd ih)
    else look_at ios j ih (search_from rd ios n (j + 1) ih)

-- `memmove(&repl[k], &repl[k + 1], (n - k - 1) * sizeof(*repl))` in an array of `n` entries.
unfoldable pub shift_down : List ℕ → ℕ → List ℕ
shift_down [] k = []
shift_down (x ∷ []) k = x ∷ []
shift_down (x ∷ (y ∷ ys)) zero = y ∷ shift_down (y ∷ ys) zero
shift_down (x ∷ (y ∷ ys)) (suc k) = x ∷ shift_down (y ∷ ys) k

-- What IOSV_LOOKUPF_DEL does to the arrays, with the extras block at hand.
unfoldable pub del_arrays : List ℕ → List ℕ → ℕ → ℕ → List ℕ × List ℕ
del_arrays ino ext nr j =
    let ino1 = if ltb j (sl_def_replicas - 1) then shift_down ino j else ino in
    let ino2 =
      if ltb j sl_def_replicas && ltb sl_def_replicas nr
      then set ino1 (sl_def_replicas - 1) (get_or ext 0 0)
      else ino1 in
    let k = if ltb j sl_def_replicas then 0 else j - sl_def_replicas in
    (ino2, if ltb sl_def_replicas nr && ltb j (sl_max_replicas - 1) then shift_down ext k else ext)

-- IOSV_LOOKUPF_DEL at replica `j`. The result of the load is ignored there.
unfoldable pub remove_repl : InoxRead → Inoh → ℕ → Option Inoh
remove_repl rd ih j =
    if ltb sl_def_replicas ih.nrepls
    then elim (ensure_loaded rd ih).0.extras [
      | none ↦ none
      | some ext ↦
          let (ino', ext') = del_arrays ih.ino_repls ext ih.nrepls j in
          some (record ih {
            ino_repls = ino';
            extras = some ext';
            nrepls = ih.nrepls - 1;
            synced = ih.synced + 1;
          })
    ]
    else some (record ih {
      ino_repls = (del_arrays ih.ino_repls [] ih.nrepls j).0;
      nrepls = ih.nrepls - 1;
      synced = ih.synced + 1;
    })

-- IOSV_LOOKUPF_ADD, with the ID behind the last replica.
unfoldable pub append_repl : InoxRead → ℕ → Inoh → Option (Rc × Inoh)
append_repl rd ios ih =
    let nr = ih.nrepls in
    if ltb sl_max_replicas nr
    then none
    else if nr == sl_max_replicas
    then some (fail enospc, ih)
    else if leb sl_def_replicas nr
    then loaded_or (λ e ih'. some (fail e, ih'))
        (λ ih'. some (
          done nr,
          record ih' {
            extras = Option.map (λ xs. set xs (nr - sl_def_replicas) ios) ih'.extras;
            nrepls = nr + 1;
            synced = ih'.synced + 1;
          },
        ))
        (ensure_loaded rd ih)
    else some (
      done nr,
      record ih { ino_repls = set ih.ino_repls nr ios; nrepls = nr + 1; synced = ih.synced + 1 },
    )

-- `_mds_repl_ios_lookup`. `isfs` tells of an ID whether the configuration knows it as a resource
-- that stores files (`libsl_id2res`, RES_ISFS).
unfoldable pub ios_lookup : InoxRead → (ℕ → Bool) → ℕ → LookupFlag → Inoh → Option (Rc × Inoh)
ios_lookup rd isfs ios flags ih = elim (search_from rd ios ih.nrepls 0 ih) [
  | broke e ih' ↦ some (fail e, ih')
  | at j ih' ↦ elim flags [
    | del ↦ Option.map (λ i. (done j, i)) (remove_repl rd ih' j)
    | _ ↦ some (done j, ih')
  ]
  | absent ih' ↦
      if isfs ios
      then elim flags [ add ↦ append_repl rd ios ih' | _ ↦ some (fail slerr_repl_not_act, ih') ]
      else some (fail slerr_res_badtype, ih')
]

abbrev pub Indices : Type 0
Indices = Option ((ℕ ⊎ List ℕ) × Inoh)

abbrev pub push_index : ℕ → Indices → Indices
push_index j none = none
push_index j (some (inl e, ih)) = some (inl e, ih)
push_index j (some (inr js, ih)) = some (inr (j ∷ js), ih)

abbrev pub after_lookup : (Inoh → Indices) → Option (Rc × Inoh) → Indices
after_lookup rest none = none
after_lookup rest (some (fail e, ih)) = some (inl e, ih)
after_lookup rest (some (done j, ih)) = push_index j (rest ih)

-- The loop of `_mds_repl_iosv_lookup` over the requested IDs: the error of the first lookup that
-- fails, or the indices.
unfoldable pub lookup_each : InoxRead → (ℕ → Bool) → LookupFlag → List ℕ → Inoh → Indices
lookup_each rd isfs flags [] ih = some (inr [], ih)
lookup_each rd isfs flags (ios ∷ iosv) ih =
    after_lookup (lookup_each rd isfs flags iosv) (ios_lookup rd isfs ios flags ih)

-- `qsort` by `iosidx_cmp`.
unfoldable pub insert_sorted : ℕ → List ℕ → List ℕ
insert_sorted x [] = x ∷ []
insert_sorted x (y ∷ ys) = if leb x y then x ∷ (y ∷ ys) else y ∷ insert_sorted x ys

unfoldable pub sort : List ℕ → List ℕ
unfolding insert_sorted
sort [] = []
sort (x ∷ xs) = insert_sorted x (sort xs)

abbrev pub head? : List ℕ → Option ℕ
head? [] = none
head? (x ∷ xs) = some x

-- The loop that looks for duplicates. Its third clause is `k++, last = iosidx[k]`: `last` is taken
-- at the new `k`, so it is the entry that is compared next. The -1 at the start is `none`; what is
-- read behind the last entry is not compared.
unfoldable pub has_dups : Option ℕ → List ℕ → Bool
has_dups last [] = false
has_dups last (x ∷ xs) = elim last [ none ↦ false | some l ↦ x == l ] || has_dups (head? xs) xs

-- `_mds_repl_iosv_lookup`: an error number, or the sorted indices.
unfoldable pub iosv_lookup : InoxRead → (ℕ → Bool) → LookupFlag → List ℕ → Inoh → Indices
iosv_lookup rd isfs flags iosv ih = elim (lookup_each rd isfs flags iosv ih) [
  | none ↦ none
  | some (inl e, ih') ↦ some (inl e, ih')
  | some (inr js, ih') ↦ some (if has_dups none (sort js) then inl einval else inr (sort js), ih')
]
