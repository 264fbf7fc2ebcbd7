-- ===== src/Inode/Lookup.antt =====
-- `_mds_repl_ios_lookup` against an operation on the plain list of replicas.
use slash.Prelude.{
  ℕ, ◌+◌, ◌≡◌, ◌∙◌, ap, true, ◌<◌, List, [], ◌∷◌, ◌++◌, none, some, ◌==◌, if◌then◌else◌, length,
  take, arith, length-take, Bool, Bool-cases, Option-cases, inl, inr,
}
use slash.Prelude.{Option}
use slash.Errors.{Rc, done, fail, enospc, slerr_repl_not_act, slerr_res_badtype}
use slash.Inode.{Inoh, InoxRead, LookupFlag, plain, add, del, at, absent, search_from, ios_lookup}
use slash.Inode.Lists.{index_from, index_of, remove_at}
use slash.Inode.Table.{
  entries, outcome, replicas, IsInoh, Finds, search_lem, Same-IsInoh, replicas-Same,
}
use slash.Inode.Remove.{remove_repl_lem, append_repl_lem}

-- What a lookup does to the list of replicas, and what it returns.
unfoldable pub lookup_spec : (ℕ → Bool) → ℕ → LookupFlag → List ℕ → Rc × List ℕ
lookup_spec isfs ios flags rs = elim (index_of ios rs) [
  | some j ↦ elim flags [ del ↦ (done j, remove_at j rs) | _ ↦ (done j, rs) ]
  | none ↦
      if isfs ios
      then elim flags [
        | add ↦ if length rs == 64 then (fail enospc, rs) else (done (length rs), rs ++ (ios ∷ []))
        | _ ↦ (fail slerr_repl_not_act, rs)
      ]
      else (fail slerr_res_badtype, rs)
]

index_from-lt : (x j : ℕ) (ys : List ℕ) (i : ℕ) → index_from x j ys ≡ some i → i < j + length ys
unfolding index_from
index_from-lt x j [] i e = cc
index_from-lt x j (y ∷ ys) i e = ground (arith, index_from-lt x (j + 1) ys i)

index_of-replicas-lt :
    (rd : InoxRead) (ih : Inoh) (ios i : ℕ) → index_of ios (replicas rd ih) ≡ some i → i < ih.nrepls
unfolding replicas
index_of-replicas-lt rd ih ios i e = omega (
  arith,
  index_from-lt ios 0 (take ih.nrepls (entries rd ih)) i e,
  length-take ih.nrepls (entries rd ih),
)

-- An operation on the arrays succeeds, keeps them in shape, and does what is said of the list.
abbrev pub Performs : InoxRead → Option (Rc × Inoh) → Rc × List ℕ → Type 0
Performs rd o target =
    (r : Rc) × (ih' : Inoh) × (o ≡ some (r, ih'))
    × IsInoh rd ih'
    × (◌≡◌ {A = Rc × List ℕ} (r, replicas rd ih') target)

-- The replica is there.
lookup_found :
    (rd : InoxRead) (isfs : ℕ → Bool) (ios : ℕ) (flags : LookupFlag) (ih ih' : Inoh) (j : ℕ)
    → IsInoh rd ih'
    → replicas rd ih' ≡ replicas rd ih
    → j < ih'.nrepls
    → index_of ios (replicas rd ih) ≡ some j
    → search_from rd ios ih.nrepls 0 ih ≡ at j ih'
    → Performs rd (ios_lookup rd isfs ios flags ih) (lookup_spec isfs ios flags (replicas rd ih))
unfolding ios_lookup lookup_spec
lookup_found rd isfs ios plain ih ih' j v same h e s = (done j, ih', ground arith, v, ground arith)
lookup_found rd isfs ios add ih ih' j v same h e s = (done j, ih', ground arith, v, ground arith)
lookup_found rd isfs ios del ih ih' j v same h e s =
    let (ih'', removes, v', rest) = remove_repl_lem rd ih' j v h in
    (done j, ih'', ground arith, v', ground arith)

-- It is not.
lookup_absent :
    (rd : InoxRead) (isfs : ℕ → Bool) (ios : ℕ) (flags : LookupFlag) (ih ih' : Inoh)
    → IsInoh rd ih'
    → replicas rd ih' ≡ replicas rd ih
    → index_of ios (replicas rd ih) ≡ none
    → search_from rd ios ih.nrepls 0 ih ≡ absent ih'
    → Performs rd (ios_lookup rd isfs ios flags ih) (lookup_spec isfs ios flags (replicas rd ih))
unfolding ios_lookup lookup_spec
lookup_absent rd isfs ios flags ih ih' v same e s = elim (Bool-cases (isfs ios)) [
  | inr bad ↦ (fail slerr_res_badtype, ih', ground arith, v, ground arith)
  | inl good ↦ lookup_flags flags good
]
  where
    lookup_flags :
        (fl : LookupFlag)
        → isfs ios ≡ true
        → Performs rd (ios_lookup rd isfs ios fl ih) (lookup_spec isfs ios fl (replicas rd ih))
    lookup_flags plain good =
        (fail slerr_repl_not_act, ih', ground (arith, good), v, ground (arith, good))
    lookup_flags del good =
        (fail slerr_repl_not_act, ih', ground (arith, good), v, ground (arith, good))
    lookup_flags add good =
        let (r, ih'', appends, v', rest) = append_repl_lem rd ios ih' v in
        (r, ih'', ground (arith, good), v', ground (arith, good, rest))

-- With the arrays in shape and the extras block readable, a lookup returns and leaves what the
-- operation on the list of replicas does: the first position of the ID, which is taken out if that
-- is asked for; or else, if the ID is of a resource that stores files and an addition is asked for,
-- the position behind the last replica, where it is put unless there are 64; or else the error. The
-- arrays stay in shape.
pub ios_lookup_lem :
    (rd : InoxRead) (isfs : ℕ → Bool) (ios : ℕ) (flags : LookupFlag) (ih : Inoh)
    → IsInoh rd ih
    → Performs rd (ios_lookup rd isfs ios flags ih) (lookup_spec isfs ios flags (replicas rd ih))
unfolding replicas
ios_lookup_lem rd isfs ios flags ih v = elim (Option-cases (index_of ios (replicas rd ih))) [
  | inl e ↦
      lookup_absent rd isfs ios flags ih f.end_ v' (replicas-Same f.same) e
        (f.result ∙ ap (λ o. outcome o f.end_) e)
  | inr (j, e) ↦
      lookup_found rd isfs ios flags ih f.end_ j v' (replicas-Same f.same)
        (omega (arith, index_of-replicas-lt rd ih ios j e, f.same.count)) e
        (f.result ∙ ap (λ o. outcome o f.end_) e)
]
  where
    f : Finds rd ih (index_of ios (replicas rd ih)) (search_from rd ios ih.nrepls 0 ih)
    f = search_lem rd ios ih.nrepls 0 ih v (omega arith) (λ h. absurd (omega arith))

    v' : IsInoh rd f.end_
    v' = Same-IsInoh f.same v
