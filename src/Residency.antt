-- ===== src/Residency.antt =====
-- slashd/repl_mds.c: `_mds_repl_bmap_apply` and `_mds_repl_bmap_walk`, the two routines through
-- which every change of a bmap's replica states goes.
-- `none` stands for a failed `psc_assert` or a `psc_fatalx`, which end the process. A wait for
-- another thread's lock is taken as over, and the spin locks `bcm_lock` and `fcmh_lock` are left out.
pub mod Apply
pub mod Walk
pub mod Visited
pub mod Query
pub mod Spec
use mathlib.Core.Option
use slash.Prelude.{
  ℕ, zero, suc, ◌*◌, ◌/◌, List, [], ◌∷◌, ◌++◌, none, some, Bool, true, false, not, ◌&&◌, ◌||◌, leb,
  ◌==◌, if◌then◌else◌,
}
use slash.Prelude.{Option}
use slash.BmapMds.{Bmap, nbreplst}
use slash.ReplTable.{get_bmap_ios_stat, set_bmap_ios_stat, sl_bits_per_replica}

-- `tract`: the new state for each state, `none` for the -1 that leaves it; `retifset`: the value to
-- return for each state.
abbrev pub Tract : Type 0
Tract = ℕ → Option ℕ

abbrev pub Retif : Type 0
Retif = ℕ → ℕ

-- An assignment to one entry of such an array.
abbrev pub arr_set {ℓ} : {A : Type ℓ} → (ℕ → A) → ℕ → A → ℕ → A
arr_set f i a j = if i == j then a else f j

-- `brepls_init(ar, val)` and `brepls_init_idx(ar)`.
abbrev pub brepls_init {ℓ} : {A : Type ℓ} → A → ℕ → A
brepls_init val i = val

abbrev pub brepls_init_idx : ℕ → ℕ
brepls_init_idx i = i

-- The locks that `_mds_repl_bmap_apply` takes before a change.
unfoldable pub modify_start : Bmap → Option Bmap
modify_start b =
    if b.wrlock
    then (if not b.fcmh_busy || not b.busy || b.replmodwr then none else some b)
    else if b.replmodwr
    then none
    else some (record b { fcmh_busy = true; busy = true; wrlock = true; orepls = b.repls })

-- The lock that it takes before a mere look, and drops after it: the result says whether. Both
-- BMAP_WAIT_BUSY and BMAP_UNBUSY run here, so the busy flag ends clear.
unfoldable pub read_start : Bmap → Bmap × Bool
read_start b =
    if not b.wrlock && not b.rdlock
    then (record b { busy = false; rdlock = true }, true)
    else (b, false)

unfoldable pub apply_start : Option Tract → Bmap → Option (Bmap × Bool)
apply_start none b = some (read_start b)
apply_start (some tract) b = Option.map (λ b'. (b', false)) (modify_start b)

-- `if (unlock) BMAPOD_ULOCK(bmi)`
unfoldable pub apply_end : Bool → Bmap → Bmap
apply_end unlock b = if unlock then record b { rdlock = false } else b

-- What the table becomes when the state found at `off` is `val`.
unfoldable pub translate : Option Tract → List ℕ → ℕ → ℕ → List ℕ
translate none repls off val = repls
translate (some tract) repls off val = elim (tract val) [
  | none ↦ repls
  | some new ↦ set_bmap_ios_stat repls off new
]

-- `if (retifset && retifset[val]) rc = retifset[val]`
unfoldable pub retif : Option Retif → ℕ → ℕ
retif none val = 0
retif (some r) val = r val

module _ {S : Type 0} where
  -- The part between the locks: the new bmap, the return code, the short circuit, and the data of
  -- the callback, which is given the index of the I/O system and its state.
  unfoldable pub apply_locked :
      Bmap
      → Option Tract
      → Option Retif
      → Bool
      → ℕ
      → (ℕ → ℕ → S → S)
      → S
      → Option (Bmap × ℕ × Bool × S)
  apply_locked b tract retifset scircuit off cbf arg =
      let val = get_bmap_ios_stat b.repls off in
      let arg' = cbf (off / sl_bits_per_replica) val arg in
      let rc = retif retifset val in
      if leb nbreplst val
      then none
      else if not (rc == 0) && scircuit
      then some (b, rc, true, arg')
      else some (record b { repls = translate tract b.repls off val }, rc, false, arg')

  -- `_mds_repl_bmap_apply`. The flag REPL_WALKF_SCIRCUIT is `scircuit`; the callers that give no
  -- pointer for the short circuit do not set it.
  unfoldable pub apply :
      Bmap
      → Option Tract
      → Option Retif
      → Bool
      → ℕ
      → (ℕ → ℕ → S → S)
      → S
      → Option (Bmap × ℕ × Bool × S)
  apply b tract retifset scircuit off cbf arg = elim (apply_start tract b) [
    | none ↦ none
    | some (b', unlock) ↦ elim (apply_locked b' tract retifset scircuit off cbf arg) [
      | none ↦ none
      | some (b'', rc, sc, arg') ↦ some (apply_end unlock b'', rc, sc, arg')
    ]
  ]

  -- The body that the three loops of `_mds_repl_bmap_walk` share, over the indices that they visit.
  unfoldable pub walk_each :
      List ℕ
      → Bmap
      → Option Tract
      → Option Retif
      → Bool
      → (ℕ → ℕ → S → S)
      → ℕ
      → S
      → Option (Bmap × ℕ × S)
  walk_each [] b tract retifset scircuit cbf rc arg = some (b, rc, arg)
  walk_each (k ∷ ks) b tract retifset scircuit cbf rc arg =
      elim (apply b tract retifset scircuit (k * sl_bits_per_replica) cbf arg) [
        | none ↦ none
        | some (b', trc, sc, arg') ↦ elim sc [
          | true ↦ some (b', (if trc == 0 then rc else trc), arg')
          | false ↦ walk_each ks b' tract retifset scircuit cbf (if trc == 0 then rc else trc) arg'
        ]
      ]

-- `for (k = 0; k < nr; k++)`
unfoldable pub upto : ℕ → List ℕ
upto zero = []
upto (suc n) = upto n ++ (n ∷ [])

-- `iosidx_in`. The array is sorted, so that `bsearch` finds what it holds.
unfoldable pub iosidx_in : ℕ → List ℕ → Bool
iosidx_in idx [] = false
iosidx_in idx (x ∷ xs) = x == idx || iosidx_in idx xs

unfoldable pub others : List ℕ → List ℕ → List ℕ
unfolding iosidx_in
others iosidx [] = []
others iosidx (k ∷ ks) = if iosidx_in k iosidx then others iosidx ks else k ∷ others iosidx ks

-- The indices that a walk over `nr` replicas visits: everyone, if no I/O system is given; all but
-- those given, under REPL_WALKF_MODOTH; otherwise those given, in the order given.
unfoldable pub visited : ℕ → Bool → List ℕ → List ℕ
visited nr modoth [] = upto nr
visited nr modoth (i ∷ is) = if modoth then others (i ∷ is) (upto nr) else i ∷ is

-- `_mds_repl_bmap_walk`, with the number of replicas of the file and the two flags.
unfoldable pub walk :
    {S : Type 0}
    → ℕ
    → Bmap
    → Option Tract
    → Option Retif
    → Bool
    → Bool
    → List ℕ
    → (ℕ → ℕ → S → S)
    → S
    → Option (Bmap × ℕ × S)
walk nr b tract retifset scircuit modoth iosidx cbf arg =
    walk_each (visited nr modoth iosidx) b tract retifset scircuit cbf 0 arg

-- `mds_repl_bmap_walk`: a walk with no callback.
unfoldable pub bmap_walk :
    ℕ → Bmap → Option Tract → Option Retif → Bool → List ℕ → Option (Bmap × ℕ)
bmap_walk nr b tract retifset scircuit iosidx =
    Option.map (λ r. (r.0, r.1))
      (walk nr b tract retifset scircuit false iosidx (λ idx val s. s) (tt {0}))

-- `mds_repl_bmap_walk_all`
unfoldable pub bmap_walk_all : ℕ → Bmap → Option Tract → Option Retif → Bool → Option (Bmap × ℕ)
bmap_walk_all nr b tract retifset scircuit = bmap_walk nr b tract retifset scircuit []
