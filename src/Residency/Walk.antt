-- ===== src/Residency/Walk.antt =====
-- `_mds_repl_bmap_walk` with a table of changes and no short circuit: the slots that it visits are
-- changed as the table says, each from what it held before the walk, and no other slot is.
use slash.Prelude.{
  ℕ, ◌*◌, ◌≡◌, refl, ◌<◌, List, [], ◌∷◌, Option, some, true, false, ◌==◌, if◌then◌else◌, arith, ◌∙◌,
}
use slash.BmapMds.{Bmap}
use slash.ReplTable.Slots.{IsTable}
use slash.Residency.{Tract, Retif, translate, retif, walk_each, iosidx_in}
use slash.Residency.Apply.{
  slot, CanModify, locked, moved, translate-IsTable, IsTract, slot-translate, apply-change,
}

abbrev pub AllLt : ℕ → List ℕ → Type 0
AllLt n [] = Unit {0}
AllLt n (k ∷ ks) = (k < n) × AllLt n ks

-- No index stands twice.
abbrev pub Distinct : List ℕ → Type 0
Distinct [] = Unit {0}
Distinct (k ∷ ks) = (iosidx_in k ks ≡ false) × Distinct ks

-- The return code: that of the last visited state that has one.
unfoldable pub last_of : Option Retif → (ℕ → ℕ) → List ℕ → ℕ → ℕ
last_of rs f [] rc = rc
last_of rs f (k ∷ ks) rc = last_of rs f ks (if retif rs (f k) == 0 then rc else retif rs (f k))

-- What the callback makes of the visited states.
unfoldable pub cb_all : {S : Type 0} → (ℕ → ℕ → S → S) → (ℕ → ℕ) → List ℕ → S → S
cb_all cbf f [] arg = arg
cb_all cbf f (k ∷ ks) arg = cb_all cbf f ks (cbf k (f k) arg)

-- The bmap after one visit and after all.
abbrev pub visit : Tract → ℕ → Bmap → Bmap
visit t k b = record (locked b) { repls = translate (some t) b.repls (k * 3) (slot b.repls k) }

unfoldable pub after : Tract → List ℕ → Bmap → Bmap
after t [] b = b
after t (k ∷ ks) b = after t ks (visit t k b)

visit-CanModify : (t : Tract) (k : ℕ) (b : Bmap) → CanModify b → CanModify (visit t k b)
visit-CanModify t k b c = record { clean = c.clean; held = λ _. (refl, refl) }

pub visit-IsTable : (t : Tract) (k : ℕ) (b : Bmap) → IsTable b.repls → IsTable (visit t k b).repls
visit-IsTable t k b h = translate-IsTable (some t) b.repls (k * 3) (slot b.repls k) h

-- Two tables agree on what is visited.
abbrev pub Agree : List ℕ → (ℕ → ℕ) → (ℕ → ℕ) → Type 0
Agree [] f g = Unit {0}
Agree (k ∷ ks) f g = (f k ≡ g k) × Agree ks f g

pub last_of-cong :
    (rs : Option Retif) (f g : ℕ → ℕ) (ks : List ℕ) (rc : ℕ)
    → Agree ks f g
    → last_of rs f ks rc ≡ last_of rs g ks rc
unfolding last_of
last_of-cong rs f g [] rc h = refl
last_of-cong rs f g (k ∷ ks) rc h = rw h.0 (last_of-cong rs f g ks _ h.1)

cb_all-cong :
    {S : Type 0} (cbf : ℕ → ℕ → S → S) (f g : ℕ → ℕ) (ks : List ℕ) (arg : S)
    → Agree ks f g
    → cb_all cbf f ks arg ≡ cb_all cbf g ks arg
unfolding cb_all
cb_all-cong cbf f g [] arg h = refl
cb_all-cong cbf f g (k ∷ ks) arg h = rw h.0 (cb_all-cong cbf f g ks _ h.1)

-- A change of slot `k` is not seen by later visits.
Agree-translate :
    (t : Tract) (repls : List ℕ) (k : ℕ) (ks : List ℕ)
    → IsTract t
    → IsTable repls
    → k < 64
    → iosidx_in k ks ≡ false
    → Agree ks (slot (translate (some t) repls (k * 3) (slot repls k))) (slot repls)
unfolding iosidx_in
Agree-translate t repls k [] ht h hk d = tt
Agree-translate t repls k (j ∷ ks) ht h hk d = (
  ground (arith, slot-translate t repls k j ht h hk),
  Agree-translate t repls k ks ht h hk (ground arith),
)

pub walk_each-change :
    {S : Type 0} (cbf : ℕ → ℕ → S → S) (rs : Option Retif) (t : Tract) (ks : List ℕ) (b : Bmap)
    (rc : ℕ) (arg : S)
    → IsTract t
    → CanModify b
    → IsTable b.repls
    → AllLt 64 ks
    → Distinct ks
    → walk_each ks b (some t) rs false cbf rc arg
      ≡ some (after t ks b, last_of rs (slot b.repls) ks rc, cb_all cbf (slot b.repls) ks arg)
unfolding walk_each after last_of cb_all
walk_each-change cbf rs t [] b rc arg ht c h lt d = refl
walk_each-change cbf rs t (k ∷ ks) b rc arg ht c h lt d =
    rw (apply-change cbf arg rs b t k c h, walk_each)
      (walk_each-change cbf rs t ks (visit t k b) _ _ ht (visit-CanModify t k b c)
          (visit-IsTable t k b h) lt.1 d.1
        ∙ cc (
          last_of-cong rs _ _ ks
              (if retif rs (slot b.repls k) == 0 then rc else retif rs (slot b.repls k)) seen,
          cb_all-cong cbf _ _ ks (cbf k (slot b.repls k) arg) seen,
        ))
  where
    seen : Agree ks (slot (visit t k b).repls) (slot b.repls)
    seen = Agree-translate t b.repls k ks ht h lt.0 d.0

-- The slots after a walk.
pub slot-after :
    (t : Tract) (ks : List ℕ) (b : Bmap) (j : ℕ)
    → IsTract t
    → IsTable b.repls
    → AllLt 64 ks
    → Distinct ks
    → slot (after t ks b).repls j
      ≡ (if iosidx_in j ks then moved t (slot b.repls j) else slot b.repls j)
unfolding after iosidx_in
slot-after t [] b j ht h lt d = refl
slot-after t (k ∷ ks) b j ht h lt d = ground (
  arith,
  slot-after t ks (visit t k b) j ht (visit-IsTable t k b h) lt.1 d.1,
  slot-translate t b.repls k j ht h lt.0,
)

pub after-IsTable :
    (t : Tract) (ks : List ℕ) (b : Bmap) → IsTable b.repls → IsTable (after t ks b).repls
unfolding after
after-IsTable t [] b h = h
after-IsTable t (k ∷ ks) b h = after-IsTable t ks (visit t k b) (visit-IsTable t k b h)

pub after-CanModify : (t : Tract) (ks : List ℕ) (b : Bmap) → CanModify b → CanModify (after t ks b)
unfolding after
after-CanModify t [] b c = c
after-CanModify t (k ∷ ks) b c = after-CanModify t ks (visit t k b) (visit-CanModify t k b c)

-- What no walk touches.
pub record Frame (b b' : Bmap) : Type 0 where
  pub gen : b'.bgen ≡ b.bgen
  pub policy : b'.replpol ≡ b.replpol
  pub written : b'.replmodwr ≡ b.replmodwr
  pub entries : b'.journal ≡ b.journal
  pub items : b'.work ≡ b.work
  pub queued : b'.enqueued ≡ b.enqueued

pub after-Frame : (t : Tract) (ks : List ℕ) (b : Bmap) → Frame b (after t ks b)
unfolding after
after-Frame t [] b = record {
  gen = refl;
  policy = refl;
  written = refl;
  entries = refl;
  items = refl;
  queued = refl;
}
after-Frame t (k ∷ ks) b =
    let f = after-Frame t ks (visit t k b) in
    record {
      gen = f.gen;
      policy = f.policy;
      written = f.written;
      entries = f.entries;
      items = f.items;
      queued = f.queued;
    }

-- A visit takes the write lock, and none drops it.
pub after-wrlock :
    (t : Tract) (ks : List ℕ) (b : Bmap) → b.wrlock ≡ true → (after t ks b).wrlock ≡ true
unfolding after
after-wrlock t [] b h = h
after-wrlock t (k ∷ ks) b h = after-wrlock t ks (visit t k b) refl

pub after-wrlock_visited :
    (t : Tract) (ks : List ℕ) (b : Bmap) (j : ℕ)
    → iosidx_in j ks ≡ true
    → (after t ks b).wrlock ≡ true
unfolding after iosidx_in
after-wrlock_visited t [] b j h = cc
after-wrlock_visited t (k ∷ ks) b j h = after-wrlock t ks (visit t k b) refl
