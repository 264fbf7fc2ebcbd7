-- ===== src/Bcr/Pending.antt =====
-- The last checksum of each sliver is the one that is sent last.
use slash.Prelude.{
  ℕ, ◌+◌, ◌≡◌, ◌<◌, ◌≤◌, refl, List, [], ◌∷◌, ◌++◌, Option, none, some, false, ◌&&◌, ◌==◌, length,
  if◌then◌else◌, arith, Bool-cases, inl, inr, ◌⊎◌,
}
use slash.Bcr.{Bcr, Bcrs, set_slot, find_bcr, put_bcr, max_bmap_inode_pairs}

unfoldable pub find_crc : ℕ → List (ℕ × ℕ) → Option ℕ
find_crc slot [] = none
find_crc slot ((s, c) ∷ r) = if s == slot then some c else find_crc slot r

-- What the last update on the list that has a sliver of a bmap says of it.
unfoldable pub pending : ℕ → ℕ → List Bcr → Option ℕ
pending b slot [] = none
pending b slot (x ∷ xs) = elim (pending b slot xs) [
  | some c ↦ some c
  | none ↦ if x.bmap == b then find_crc slot x.crcs else none
]

find_crc-set_slot :
    (slot k crc : ℕ) (r : List (ℕ × ℕ))
    → find_crc k (set_slot slot crc r) ≡ (if slot == k then some crc else find_crc k r)
unfolding find_crc set_slot
find_crc-set_slot slot k crc [] = ground arith
find_crc-set_slot slot k crc ((s, c) ∷ r) = ground (arith, find_crc-set_slot slot k crc r)

pub length-set_slot :
    (slot crc : ℕ) (r : List (ℕ × ℕ)) → length (set_slot slot crc r) ≤ length r + 1
unfolding set_slot
length-set_slot slot crc [] = omega arith
length-set_slot slot crc ((s, c) ∷ r) = ground (arith, length-set_slot slot crc r)

-- No update of a bmap, and none at an address.
abbrev pub Free : ℕ → ℕ → List Bcr → Type 0
Free b p [] = Unit {0}
Free b p (x ∷ xs) = ((x.bmap == b) ≡ false) × ((x.ptr == p) ≡ false) × Free b p xs

-- The update at an address is the last one of its bmap, and has room.
abbrev pub LastOf : ℕ → ℕ → List Bcr → Type 0
LastOf b p [] = ⊥
LastOf b p (x ∷ xs) =
    ((x.ptr ≡ p) × (x.bmap ≡ b) × (length x.crcs < max_bmap_inode_pairs) × Free b p xs)
    ⊎ (((x.ptr == p) ≡ false) × LastOf b p xs)

abbrev pub AllBelow : ℕ → List Bcr → Type 0
AllBelow n [] = Unit {0}
AllBelow n (x ∷ xs) = (x.ptr < n) × AllBelow n xs

-- The update that a bmap collects in is its last one, and has room; addresses are used once.
pub record IsCurrent (y : Bcrs) : Type 0 where
  pub last : (b p : ℕ) → y.current b ≡ some p → LastOf b p y.ready
  pub below : AllBelow y.fresh y.ready

pending-Free : (b p k : ℕ) (xs : List Bcr) → Free b p xs → pending b k xs ≡ none
unfolding pending
pending-Free b p k [] h = refl
pending-Free b p k (x ∷ xs) h = ground (arith, h, pending-Free b p k xs h.2)

-- A new update at the end.
module _ (n b slot crc now : ℕ) where
  abbrev pub new_bcr : Bcr
  new_bcr = record { ptr = n; bmap = b; crcs = (slot, crc) ∷ []; age = now }

  pub pending-snoc :
      (c k : ℕ) (xs : List Bcr)
      → pending c k (xs ++ (new_bcr ∷ []))
        ≡ (if b == c && slot == k then some crc else pending c k xs)
  unfolding pending find_crc
  pending-snoc c k [] = ground arith
  pending-snoc c k (x ∷ xs) = ground (arith, pending-snoc c k xs)

  pub LastOf-new : (xs : List Bcr) → AllBelow n xs → LastOf b n (xs ++ (new_bcr ∷ []))
  LastOf-new [] h = inl (refl, refl, omega arith, tt)
  LastOf-new (x ∷ xs) h = inr (ground (arith, h), LastOf-new xs h.1)

  Free-snoc :
      (c p : ℕ) (xs : List Bcr)
      → (b == c) ≡ false
      → p < n
      → Free c p xs
      → Free c p (xs ++ (new_bcr ∷ []))
  Free-snoc c p [] e l h = (e, ground arith, tt)
  Free-snoc c p (x ∷ xs) e l h = (h.0, h.1, Free-snoc c p xs e l h.2)

  pub LastOf-snoc :
      (c p : ℕ) (xs : List Bcr)
      → (b == c) ≡ false
      → AllBelow n xs
      → LastOf c p xs
      → LastOf c p (xs ++ (new_bcr ∷ []))
  LastOf-snoc c p [] e a h = absurd h
  LastOf-snoc c p (x ∷ xs) e a (inl h) =
      inl (h.0, h.1, h.2, Free-snoc c p xs e (ground (arith, h, a)) h.3)
  LastOf-snoc c p (x ∷ xs) e a (inr h) = inr (h.0, LastOf-snoc c p xs e a.1 h.1)

  pub AllBelow-snoc : (xs : List Bcr) → AllBelow n xs → AllBelow (n + 1) (xs ++ (new_bcr ∷ []))
  AllBelow-snoc [] h = (omega arith, tt)
  AllBelow-snoc (x ∷ xs) h = (omega arith, AllBelow-snoc xs h.1)

-- An update that gets another sliver.
module _ (x x1 : Bcr) (e : x1.ptr ≡ x.ptr) (f : x1.bmap ≡ x.bmap) where
  Free-put :
      (c p : ℕ) (xs : List Bcr)
      → find_bcr x.ptr xs ≡ some x
      → Free c p xs
      → Free c p (put_bcr x1 xs)
  unfolding put_bcr find_bcr
  Free-put c p [] g h = tt
  Free-put c p (z ∷ zs) g h = elim (Bool-cases (z.ptr == x.ptr)) [
    | inl a ↦
        let s : z ≡ x = ground (arith, a) in
        let t : put_bcr x1 (z ∷ zs) ≡ x1 ∷ zs = ground (arith, a, e) in
        rw t (ground (arith, h, s, e, f), ground (arith, h, s, e, f), h.2)
    | inr a ↦
        let t : put_bcr x1 (z ∷ zs) ≡ z ∷ put_bcr x1 zs = ground (arith, a, e) in
        rw t (h.0, h.1, Free-put c p zs (ground (arith, a)) h.2)
  ]

  pub AllBelow-put :
      (n : ℕ) (xs : List Bcr)
      → find_bcr x.ptr xs ≡ some x
      → AllBelow n xs
      → AllBelow n (put_bcr x1 xs)
  unfolding put_bcr find_bcr
  AllBelow-put n [] g h = tt
  AllBelow-put n (z ∷ zs) g h = elim (Bool-cases (z.ptr == x.ptr)) [
    | inl a ↦
        let s : z ≡ x = ground (arith, a) in
        let t : put_bcr x1 (z ∷ zs) ≡ x1 ∷ zs = ground (arith, a, e) in
        rw t (ground (arith, h, s, e), h.1)
    | inr a ↦
        let t : put_bcr x1 (z ∷ zs) ≡ z ∷ put_bcr x1 zs = ground (arith, a, e) in
        rw t (h.0, AllBelow-put n zs (ground (arith, a)) h.1)
  ]

  pub LastOf-put :
      (c p : ℕ) (xs : List Bcr)
      → find_bcr x.ptr xs ≡ some x
      → (length x1.crcs < max_bmap_inode_pairs) ⊎ ((c == x.bmap) ≡ false)
      → LastOf c p xs
      → LastOf c p (put_bcr x1 xs)
  unfolding put_bcr find_bcr
  LastOf-put c p [] g l h = absurd h
  LastOf-put c p (z ∷ zs) g l h = elim (Bool-cases (z.ptr == x.ptr)) [
    | inl a ↦
        let s : z ≡ x = ground (arith, a) in
        let t : put_bcr x1 (z ∷ zs) ≡ x1 ∷ zs = ground (arith, a, e) in
        rw t (elim h [
          | inl i ↦
              inl (ground (arith, i, s, e), ground (arith, i, s, f), ground (arith, i, s, l), i.3)
          | inr i ↦ inr (ground (arith, i, s, e), i.1)
        ])
    | inr a ↦
        let t : put_bcr x1 (z ∷ zs) ≡ z ∷ put_bcr x1 zs = ground (arith, a, e) in
        let g1 : find_bcr x.ptr zs ≡ some x = ground (arith, a) in
        rw t (elim h [
          | inl i ↦ inl (i.0, i.1, i.2, Free-put c p zs g1 i.3)
          | inr i ↦ inr (i.0, LastOf-put c p zs g1 l i.1)
        ])
  ]

pub LastOf-find :
    (b p : ℕ) (xs : List Bcr)
    → LastOf b p xs
    → (x : Bcr) × (find_bcr p xs ≡ some x)
      × (x.ptr ≡ p)
      × (x.bmap ≡ b)
      × (length x.crcs < max_bmap_inode_pairs)
unfolding find_bcr
LastOf-find b p [] h = absurd h
LastOf-find b p (z ∷ zs) (inl i) = (z, ground (arith, i), i.0, i.1, i.2)
LastOf-find b p (z ∷ zs) (inr i) =
    let (x, e, q, r, l) = LastOf-find b p zs i.1 in (x, ground (arith, i, e), q, r, l)

find-ptr : (p : ℕ) (xs : List Bcr) (x : Bcr) → find_bcr p xs ≡ some x → x.ptr ≡ p
unfolding find_bcr
find-ptr p [] x e = absurd (ground arith)
find-ptr p (z ∷ zs) x e = ground (arith, find-ptr p zs x)

pub pending-put :
    (b p slot crc c k : ℕ) (x : Bcr) (xs : List Bcr)
    → LastOf b p xs
    → find_bcr p xs ≡ some x
    → pending c k (put_bcr (record x { crcs = set_slot slot crc x.crcs }) xs)
      ≡ (if b == c && slot == k then some crc else pending c k xs)
unfolding pending put_bcr find_bcr
pending-put b p slot crc c k x [] h e = absurd h
pending-put b p slot crc c k x (z ∷ zs) (inl i) e =
    let s : z ≡ x = ground (arith, i) in
    let n = pending-Free b p k zs i.3 in
    elim (Bool-cases (b == c)) [
      | inl q ↦
          let same : b ≡ c = ground arith in
          ground (arith, s, i, n, find_crc-set_slot slot k crc x.crcs)
      | inr q ↦ ground (arith, s, i)
    ]
pending-put b p slot crc c k x (z ∷ zs) (inr i) e =
    let g : find_bcr p zs ≡ some x = ground (arith, i) in
    let a : x.ptr ≡ p = (find-ptr p zs x g) in
    ground (arith, i, a, pending-put b p slot crc c k x zs i.1 g)
