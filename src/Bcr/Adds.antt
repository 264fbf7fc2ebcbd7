-- ===== src/Bcr/Adds.antt =====
-- What adding a checksum makes of the updates that wait.
use slash.Prelude.{
  ℕ, ◌+◌, ◌≡◌, ◌<◌, refl, [], ◌∷◌, ◌++◌, Option, none, some, false, ◌&&◌, ◌==◌, length,
  if◌then◌else◌, arith, Bool-cases, Option-cases, inl, inr, ◌⊎◌,
}
use slash.Residency.{arr_set}
use slash.Bcr.{Bcr, Bcrs, set_slot, find_bcr, put_bcr, add_crc, max_bmap_inode_pairs}
use slash.Bcr.Pending.{
  pending, IsCurrent, new_bcr, pending-snoc, LastOf-new, LastOf-snoc, AllBelow-snoc, AllBelow-put,
  LastOf-put, LastOf-find, pending-put, length-set_slot,
}

-- The update of a bmap that has still one afterwards has room, or is of another bmap.
module _ (b c q slot crc : ℕ) (y : Bcrs) (x : Bcr) where
  abbrev after : ℕ → Option ℕ
  after =
      if length (set_slot slot crc x.crcs) == max_bmap_inode_pairs
      then arr_set y.current b none
      else y.current

  was : after c ≡ some q → y.current c ≡ some q
  was e = elim (Bool-cases (length (set_slot slot crc x.crcs) == max_bmap_inode_pairs)) [
    | inl f ↦ elim (Bool-cases (b == c)) [
      | inl a ↦ absurd (ground (arith, f, a))
      | inr a ↦ ground (arith, f, a)
    ]
    | inr f ↦ ground (arith, f)
  ]

  room_or :
      x.bmap ≡ b
      → length x.crcs < max_bmap_inode_pairs
      → after c ≡ some q
      → (length (set_slot slot crc x.crcs) < max_bmap_inode_pairs) ⊎ ((c == x.bmap) ≡ false)
  room_or m l e = elim (Bool-cases (length (set_slot slot crc x.crcs) == max_bmap_inode_pairs)) [
    | inl f ↦ elim (Bool-cases (b == c)) [
      | inl a ↦ absurd (ground (arith, f, a))
      | inr a ↦ inr (ground (arith, a, m))
    ]
    | inr f ↦ inl (ground (arith, f, l, length-set_slot slot crc x.crcs))
  ]

-- Adding a checksum never fails an assertion: afterwards the last update of the bmap that has the
-- sliver has this checksum, every other sliver of every bmap has the last one that it had, and each
-- bmap again collects in its last update, which has room.
pub add_crc_lem :
    (b slot crc now : ℕ) (y : Bcrs)
    → IsCurrent y
    → (y' : Bcrs) × (add_crc b slot crc now y ≡ some y')
      × ((c k : ℕ)
          → pending c k y'.ready ≡ (if b == c && slot == k then some crc else pending c k y.ready))
      × IsCurrent y'
unfolding add_crc
add_crc_lem b slot crc now y h = elim (Option-cases (y.current b)) [
  | inl a ↦
      let x = new_bcr y.fresh b slot crc now in
      let y1 : Bcrs = record y {
        ready = y.ready ++ (x ∷ []);
        current = arr_set y.current b (some y.fresh);
        fresh = y.fresh + 1;
      } in
      (
        y1,
        ground (arith, a),
        λ c k. pending-snoc y.fresh b slot crc now c k y.ready,
        record {
          last = λ c p e. elim (Bool-cases (b == c)) [
            | inl q ↦
                let same : b ≡ c = ground arith in
                let at : y.fresh ≡ p = ground (arith, e, q) in
                rw (← same, ← at) (LastOf-new y.fresh b slot crc now y.ready h.below)
            | inr q ↦
                LastOf-snoc y.fresh b slot crc now c p y.ready q h.below
                  (h.last c p (ground (arith, e, q)))
          ];
          below = AllBelow-snoc y.fresh b slot crc now y.ready h.below;
        },
      )
  | inr (p, a) ↦
      let l = h.last b p a in
      let (x, g, pt, bm, room) = LastOf-find b p y.ready l in
      let x1 : Bcr = record x { crcs = set_slot slot crc x.crcs } in
      let y1 : Bcrs = record y {
        ready = put_bcr x1 y.ready;
        current =
            if length x1.crcs == max_bmap_inode_pairs then arr_set y.current b none else y.current;
      } in
      let g1 : find_bcr x.ptr y.ready ≡ some x = rw pt g in
      (
        y1,
        ground (arith, a, g, bm, room),
        λ c k. pending-put b p slot crc c k x y.ready l g,
        record {
          last = λ c q e.
              LastOf-put x x1 refl refl c q y.ready g1 (room_or b c q slot crc y x bm room e)
                (h.last c q (was b c q slot crc y x e));
          below = AllBelow-put x x1 refl refl y.fresh y.ready g1 h.below;
        },
      )
]
