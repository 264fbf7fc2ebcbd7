-- ===== src/UpReclaim/Ptrunc.antt =====
-- The resolution of a truncation within a bmap.
use slash.Prelude.{
  not, ℕ, ◌*◌, ◌≡◌, ◌<◌, List, [], ◌∷◌, ◌++◌, Option, none, some, true, false, ◌==◌, ◌&&◌,
  if◌then◌else◌, arith, Bool-cases, inl, inr,
}
use slash.Bandwidth.{Ios}
use slash.BmapMds.{Bmap}
use slash.BmapWrite.{repl_bmap_rel}
use slash.ReplTable.Slots.{IsTable}
use slash.Residency.{Tract, Retif, retif, brepls_init_idx, iosidx_in}
use slash.Residency.Apply.{slot, CanModify}
use slash.UpReclaim.{
  Rpc, success, unsuccessful, upd_rpmi_add, upd_rpmi_remove, remove_first, finish_ptrunc,
  wk_finish_ptrunc, send_ptrunc,
}
use slash.UpSched.{bmap_apply, one_change}
use slash.UpSched.Apply.{bmap_apply_lem, locked-CanModify, repls-rel}
use slash.UpSched.Finish.{one_change-IsTract, moved-one}

remove_first-last :
    (n : ℕ) (xs : List ℕ) → iosidx_in n xs ≡ false → remove_first n (xs ++ (n ∷ [])) ≡ xs
unfolding remove_first iosidx_in
remove_first-last n [] h = ground arith
remove_first-last n (x ∷ xs) h = ground (arith, remove_first-last n xs)

-- An update that did not wait for the server is not left there by an addition and a removal.
upd_rpmi_remove-add :
    (upd : ℕ) (x : Ios)
    → iosidx_in upd x.upschq ≡ false
    → upd_rpmi_remove upd (upd_rpmi_add upd x) ≡ x
unfolding upd_rpmi_remove upd_rpmi_add
upd_rpmi_remove-add upd x h = ground (arith, h, remove_first-last upd x.upschq h)

-- What the request comes to.
abbrev pub Sends : ℕ → Rpc → ℕ → Bmap → Ios → Type 0
Sends upd q k b x =
    (b' : Bmap) × (send_ptrunc upd q (k * 3) b x
      ≡ some (
        b',
        if q.add_rc == 0 then upd_rpmi_add upd x else x,
        if q.add_rc == 0 then success else unsuccessful,
      ))
    × IsTable b'.repls
    × ((j : ℕ) → slot b'.repls j ≡ (if k == j && q.add_rc == 0 then 5 else slot b.repls j))

-- With a request in hand for a replica `k` that is TRUNCPNDG, and an update that does not wait for
-- the server yet: if the request can be sent, the replica is TRUNCPNDG_SCHED and the update waits for
-- the server; if not, the table and the updates of the server are as before.
pub send_ptrunc_lem :
    (upd : ℕ) (q : Rpc) (k : ℕ) (b : Bmap) (x : Ios)
    → k < 64
    → CanModify b
    → IsTable b.repls
    → slot b.repls k ≡ 4
    → iosidx_in upd x.upschq ≡ false
    → Sends upd q k b x
unfolding send_ptrunc finish_ptrunc retif
send_ptrunc_lem upd q k b x hk c h v f =
    let (b1, e1, h1, l1, s1, g1) =
      bmap_apply_lem b (one_change 4 5) (some brepls_init_idx) k
        (one_change-IsTract 4 5 (omega arith)) c h hk in
    let s : (j : ℕ) → slot b1.repls j ≡ (if k == j then 5 else slot b.repls j) = λ j.
      elim (Bool-cases (k == j)) [
        | inl y ↦
            let w : k ≡ j = ground arith in
            let u : slot b.repls j ≡ 4 = rw (← w) v in
            ground (arith, s1 j, moved-one 4 5 (slot b.repls j), u)
        | inr y ↦ ground (arith, s1 j)
      ] in
    elim (Bool-cases (q.add_rc == 0)) [
      | inl y ↦ (
        repl_bmap_rel b1,
        ground (arith, e1, v, y),
        rw (repls-rel b1) h1,
        λ j. rw (repls-rel b1) (ground (arith, s j, y)),
      )
      | inr y ↦
          let (b2, e2, h2, l2, s2, g2) =
            bmap_apply_lem b1 (one_change 5 4) none k (one_change-IsTract 5 4 (omega arith))
              (locked-CanModify b1 l1) h1 hk in
          (
            b2,
            ground (arith, e1, v, y, e2, upd_rpmi_remove-add upd x f),
            h2,
            λ j. elim (Bool-cases (k == j)) [
              | inl p ↦
                  let w : k ≡ j = ground arith in
                  let u : slot b.repls j ≡ 4 = rw (← w) v in
                  ground (arith, s2 j, s j, moved-one 5 4 (slot b1.repls j), u, y)
              | inr p ↦ ground (arith, s2 j, s j)
            ],
          )
    ]

-- The end of a truncation request: if it failed, a replica that is TRUNCPNDG_SCHED is TRUNCPNDG again,
-- and otherwise nothing changes.
pub finish_ptrunc_lem :
    (upd rc k : ℕ) (b : Bmap) (x : Ios)
    → k < 64
    → CanModify b
    → IsTable b.repls
    → (b' : Bmap) × (finish_ptrunc upd rc (k * 3) b x
        ≡ some (b', if rc == 0 then x else upd_rpmi_remove upd x))
      × IsTable b'.repls
      × ((j : ℕ)
          → slot b'.repls j
            ≡ (if k == j && (not (rc == 0) && slot b.repls j == 5) then 4 else slot b.repls j))
unfolding finish_ptrunc
finish_ptrunc_lem upd rc k b x hk c h = elim (Bool-cases (rc == 0)) [
  | inl y ↦ (b, ground (arith, y), h, λ j. ground (arith, y))
  | inr y ↦
      let (b1, e1, h1, l1, s1, g1) =
        bmap_apply_lem b (one_change 5 4) none k (one_change-IsTract 5 4 (omega arith)) c h hk in
      (b1, ground (arith, y, e1), h1, λ j. ground (arith, s1 j, moved-one 5 4 (slot b.repls j), y))
]

-- What is left behind by the work item that finishes a failed request.
abbrev pub Stuck : ℕ → ℕ → ℕ → Bmap → Ios → Type 0
Stuck upd rc k b x =
    (b' : Bmap) × (wk_finish_ptrunc true upd rc (k * 3) b x
      ≡ some (some (b', upd_rpmi_remove upd x)))
    × ((b'.wrlock ≡ true) × (b'.busy ≡ true))
    × ((t : Tract) (r : Option Retif) (off : ℕ) → bmap_apply b' t r off ≡ none)
