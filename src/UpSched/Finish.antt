-- ===== src/UpSched/Finish.antt =====
-- What the answer of an I/O server does to the replica that was to be copied.
use slash.Prelude.{
  ℕ, ◌*◌, ◌≡◌, ap, ◌<◌, ◌≤◌, Option, some, Bool, true, ◌==◌, ◌||◌, if◌then◌else◌, arith, Bool-cases,
  inl, inr,
}
use slash.BmapMds.{Bmap}
use slash.BmapWrite.{WriteOutcome, repl_bmap_rel}
use slash.BmapWrite.Laws.{write_result}
use slash.ReplTable.Slots.{IsTable}
use slash.Request.{write_logrepls}
use slash.Residency.{Tract, Retif, retif}
use slash.Residency.Apply.{slot, CanModify, moved, IsTract}
use slash.UpSched.{
  ReplEntry, repl_succeeded, repl_retry, set_status, repl_finish, one_change, apply_write,
  repl_done_tract, repl_done_retif, repl_fail_retif,
}
use slash.UpSched.Apply.{bmap_apply_lem, write_logrepls_lem, repls-rel, repls-written}

-- What becomes of the replica that was to be copied.
abbrev pub finished : Bool → Bool → ℕ → ℕ
finished good retry v =
    if good
    then (if v == 1 || v == 2 then 3 else v)
    else if v == 1
    then (if retry then 2 else 6)
    else v

abbrev pub Finishes : ℕ → WriteOutcome → ℕ → ℕ → ReplEntry → ℕ → Bmap → Type 0
Finishes nr out ecode resid e k b =
    (b' : Bmap) × (repl_finish nr out ecode resid e b ≡ some b')
    × IsTable b'.repls
    × ((j : ℕ)
        → slot b'.repls j ≡ (
            if k == j
            then finished (repl_succeeded ecode e b.bgen) (repl_retry e b.bgen) (slot b.repls j)
            else slot b.repls j))

pub one_change-IsTract : (v w : ℕ) → w < 8 → IsTract (one_change v w)
one_change-IsTract v w h x y e = ground (arith, h)

pub moved-one : (v w x : ℕ) → moved (one_change v w) x ≡ (if v == x then w else x)
unfolding moved
moved-one v w x = ground arith

repl_done_tract-IsTract : IsTract repl_done_tract
repl_done_tract-IsTract x y e = ground arith

moved-done : (x : ℕ) → moved repl_done_tract x ≡ (if x == 1 || x == 2 then 3 else x)
unfolding moved
moved-done x = ground arith

-- A change of one slot with its write and the release.
abbrev pub Writes : ℕ → WriteOutcome → Bmap → Tract → Option Retif → ℕ → Type 0
Writes nr out b t r k =
    (b' : Bmap) × (apply_write nr out b t r (k * 3) ≡ some b')
    × IsTable b'.repls
    × ((j : ℕ) → slot b'.repls j ≡ (if k == j then moved t (slot b.repls j) else slot b.repls j))

apply_write_lem :
    (nr : ℕ) (out : WriteOutcome) (b : Bmap) (t : Tract) (r : Option Retif) (k i : ℕ)
    → nr ≤ 64
    → IsTract t
    → CanModify b
    → IsTable b.repls
    → k < nr
    → i < nr
    → slot b.repls i ≡ 3
    → moved t 3 ≡ 3
    → Writes nr out b t r k
unfolding apply_write
apply_write_lem nr out b t r k i hn ht c h hk hi v m =
    let (b1, e1, h1, l1, s1, g1) = bmap_apply_lem b t r k ht c h (omega arith) in
    let w1 : write_logrepls nr out b1 ≡ some (write_result true out b1) =
      write_logrepls_lem nr i out b1 h1 l1 hi (ground (arith, s1 i, v, ap (moved t) v, m)) in
    elim (Bool-cases (retif r (slot b.repls k) == 0)) [
      | inl z ↦ (
        repl_bmap_rel b1,
        ground (arith, e1, z),
        rw (repls-rel b1) h1,
        λ j. rw (repls-rel b1) (s1 j),
      )
      | inr z ↦ (
        repl_bmap_rel (write_result true out b1),
        ground (arith, e1, z, w1),
        rw (repls-rel (write_result true out b1), repls-written out b1) h1,
        λ j. rw (repls-rel (write_result true out b1), repls-written out b1) (s1 j),
      )
    ]

pub status-CanModify :
    (resid : ℕ) (q : Bool) (b : Bmap) → CanModify b → CanModify (set_status resid q b)
status-CanModify resid q b c = record { clean = c.clean; held = c.held }

module _ (nr : ℕ) (out : WriteOutcome) (ecode resid : ℕ) (e : ReplEntry) (k i : ℕ) (b : Bmap) where
  -- Once the server has answered, or failed to, for the replica `k`: if the copy was made for the
  -- generation that the bmap still has, a replica that was scheduled or queued is VALID; if there was
  -- no reply or the server was offline, one that was scheduled is queued again; otherwise it is
  -- GARBAGE. No other slot changes. This does not fail if some replica is valid.
  pub repl_finish_lem :
      nr ≤ 64
      → CanModify b
      → IsTable b.repls
      → k < nr
      → i < nr
      → slot b.repls i ≡ 3
      → e.off ≡ k * 3
      → Finishes nr out ecode resid e k b
  unfolding repl_finish
  repl_finish_lem hn c h hk hi v off = elim (Bool-cases (repl_succeeded ecode e b.bgen)) [
    | inl g ↦
        let (b1, e1, h1, s1) =
          apply_write_lem nr out b repl_done_tract (some repl_done_retif) k i hn
            repl_done_tract-IsTract c h hk hi v (moved-done 3) in
        (
          b1,
          ground (arith, off, g, e1),
          h1,
          λ j. ground (arith, g, s1 j, moved-done (slot b.repls j)),
        )
    | inr g ↦ elim (Bool-cases (repl_retry e b.bgen)) [
      | inl q ↦
          let (b1, e1, h1, s1) =
            apply_write_lem nr out (set_status resid true b) (one_change 1 2) (some repl_fail_retif)
              k i hn (one_change-IsTract 1 2 (omega arith)) (status-CanModify resid true b c) h hk
              hi v (moved-one 1 2 3) in
          (
            b1,
            ground (arith, off, g, q, e1),
            h1,
            λ j. ground (arith, g, q, s1 j, moved-one 1 2 (slot b.repls j)),
          )
      | inr q ↦
          let (b1, e1, h1, s1) =
            apply_write_lem nr out b (one_change 1 6) (some repl_fail_retif) k i hn
              (one_change-IsTract 1 6 (omega arith)) c h hk hi v (moved-one 1 6 3) in
          (
            b1,
            ground (arith, off, g, q, e1),
            h1,
            λ j. ground (arith, g, q, s1 j, moved-one 1 6 (slot b.repls j)),
          )
    ]
  ]
