-- ===== src/LeaseOps/Laws.antt =====
-- Leases under direct I/O, and a release after a failed assignment.
use slash.Prelude.{
  ℕ, ◌≡◌, refl, List, [], ◌∷◌, none, some, Bool, true, false, not, ◌&&◌, ◌||◌, ◌==◌, if◌then◌else◌,
  arith,
}
use slash.Errors.{done, fail, enomem, slerr_bmap_diowait}
use slash.Lease.{Client, Lease}
use slash.Leases.{
  LeasedBmap, any_lease, any_chain, call_back, call_back_all, other_lease, awaited, directio,
}
use slash.IosAssign.{Site, World, loaded_inoh, resm_select, ios_assign}
use slash.LeaseOps.{release_ion}

-- Every other client's lease is told, or is for direct I/O already.
abbrev pub told : Client → Lease → Bool
told c l = not (awaited c l) || l.diocb

call_back-told :
    (c : Client) (ch : List Lease) → any_lease (λ l. not (told c l)) (call_back c ch) ≡ false
unfolding any_lease call_back
call_back-told c [] = refl
call_back-told c (l ∷ ch) = ground (arith, call_back-told c ch)

call_back_all-told :
    (c : Client) (chs : List (List Lease))
    → any_chain (λ l. not (told c l)) (call_back_all c chs) ≡ false
unfolding any_chain call_back_all
call_back_all-told c [] = refl
call_back_all-told c (ch ∷ chs) = ground (arith, call_back-told c ch, call_back_all-told c chs)

-- A conflict: the bmap is to be used directly, or is being written, or is read and to be written.
abbrev pub conflict : Bool → Bool → LeasedBmap → Bool
conflict wr want_dio b = want_dio || b.diocb || not (b.writers == 0) || (wr && not (b.readers == 0))

-- It has to wait: there is a conflict, and another client has a lease that is not for direct I/O.
abbrev pub must_wait : Bool → Bool → Client → LeasedBmap → Bool
must_wait wr want_dio c b = conflict wr want_dio b && any_chain (awaited c) b.leases

-- A request for a bmap not in use directly has to wait exactly if there is a conflict and another
-- client has a lease that is not for direct I/O. It then leaves every such lease called back, and the
-- bmap not in use directly; otherwise the bmap is in use directly afterwards exactly if direct I/O is
-- wanted or under way, or there is a conflict and another client has a lease.
pub directio_lem :
    (wr want_dio : Bool) (c : Client) (b : LeasedBmap)
    → b.dio ≡ false
    → ((directio wr want_dio c b).1
        ≡ (if must_wait wr want_dio c b then fail slerr_bmap_diowait else done 0))
      × (any_chain (λ l. not (told c l)) (directio wr want_dio c b).0.leases
          ≡ (if must_wait wr want_dio c b then false else any_chain (λ l. not (told c l)) b.leases))
      × ((directio wr want_dio c b).0.dio ≡ (
          if must_wait wr want_dio c b
          then false
          else want_dio
            || b.diocb
            || (conflict wr want_dio b && any_chain (other_lease c) b.leases)))
unfolding directio
directio_lem wr want_dio c b nd =
    (ground (arith, nd), ground (arith, nd, call_back_all-told c b.leases), ground (arith, nd))

-- When no slot of the on-disk table is free, the assignment fails with ENOMEM but keeps the I/O
-- server; the step of the release that gives it back, for the client's last write lease, then fails
-- an assertion.
pub ios_assign-enomem :
    (e : Site) (pios r : ℕ) (w : World)
    → w.b.wr_ion ≡ none
    → w.b.assign ≡ none
    → (w.b.opcnt == 0) ≡ false
    → w.b.iosassigned ≡ true
    → resm_select e (loaded_inoh e w.b.inoh) w.b.table.repls pios [] ≡ some (some r)
    → e.slot_for ≡ none
    → (w' : World) × (ios_assign e pios w ≡ some (w', fail enomem))
      × (w'.b.wr_ion ≡ some r)
      × (release_ion e w'.lease w'.b ≡ none)
unfolding ios_assign release_ion
ios_assign-enomem e pios r w i a o t s n = (
  record w {
    b = record w.b { inoh = loaded_inoh e w.b.inoh; wr_ion = some r; noion = true };
    lease = record w.lease { assfail = true };
  },
  ground arith,
  refl,
  ground arith,
)
