-- ===== src/LeaseRpc.antt =====
-- slashd/mds.c: what a client asks for with leases, and the recovery of write leases at startup. The
-- bmap is the one that `bmap_get` found.
use slash.Prelude.{
  ℕ, List, [], ◌∷◌, Option, none, some, Bool, true, false, not, ◌&&◌, ◌||◌, ◌==◌, ltb, leb,
  if◌then◌else◌, ◌/◌,
}
use slash.Errors.{Rc, done, fail, einval, enoent, eagain, slerr_ion_offline, slerr_bmap_in_ptrunc}
use slash.Lease.{Client, Lease, Bia}
use slash.BmapTimeo.{Timeo, mdsi, bte_add}
use slash.Leases.{LeasedBmap, put, getbml, is_chain_of}
use slash.IosAssign.{Site, World, Outcome, loaded_inoh, assign_seq, resm_select, add_repl}
use slash.LeaseOps.{bml_new, bml_add, bml_release, Released, assigning, settle}

-- `struct srt_bmapdesc`: the number of the lease, the client, the I/O server (`none` for IOS_ID_ANY) and
-- the slot behind the key of the on-disk table (`none` for BMAPSEQ_ANY).
pub record BmapDesc : Type 0 where
  pub seq : ℕ
  pub client : Client
  pub ios : Option ℕ
  pub key : Option ℕ

-- What such a request leaves and returns.
pub record Reply : Type 0 where
  pub b : LeasedBmap
  pub timeo : Timeo
  pub rc : Rc
  pub desc : Option BmapDesc

abbrev elem_of : LeasedBmap → Option ℕ
elem_of b = elim b.assign [ none ↦ none | some a ↦ some a.0 ]

-- The description of a new lease. A write lease has an I/O server and an item.
abbrev describe : Bool → World → Option BmapDesc
describe true w = elim w.b.wr_ion [
  | none ↦ none
  | some r ↦ elim (elem_of w.b) [
    | none ↦ none
    | some k ↦
        some (record { seq = w.lease.seq; client = w.lease.client; ios = some r; key = some k })
  ]
]
describe false w =
    some (record { seq = w.lease.seq; client = w.lease.client; ios = none; key = none })

abbrev reply_of : Rc → Option BmapDesc → Released → Option Reply
reply_of rc d none = none
reply_of rc d (some (b, tl)) = some (record { b = b; timeo = tl.0; rc = rc; desc = d })

-- A lease that could not be added is freed.
abbrev give_up : ℕ → Lease → Lease
give_up err l = record l { freeing = true; assfail = l.assfail || err == slerr_ion_offline }

abbrev release_failed : Site → World → ℕ → Released
release_failed e w err =
    let l = give_up err w.lease in bml_release e (if l.bmi then put l w.b else w.b) w.timeo l

abbrev load_end : Site → Bool → Outcome → Option Reply
load_end e wr none = none
load_end e wr (some (w, fail err)) = reply_of (fail err) none (release_failed e w err)
load_end e wr (some (w, done n)) = elim (describe wr w) [
  | none ↦ none
  | some d ↦ reply_of (done 0) (some d) (bml_release e w.b w.timeo w.lease)
]

-- `mds_bmap_load_cli` once the file is not being truncated there and the bmap was found.
unfoldable pub load_cli :
    Site → Bool → Bool → ℕ → ℕ → Client → ℕ → LeasedBmap → Timeo → Option Reply
load_cli e wr dio pios ptr c now b t =
    load_end e wr
      (bml_add e wr pios (record { b = b; timeo = t; lease = bml_new ptr c wr dio now }))

-- The guard at its head, with whether the client's connection was found: the client is remembered and
-- is told to wait.
unfoldable pub in_ptrunc : Bool → Bool → ℕ → ℕ → List ℕ → ℕ → Option (List ℕ × Rc)
in_ptrunc ptrunc csvc fsz bmapno waiting client =
    if ptrunc && leb (fsz / 134217728) bmapno && csvc
    then some (client ∷ waiting, done slerr_bmap_in_ptrunc)
    else none

-- The item of a lease that is moved to another server.
abbrev moved_to : ℕ → ℕ → Client → Bia → Bia
moved_to r seq c item = record item { seq = seq; lastcli = c; ios = r }

abbrev store_item : ℕ → Bia → LeasedBmap → LeasedBmap
store_item seq bia b = record b {
  seq = seq;
  assign = elim b.assign [ none ↦ none | some a ↦ some (a.0, bia) ];
}

abbrev reassign_end : ℕ → ℕ → Bia → World → Option (LeasedBmap × Rc) → Outcome
reassign_end r seq bia w none = none
reassign_end r seq bia w (some (b, fail n)) = some (record w { b = b }, fail n)
reassign_end r seq bia w (some (b, done n)) =
    let w1 = assign_seq seq (record w { b = store_item seq bia b }) in
    some (record w1 { lease = record w1.lease { ios = r } }, done 0)

-- The part of `mds_lease_reassign` under BMAPF_IOSASSIGNED.
unfoldable pub reassign_assigned : Site → ℕ → List ℕ → World → Outcome
reassign_assigned e pios prev w =
    if ltb 1 w.b.writers || not (w.b.readers == 0) then some (w, fail eagain) else elim w.b.wr_ion [
      | none ↦ none
      | some old ↦ if w.b.dio then none else elim w.b.assign [
        | none ↦ none
        | some (elem, item) ↦
            if not (item.seq == w.b.seq)
            then none
            else let ih = loaded_inoh e w.b.inoh in
              let w1 = record w { b = record w.b { inoh = ih } } in
              elim (resm_select e ih w.b.table.repls pios prev) [
                | none ↦ none
                | some none ↦ some (w1, fail slerr_ion_offline)
                | some (some r) ↦
                    let (seq, lt) = mdsi bte_add w1.lease w1.timeo in
                    let bia = moved_to r seq w1.lease.client item in
                    reassign_end r seq bia (record w1 { lease = lt.0; timeo = lt.1 })
                      (add_repl e w1.b bia)
              ]
      ]
    ]

abbrev reassign_reply : Site → Client → Outcome → Option Reply
reassign_reply e c none = none
reassign_reply e c (some (w, rc)) =
    let w1 = assigning false (settle w) in
    let d : Option BmapDesc = elim rc [
      | fail n ↦ none
      | done n ↦
          some (record { seq = w.lease.seq; client = c; ios = some w.lease.ios; key = elem_of w.b })
    ] in
    reply_of rc d (bml_release e w1.b w1.timeo w1.lease)

-- `mds_lease_reassign`; `c` is the client that asks, `seq` and `owner` name the lease.
unfoldable pub lease_reassign :
    Site → ℕ → List ℕ → Client → ℕ → Client → LeasedBmap → Timeo → Option Reply
lease_reassign e pios prev c seq owner b t =
    let (b1, found) = getbml seq owner b in
    elim found [
      | none ↦ some (record { b = b1; timeo = t; rc = fail enoent; desc = none })
      | some l ↦
          if not l.write
          then reply_of (fail einval) none (bml_release e b1 t l)
          else reassign_reply e c (
              reassign_assigned e pios prev
                (assigning true (record { b = b1; timeo = t; lease = l })))
    ]

-- The fields of a linked lease now.
unfoldable pub ptr_in : Lease → List Lease → Lease
ptr_in l [] = l
ptr_in l (x ∷ xs) = if x.ptr == l.ptr then x else ptr_in l xs

unfoldable pub current : Lease → List (List Lease) → Lease
current l [] = l
current l (ch ∷ chs) = if is_chain_of l.client ch then ptr_in l ch else current l chs

-- The release of the old lease at the end of `mds_lease_renew`.
abbrev release_old : Site → Bool → Option Lease → Released → Released
release_old e free old none = none
release_old e free none (some r) = some r
release_old e free (some l) (some (b, tl)) =
    let now = current l b.leases in
    let l1 = record now { freeing = free || now.freeing } in bml_release e (put l1 b) tl.0 l1

abbrev renew_end : Site → Bool → Option Lease → Outcome → Option Reply
renew_end e wr old none = none
renew_end e wr old (some (w, fail err)) =
    reply_of (fail err) none (release_old e false old (release_failed e w err))
renew_end e wr old (some (w, done n)) = elim (describe wr w) [
  | none ↦ none
  | some d ↦ reply_of (done 0) (some d) (release_old e true old (bml_release e w.b w.timeo w.lease))
]

-- `mds_lease_renew`; `pios` is `none` for IOS_ID_ANY, which asks for a read lease.
unfoldable pub lease_renew :
    Site → Option ℕ → ℕ → Client → ℕ → Client → ℕ → LeasedBmap → Timeo → Option Reply
lease_renew e pios ptr c seq owner now b t =
    let (b1, old) = getbml seq owner b in
    let wr : Bool = elim pios [ none ↦ false | some p ↦ true ] in
    renew_end e wr old (
      bml_add e wr (elim pios [ none ↦ 0 | some p ↦ p ])
        (record { b = b1; timeo = t; lease = bml_new ptr c wr false now }))

-- The recovered lease of `mds_bia_odtable_startup_cb`.
abbrev recovered : ℕ → ℕ → Bia → Lease
recovered ptr now bia = record (bml_new ptr bia.lastcli true false now) {
  recover = true;
  seq = bia.seq;
  ios = bia.ios;
}

-- Its end: whether the item stays in the on-disk table.
abbrev startup_end : Site → Outcome → Option (LeasedBmap × (Timeo × Bool))
startup_end e none = none
startup_end e (some (w, rc)) = elim rc [
  | done n ↦ elim (bml_release e w.b w.timeo w.lease) [
    | none ↦ none
    | some (b, tl) ↦ some (b, (tl.0, true))
  ]
  | fail n ↦
      let l = record w.lease { freeing = true; recoverfail = true } in
      elim (bml_release e (put l (record w.b { assign = none })) w.timeo l) [
        | none ↦ none
        | some (b, tl) ↦ some (b, (tl.0, false))
      ]
]

-- `mds_bia_odtable_startup_cb` for an item whose file and bmap were found; `elem` is its slot.
unfoldable pub odtable_startup :
    Site → ℕ → ℕ → ℕ → Bia → LeasedBmap → Timeo → Option (LeasedBmap × (Timeo × Bool))
odtable_startup e ptr now elem bia b t =
    let b1 = record b { dio = b.dio || bia.dio; assign = some (elem, bia) } in
    startup_end e (bml_add e true 0 (record { b = b1; timeo = t; lease = recovered ptr now bia }))
