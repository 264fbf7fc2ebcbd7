-- ===== src/LeaseOps.antt =====
-- slashd/mds.c: the operations on a lease: to add it, to make it a write lease, to release it, and the
-- requests that a client makes with them.
pub mod Laws
use slash.Prelude.{
  ℕ, zero, suc, ◌+◌, ◌-◌, List, [], ◌∷◌, ◌++◌, Option, none, some, Bool, true, false, not, ◌&&◌,
  ◌||◌, ◌==◌, ltb, leb, if◌then◌else◌,
}
use slash.BmapMds.{Bmap, breplst_repl_queued, breplst_truncpndg}
use slash.Errors.{Rc, done, fail, einval, enoent, eagain, slerr_ion_offline}
use slash.Inode.{sl_def_replicas}
use slash.Lease.{Client, Lease, Bia}
use slash.BmapTimeo.{Timeo, mdsi, getnextseq, bte_add, bte_del}
use slash.Leases.{
  LeasedBmap, AssignEntry, freed, put, directio, Dupls, dupls_find, link_at, count_in, bml_del,
  getbml,
}
use slash.IosAssign.{
  Site, World, Outcome, loaded_inoh, assign_seq, resm_select, add_repl, ios_assign, ios_update,
  ios_restart,
}
use slash.Residency.{Retif, arr_set, brepls_init, bmap_walk_all}

-- LNET_NID_ANY and LNET_PID_ANY, on 64 and 32 bits.
abbrev lnet_nid_any : ℕ
lnet_nid_any = 18446744073709551615

abbrev lnet_pid_any : ℕ
lnet_pid_any = 4294967295

-- BMAPF_IOSASSIGNED
abbrev pub assigning : Bool → World → World
assigning v w = record w { b = record w.b { iosassigned = v } }

abbrev pub mark_assfail : World → World
mark_assfail w = record w { lease = record w.lease { assfail = true } }

-- The end of every operation: the fields of a linked lease are those in its chain.
unfoldable pub settle : World → World
settle w = if w.lease.bmi then record w { b = put w.lease w.b } else w

-- The counters in `mds_bmap_bml_chwrmode`, and the new mode.
unfoldable pub to_write : World → Option World
to_write w = elim (dupls_find w.lease.client w.b) [
  | none ↦ none
  | some d ↦
      if d.rlease == 0
      then none
      else some (record w {
        b =
            if d.wlease == 0
            then record w.b { writers = w.b.writers + 1; readers = w.b.readers - 1 }
            else w.b;
        lease = record w.lease { read = false; write = true };
      })
]

abbrev has_ion : World → Bool
has_ion w = elim w.b.wr_ion [ none ↦ false | some r ↦ true ]

abbrev wr_ion_or : {A : Type 0} → (ℕ → A) → A → Option ℕ → A
wr_ion_or f d none = d
wr_ion_or f d (some r) = f r

-- `mds_bmap_bml_chwrmode` behind the assignment.
abbrev chwrmode_end : Outcome → Outcome
chwrmode_end none = none
chwrmode_end (some (w, fail n)) = some (assigning false (settle (mark_assfail w)), fail n)
chwrmode_end (some (w, done n)) =
    if not (has_ion w)
    then none
    else elim (to_write w) [ none ↦ none | some w' ↦ some (assigning false (settle w'), done 0) ]

abbrev chwrmode_granted : Site → ℕ → World → LeasedBmap × Rc → Outcome
chwrmode_granted e pios w (b, fail n) = some (assigning false (record w { b = b }), fail n)
chwrmode_granted e pios w (b, done n) =
    let w1 = record w { b = b } in
    chwrmode_end (if has_ion w1 then ios_update e w1 else ios_assign e pios w1)

-- `mds_bmap_bml_chwrmode`; `already` is PFLERR_ALREADY, whose number another library chooses.
unfoldable pub chwrmode : Site → ℕ → ℕ → World → Outcome
chwrmode e already pios w =
    let w1 = assigning true w in
    if w.lease.write
    then some (assigning false w1, fail already)
    else chwrmode_granted e pios w1 (directio true false w.lease.client w1.b)

-- The assignment in `mds_bmap_bml_add` for a write lease.
unfoldable pub add_assign : Site → ℕ → Dupls → World → Outcome
add_assign e pios d w =
    if w.lease.recover
    then (if w.b.writers == 1 && w.b.readers == 0 && not (has_ion w) && not (w.lease.ios == 0)
        then ios_restart w
        else none)
    else if d.wlease == 0 && w.b.writers == 1
    then (if has_ion w then none else ios_assign e pios w)
    else if has_ion w
    then ios_update e w
    else none

abbrev add_end : Outcome → Outcome
add_end none = none
add_end (some (w, rc)) = some (assigning false (settle w), rc)

-- A read lease gets one sequence number, and the timeout table counts on by another.
abbrev add_read : World → World
add_read w =
    let t1 = getnextseq w.timeo in
    let l1 = record w.lease { seq = t1.maxseq } in
    let (seq, lt) = mdsi bte_add l1 t1 in record w { lease = lt.0; timeo = lt.1 }

abbrev linked : Lease → Dupls → Lease
linked l d = elim d.found [
  | [] ↦ record l { bmi = true }
  | o ∷ os ↦ record l { bmi = true; chain = true }
]

-- `mds_bmap_bml_add` once the bmap is not in use directly, or the lease is recovered.
unfoldable pub bml_link : Site → Bool → ℕ → Dupls → World → Outcome
bml_link e wr pios d w =
    let b1 = count_in wr d (record w.b { leases = link_at d.found w.lease w.b.leases }) in
    let w1 = record w { b = b1; lease = linked w.lease d } in
    if wr
    then add_end (add_assign e pios d (assigning true w1))
    else some (settle (add_read w1), done 0)

abbrev add_granted : Site → Bool → ℕ → World → LeasedBmap × Rc → Outcome
add_granted e wr pios w (b, rc) =
    let go : Outcome = elim (dupls_find w.lease.client b) [
      | none ↦ none
      | some d ↦ bml_link e wr pios d (record w { b = b })
    ] in
    elim rc [
      | done n ↦ go
      | fail n ↦ if w.lease.recover then go else some (record w { b = b }, fail n)
    ]

-- `mds_bmap_bml_add`
unfoldable pub bml_add : Site → Bool → ℕ → World → Outcome
bml_add e wr pios w =
    let b1 = record w.b { opcnt = w.b.opcnt + 1; iosassigned = false } in
    if w.lease.client.nid == 0
      || w.lease.client.pid == 0
      || w.lease.client.nid == lnet_nid_any
      || w.lease.client.pid == lnet_pid_any
    then none
    else add_granted e wr pios (record w { b = b1 }) (directio wr w.lease.dio w.lease.client b1)

-- `retifset` of `mds_bmap_bml_release`
abbrev pub queue_retif : Retif
queue_retif = arr_set (arr_set (brepls_init 0) breplst_repl_queued 1) breplst_truncpndg 1

-- Its end for the last write lease: work on replicas that waits is queued.
unfoldable pub queue_work : Site → LeasedBmap → Option LeasedBmap
queue_work e b = elim (bmap_walk_all b.inoh.nrepls b.table none (some queue_retif) true) [
  | none ↦ none
  | some (t, rc) ↦
      if rc == 0
      then some (record b { table = t })
      else let ih = loaded_inoh e b.inoh in
        elim (bmap_walk_all ih.nrepls (record t { fcmh_busy = true; busy = true; rdlock = true })
          none (some queue_retif) true) [
            | none ↦ none
            | some (t2, rc2) ↦ some (record b {
              inoh = ih;
              table = record t2 {
                enqueued = if rc2 == 0 then t2.enqueued else t2.enqueued + 1;
                upd_busy = false;
                rdlock = false;
                busy = false;
                fcmh_busy = false;
              };
            })
          ]
]

-- The part that gives the I/O server and the item of the on-disk table back: the bmap, and the slot.
unfoldable pub release_ion : Site → Lease → LeasedBmap → Option (LeasedBmap × Option ℕ)
release_ion e l b =
    if b.noion
    then elim b.assign [ some a ↦ none | none ↦ wr_ion_or (λ r. none) (some (b, none)) b.wr_ion ]
    else if l.assfail
    then some (b, none)
    else let give = λ (odtr : Option ℕ) (b1 : LeasedBmap).
      wr_ion_or {A = Option (LeasedBmap × Option ℕ)}
        (λ r. elim (queue_work e (record b1 { wr_ion = none })) [
          | none ↦ none
          | some b2 ↦ some (b2, odtr)
        ])
        none b1.wr_ion in
      elim b.assign [
        | none ↦ if l.recoverfail then give none b else none
        | some (elem, item) ↦
            if l.recoverfail || not (item.seq == b.seq) || not (item.bmapno == b.bmapno)
            then none
            else give (some elem) (record b { assign = none })
      ]

-- `b->bcm_flags &= ~(BMAPF_DIO | BMAPF_DIOCB)`, if so few leases are left.
unfoldable pub clear_dio : LeasedBmap → LeasedBmap
clear_dio b =
    if (b.dio || b.diocb) && (b.writers == 0 || (b.writers == 1 && b.readers == 0))
    then record b { dio = false; diocb = false }
    else b

unfoldable pub release_end : Option ℕ → LeasedBmap → LeasedBmap
release_end odtr b = record b {
  iosassigned = false;
  opcnt = b.opcnt - 1;
  entries = elim odtr [ none ↦ b.entries | some elem ↦ freed elem ∷ b.entries ];
}

-- What a release returns: the bmap, the table, and the lease unless it was freed.
abbrev pub Released : Type 0
Released = Option (LeasedBmap × (Timeo × Option Lease))

unfoldable pub release_linked : Site → Lease → LeasedBmap → Option LeasedBmap
release_linked e l b = elim (bml_del l b) [
  | none ↦ none
  | some b1 ↦
      let b2 = clear_dio b1 in
      if l.write && b2.writers == 0
      then elim (release_ion e l b2) [ none ↦ none | some (b3, odtr) ↦ some (release_end odtr b3) ]
      else some (release_end none b2)
]

-- `mds_bmap_bml_release`, with the part behind `out`.
unfoldable pub bml_release : Site → LeasedBmap → Timeo → Lease → Released
bml_release e b t l =
    if b.opcnt == 0
    then none
    else if ltb 1 l.refcnt || not l.freeing
    then (if l.refcnt == 0
        then none
        else let l' = record l { refcnt = l.refcnt - 1 } in
          some (
            (if l.bmi
                then put l' (record b { iosassigned = false })
                else record b { iosassigned = false }),
            (t, some l'),
          ))
    else let t1 = if l.timeoq then (mdsi bte_del l t).1.1 else t in
      let l1 = record l { timeoq = false } in
      if not l.bmi
      then some (release_end none b, (t1, none))
      else elim (release_linked e l1 b) [ none ↦ none | some b1 ↦ some (b1, (t1, none)) ]

-- `mds_bml_new`
unfoldable pub bml_new : ℕ → Client → Bool → Bool → ℕ → Lease
bml_new ptr c wr dio now = record {
  ptr = ptr;
  client = c;
  seq = 0;
  ios = 0;
  refcnt = 1;
  expire = now + 240;
  read = not wr;
  write = wr;
  dio = dio;
  diocb = false;
  timeoq = false;
  bmi = false;
  recover = false;
  chain = false;
  freeing = false;
  assfail = false;
  recoverfail = false;
}

-- The loop body of `mds_handle_rls_bmap` for a bmap that was found.
unfoldable pub rls_bmap : Site → LeasedBmap → Timeo → ℕ → Client → Option (LeasedBmap × Timeo)
rls_bmap e b t seq c =
    let (b1, found) = getbml seq c b in
    elim found [
      | none ↦ some (b1, t)
      | some l ↦
          let l1 = record l { freeing = true } in
          elim (bml_release e (put l1 b1) t l1) [ none ↦ none | some (b2, tl) ↦ some (b2, tl.0) ]
    ]
