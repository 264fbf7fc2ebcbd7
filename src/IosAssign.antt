-- ===== src/IosAssign.antt =====
-- slashd/mds.c: the choice of an I/O server for a write lease, and its assignment.
-- The configuration, the connections and the on-disk table are not the metadata server's own: what
-- they answer is a parameter.
use slash.Prelude.{
  ℕ, zero, suc, ◌+◌, List, [], ◌∷◌, ◌++◌, none, some, Bool, true, false, not, ◌&&◌, ◌||◌, ◌==◌, ltb,
  if◌then◌else◌, length,
}
use slash.Prelude.{Option}
use slash.BmapMds.{Bmap, breplst_invalid, breplst_valid}
use slash.BmapWrite.{WriteOutcome}
use slash.Errors.{Rc, done, fail, enomem, slerr_ion_offline}
use slash.Inode.{Inoh, InoxRead, add, ensure_loaded, repl_at, ios_lookup, sl_def_replicas}
use slash.InvExcept.{inv_except}
use slash.Lease.{Lease, Bia}
use slash.BmapTimeo.{Timeo, mdsi, set_seq, bte_add, bte_reattach, bmapseq_any}
use slash.Leases.{LeasedBmap, assigned}
use slash.Residency.Apply.{slot}

-- What lies outside: the extras block on disk; which IDs are of resources that store files; the
-- outcome of the write of the bmap; the member that `libsl_try_ios2resm` gives for an ID, if any;
-- what `slm_get_ioslist` adds to a list for a preferred ID, which is shuffled; which members
-- `slm_try_sliodresm` can reach; and the slot that `pfl_odt_allocslot` finds. A member is given by the
-- ID of its resource.
pub record Site : Type 0 where
  pub inox : InoxRead
  pub isfs : ℕ → Bool
  pub out : WriteOutcome
  pub resm : ℕ → Bool
  pub ioslist : ℕ → List ℕ → List ℕ
  pub online : ℕ → Bool
  pub slot_for : Option ℕ

-- The first loop of `slm_resm_select` over the replicas: the number that are not INVALID, the members
-- of the VALID ones, and the value that `resm` is left with.
pub record Scan : Type 0 where
  pub repls : ℕ
  pub members : List ℕ
  pub last : Option ℕ

unfoldable pub scan_repl : Site → Inoh → List ℕ → ℕ → Scan → Scan
scan_repl e ih repls i s =
    let val = slot repls i in
    let s' = if val == breplst_invalid then s else record s { repls = s.repls + 1 } in
    if not (val == breplst_valid)
    then s'
    else if e.resm (repl_at ih i)
    then record s' { members = s'.members ++ (repl_at ih i ∷ []); last = some (repl_at ih i) }
    else record s' { last = none }

unfoldable pub scan : Site → Inoh → List ℕ → ℕ → Scan
scan e ih repls zero = record { repls = 0; members = []; last = none }
scan e ih repls (suc n) = scan_repl e ih repls n (scan e ih repls n)

unfoldable pub mem : ℕ → List ℕ → Bool
mem x [] = false
mem x (y ∷ ys) = y == x || mem x ys

-- The last loop: the first member that is not to be skipped and can be reached.
unfoldable pub first_online : Site → List ℕ → List ℕ → Option ℕ
first_online e skip [] = none
first_online e skip (r ∷ rs) =
    if not (mem r skip) && e.online r then some r else first_online e skip rs

-- `slm_resm_select`: the member, or `none` in it for NULL. The outer `none` is a read behind the end of
-- the array of members. A request to reassign that is refused leaves the loop's `resm`.
unfoldable pub resm_select : Site → Inoh → List ℕ → ℕ → List ℕ → Option (Option ℕ)
resm_select e ih repls pios [] =
    let s = scan e ih repls ih.nrepls in
    if not (s.repls == 0) && length s.members == 0
    then some none
    else some (first_online e [] (e.ioslist pios s.members))
resm_select e ih repls pios (k ∷ skip) =
    let s = scan e ih repls ih.nrepls in
    if not (s.repls == 1) then some s.last else elim s.members [
      | [] ↦ none
      | m ∷ ms ↦
          if mem m (k ∷ skip)
          then some (first_online e (k ∷ skip) (e.ioslist pios []))
          else some (some m)
    ]

-- `mds_inox_ensure_loaded` at the head of `slm_resm_select`, whose error is ignored.
abbrev pub loaded_inoh : Site → Inoh → Inoh
loaded_inoh e ih = if ltb sl_def_replicas ih.nrepls then (ensure_loaded e.inox ih).0 else ih

abbrev inode_ids : Inoh → List ℕ
inode_ids ih = ih.ino_repls ++ elim ih.extras [ none ↦ [] | some xs ↦ xs ]

abbrev unbusy : Bmap → Bmap
unbusy t = record t { busy = false; fcmh_busy = false }

-- The journal entry of `mds_bmap_add_repl`, whose fill asserts that file and bmap are busy.
abbrev journal_assign : LeasedBmap → ℕ → Bia → Bmap → Inoh → Option (LeasedBmap × Rc)
journal_assign b nrepls bia t ih = elim b.assign [
  | none ↦ none
  | some (elem, item) ↦
      if t.fcmh_busy && t.busy
      then some (
        record b {
          inoh = ih;
          table = unbusy t;
          entries =
              assigned (if nrepls == ih.nrepls then none else some (inode_ids ih)) t.repls bia elem
              ∷ b.entries;
        },
        done 0,
      )
      else none
]

-- `mds_bmap_add_repl`
unfoldable pub add_repl : Site → LeasedBmap → Bia → Option (LeasedBmap × Rc)
add_repl e b bia =
    if not b.iosassigned then none else elim (ios_lookup e.inox e.isfs bia.ios add b.inoh) [
      | none ↦ none
      | some (fail err, ih) ↦ none
      | some (done i, ih) ↦
          elim (inv_except ih.nrepls e.out (record b.table { fcmh_busy = true }) i false) [
            | none ↦ none
            | some (t, rc) ↦
                if rc == 0
                then journal_assign b b.inoh.nrepls bia t ih
                else some (record b { inoh = ih; table = unbusy t }, fail rc)
          ]
    ]

-- The state that the operations on a lease work on.
pub record World : Type 0 where
  pub b : LeasedBmap
  pub timeo : Timeo
  pub lease : Lease

abbrev pub Outcome : Type 0
Outcome = Option (World × Rc)

-- `bml->bml_seq = seq`
abbrev pub assign_seq : ℕ → World → World
assign_seq s w = record w {
  lease = record w.lease { seq = s };
  timeo = record w.timeo { queue = set_seq w.lease.ptr s w.timeo.queue };
}

abbrev pub add_repl_then : (Rc → Rc) → ℕ → World → Option (LeasedBmap × Rc) → Outcome
add_repl_then err s w none = none
add_repl_then err s w (some (b, done n)) = some (assign_seq s (record w { b = b }), done n)
add_repl_then err s w (some (b, fail n)) = some (record w { b = b }, err (fail n))

-- The part of `mds_bmap_ios_assign` behind the choice of the member and of the slot.
unfoldable pub assign_item : Site → World → ℕ → ℕ → Outcome
assign_item e w r elem =
    let (seq, lt) = mdsi bte_add w.lease w.timeo in
    let bia : Bia = record {
      ios = r;
      lastcli = w.lease.client;
      fid = w.b.fid;
      seq = seq;
      bmapno = w.b.bmapno;
      dio = w.b.dio;
    } in
    let b1 = record w.b { noion = false; seq = seq; assign = some (elem, bia) } in
    add_repl_then (λ rc. fail 1) seq
      (record w { b = b1; timeo = lt.1; lease = record lt.0 { ios = r } }) (add_repl e b1 bia)

-- Both failures set BMAPF_NOION and BML_ASSFAIL.
abbrev pub no_ion : World → World
no_ion w = record w { b = record w.b { noion = true }; lease = record w.lease { assfail = true } }

-- `mds_bmap_ios_assign`
unfoldable pub ios_assign : Site → ℕ → World → Outcome
ios_assign e pios w = elim w.b.wr_ion [
  | some r ↦ none
  | none ↦ elim w.b.assign [
    | some a ↦ none
    | none ↦
        let ih = loaded_inoh e w.b.inoh in
        let w1 = record w { b = record w.b { inoh = ih } } in
        if w.b.opcnt == 0 then none else elim (resm_select e ih w.b.table.repls pios []) [
          | none ↦ none
          | some none ↦
              if not w.b.iosassigned then none else some (no_ion w1, fail slerr_ion_offline)
          | some (some r) ↦
              if not w.b.iosassigned
              then none
              else let w2 = record w1 { b = record w1.b { wr_ion = some r } } in
                elim e.slot_for [
                  | none ↦ some (no_ion w2, fail enomem)
                  | some elem ↦ assign_item e w2 r elem
                ]
        ]
  ]
]

-- `mds_bmap_ios_update`
unfoldable pub ios_update : Site → World → Outcome
ios_update e w = if not w.b.iosassigned then none else elim w.b.assign [
  | none ↦ none
  | some (elem, item) ↦
      if not (item.fid == w.b.fid)
      then some (w, fail 1)
      else if not (item.seq == w.b.seq)
      then none
      else let (seq, lt) = mdsi bte_add w.lease w.timeo in
        let bia = record item { seq = seq; lastcli = w.lease.client; dio = w.b.dio } in
        let b1 = record w.b { seq = seq; assign = some (elem, bia) } in
        let w1 =
          assign_seq seq
            (record w { b = b1; timeo = lt.1; lease = record lt.0 { ios = bia.ios } }) in
        add_repl_then (λ rc. rc) seq w1 (add_repl e b1 bia)
]

-- `mds_bmap_ios_restart`. A lease that has expired makes it return 1.
unfoldable pub ios_restart : World → Outcome
ios_restart w = elim w.b.assign [
  | none ↦ none
  | some a ↦
      let (seq, lt) = mdsi bte_reattach w.lease w.timeo in
      some (
        record w {
          b = record w.b { wr_ion = some w.lease.ios; seq = w.lease.seq };
          timeo = lt.1;
          lease = lt.0;
        },
        if seq == bmapseq_any then fail 1 else done 0,
      )
]
