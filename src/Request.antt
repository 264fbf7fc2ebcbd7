-- ===== src/Request.antt =====
-- slashd/repl_mds.c: the requests to replicate a file or a bmap, and to drop replicas: `mds_repl_addrq`,
-- `mds_repl_delrq`, and `slm_repl_countvalid_cb`.
pub mod LastReplica
pub mod Queued
pub mod AllBmaps
use mathlib.Core.Option
use slash.Prelude.{
  ℕ, zero, suc, ◌+◌, ◌-◌, ◌*◌, ◌/◌, ◌%◌, List, [], ◌∷◌, none, some, Bool, true, false, not, ◌&&◌,
  ◌||◌, ◌⊎◌, inl, inr, ltb, leb, ◌==◌, if◌then◌else◌, length, map,
}
use slash.Prelude.{Option}
use slash.BmapMds.{
  Bmap, breplst_invalid, breplst_repl_sched, breplst_repl_queued, breplst_valid, breplst_garbage,
  breplst_garbage_sched,
}
use slash.BmapWrite.{WriteOutcome, bmap_write, repl_bmap_rel}
use slash.Errors.{
  Rc, done, fail, einval, eopnotsupp, slerr_repl_already_act, slerr_repl_not_act,
  slerr_bmap_invalid, slerr_bmap_zero, slerr_lastrepl,
}
use slash.Inode.{
  Inoh, InoxRead, LookupFlag, plain, add, del, repl_at, Indices, iosv_lookup, sl_max_replicas,
}
use slash.Residency.{Tract, Retif, arr_set, brepls_init, iosidx_in, walk, bmap_walk, bmap_walk_all}
use slash.UpdWrite.{repl_upd_write}

abbrev pub slash_bmap_size : ℕ
slash_bmap_size = 134217728

-- The file of a request: its type, its size, its inode handle and its bmaps by number.
pub record File : Type 0 where
  pub isdir : Bool
  pub isreg : Bool
  pub fsz : ℕ
  pub inoh : Inoh
  pub bmaps : ℕ → Bmap

-- What lies outside: the extras block on disk, the IDs of resources that store files, what is
-- configured of an ID, the outcome of a write of a bmap, the error of `bmap_get` for a number, and the
-- number PFLERR_ALREADY.
pub record Site : Type 0 where
  pub inox : InoxRead
  pub isfs : ℕ → Bool
  pub res : ℕ → Option Bool
  pub out : WriteOutcome
  pub bmap_get : ℕ → Option ℕ
  pub already : ℕ

-- `fcmh_nvalidbmaps`, which is `howmany`, and `mds_bmap_exists`.
unfoldable pub nvalidbmaps : File → ℕ
nvalidbmaps f = (f.fsz + (slash_bmap_size - 1)) / slash_bmap_size

unfoldable pub bmap_exists : File → ℕ → Bool
bmap_exists f n = if n == 0 then true else ltb n (nvalidbmaps f)

-- `slm_repl_countvalid_cb`, with the indices in place of the structure that holds them.
unfoldable pub countvalid_cb : List ℕ → ℕ → ℕ → ℕ → ℕ
countvalid_cb idx iosidx val n =
    if not (val == breplst_valid) then n else if iosidx_in iosidx idx then n else n + 1

abbrev pub empty_tract : Tract
empty_tract = brepls_init none

-- The count that both loops of `mds_repl_delrq` start with.
unfoldable pub count_valid : ℕ → List ℕ → Bmap → Option (Bmap × ℕ)
count_valid nr idx b =
    Option.map (λ r. (r.0, r.2))
      (walk nr b (some empty_tract) none false false [] (countvalid_cb idx) 0)

abbrev pub del_tract : Tract
del_tract =
    arr_set
      (arr_set (arr_set (brepls_init none) breplst_repl_queued (some breplst_garbage))
        breplst_repl_sched (some breplst_garbage))
      breplst_valid (some breplst_garbage)

abbrev pub f_log : ℕ
f_log = 1

abbrev pub f_report : ℕ
f_report = 2

abbrev pub f_already : ℕ
f_already = 4

abbrev pub del_retif : Retif
del_retif =
    arr_set
      (arr_set
        (arr_set
          (arr_set (arr_set (brepls_init 0) breplst_garbage f_report) breplst_garbage_sched
            f_report)
          breplst_repl_queued f_log)
        breplst_repl_sched f_log)
      breplst_valid f_log

abbrev pub del_retif_all : Retif
del_retif_all =
    arr_set (arr_set (arr_set (brepls_init 0) breplst_valid 1) breplst_repl_queued 1)
      breplst_repl_sched 1

-- `mds_bmap_write_logrepls`, whose return code is not looked at.
abbrev pub write_logrepls : ℕ → WriteOutcome → Bmap → Option Bmap
write_logrepls nr out b = Option.map (λ r. r.0) (bmap_write nr true out b)

-- A bit of an `int` return value.
abbrev pub has_log : ℕ → Bool
has_log rc = rc % 2 == 1

abbrev pub has_report : ℕ → Bool
has_report rc = rc / 2 % 2 == 1

abbrev pub has_already : ℕ → Bool
has_already rc = rc / 4 % 2 == 1

-- The part of `mds_repl_delrq` on the one bmap that is asked for.
unfoldable pub del_one : ℕ → WriteOutcome → List ℕ → Bmap → Option (Bmap × Rc)
del_one nr out idx b = elim (count_valid nr idx b) [
  | none ↦ none
  | some (b1, n) ↦
      if n == 0
      then some (repl_bmap_rel b1, fail slerr_lastrepl)
      else elim (bmap_walk nr b1 (some del_tract) (some del_retif) false idx) [
        | none ↦ none
        | some (b2, rc) ↦
            if has_log rc
            then Option.map (λ b3. (repl_bmap_rel b3, done 0)) (write_logrepls nr out b2)
            else if has_report rc
            then some (repl_bmap_rel b2, fail einval)
            else some (repl_bmap_rel b2, fail slerr_repl_not_act)
      ]
]

-- What the loop over all bmaps makes of one: the bmap, whether it was changed, and whether no replica
-- would have been left.
unfoldable pub del_each : ℕ → WriteOutcome → List ℕ → Bmap → Option (Bmap × Bool × Bool)
del_each nr out idx b = elim (count_valid nr idx b) [
  | none ↦ none
  | some (b1, n) ↦
      if n == 0
      then some (repl_bmap_rel b1, false, true)
      else elim (bmap_walk nr b1 (some del_tract) (some del_retif_all) false idx) [
        | none ↦ none
        | some (b2, rc) ↦
            if rc == 0
            then some (repl_bmap_rel b2, false, false)
            else Option.map (λ b3. (repl_bmap_rel b3, true, false)) (write_logrepls nr out b2)
      ]
]

-- That loop: the bmaps, the return code and the count of those with no replica left.
unfoldable pub del_all : Site → ℕ → List ℕ → ℕ → (ℕ → Bmap) → Option ((ℕ → Bmap) × Rc × ℕ)
del_all e nr idx zero bmaps = some (bmaps, fail slerr_repl_not_act, 0)
del_all e nr idx (suc n) bmaps = elim (del_all e nr idx n bmaps) [
  | none ↦ none
  | some (bs, rc, invalid) ↦ elim (e.bmap_get n) [
    | some err ↦ some (bs, rc, invalid)
    | none ↦ elim (del_each nr e.out idx (bs n)) [
      | none ↦ none
      | some (b, changed, last) ↦ some (
        arr_set bs n b,
        (if changed then done 0 else rc),
        (if last then invalid + 1 else invalid),
      )
    ]
  ]
]

-- The two cases of `mds_repl_delrq` behind the lookup of the replicas.
unfoldable pub del_file : Site → Option ℕ → List ℕ → File → Option (File × Rc)
del_file e none idx f = elim (del_all e f.inoh.nrepls idx (nvalidbmaps f) f.bmaps) [
  | none ↦ none
  | some (bs, rc, invalid) ↦
      some (record f { bmaps = bs }, if invalid == nvalidbmaps f then fail slerr_lastrepl else rc)
]
del_file e (some bmapno) idx f =
    if not (bmap_exists f bmapno)
    then some (f, fail slerr_bmap_invalid)
    else elim (e.bmap_get bmapno) [
      | some err ↦ some (f, fail err)
      | none ↦
          Option.map (λ r. (record f { bmaps = arr_set f.bmaps bmapno r.0 }, r.1))
            (del_one f.inoh.nrepls e.out idx (f.bmaps bmapno))
    ]

-- The lookup, and what follows it unless the file is a directory.
abbrev pub after_iosv : (List ℕ → File → Option (File × Rc)) → File → Indices → Option (File × Rc)
after_iosv next f none = none
after_iosv next f (some (inl err, ih)) = some (record f { inoh = ih }, fail err)
after_iosv next f (some (inr idx, ih)) =
    let f1 = record f { inoh = ih } in if f.isdir then some (f1, done 0) else next idx f1

-- `mds_repl_delrq` for a file that was found; a bmap number of -1 is `none`.
unfoldable pub delrq : Site → Option ℕ → List ℕ → File → Option (File × Rc)
delrq e bmapno iosv f =
    if length iosv == 0 || ltb sl_max_replicas (length iosv)
    then some (f, fail einval)
    else after_iosv (del_file e bmapno) f
        (iosv_lookup e.inox e.isfs (if f.isdir then del else plain) iosv f.inoh)

abbrev pub add_tract : Tract
add_tract =
    arr_set
      (arr_set
        (arr_set (arr_set (brepls_init none) breplst_invalid (some breplst_repl_queued))
          breplst_repl_sched (some breplst_repl_queued))
        breplst_garbage (some breplst_repl_queued))
      breplst_garbage_sched (some breplst_repl_queued)

abbrev pub retifzero : Retif
retifzero = arr_set (brepls_init 0) breplst_valid 1

-- F_LOG | F_REPORT is 3.
abbrev pub add_retif_all : Retif
add_retif_all =
    arr_set
      (arr_set
        (arr_set (arr_set (arr_set (brepls_init 0) breplst_invalid 3) breplst_repl_sched f_log)
          breplst_valid f_report)
        breplst_garbage 3)
      breplst_garbage_sched 3

abbrev pub ret_if_inact : Retif
ret_if_inact = arr_set (brepls_init 1) breplst_valid 0

abbrev pub add_retif : Retif
add_retif =
    arr_set
      (arr_set
        (arr_set
          (arr_set
            (arr_set (arr_set (brepls_init 0) breplst_invalid f_log) breplst_repl_sched f_log)
            breplst_repl_queued f_already)
          breplst_valid f_already)
        breplst_garbage f_log)
      breplst_garbage_sched f_log

-- The priorities of a request; `none` is -1.
pub record Prios : Type 0 where
  pub sys : Option ℕ
  pub usr : Option ℕ

abbrev pub with_prios : Prios → Bmap → Bmap
with_prios p b = record b { sys_prio = p.sys; usr_prio = p.usr }

abbrev pub given : Prios → Bool
given p = elim p.sys [ some x ↦ true | none ↦ elim p.usr [ some x ↦ true | none ↦ false ] ]

-- `upd_init`, or, for one bmap that has been set up, the wait until it is free.
abbrev pub start_upd : Bmap → Bmap
start_upd b = if b.upd then b else record b { upd = true; upd_busy = true }

abbrev pub upd_write_given : Site → Inoh → Prios → Bmap → Bmap
upd_write_given e ih p b =
    if given p then repl_upd_write ih.nrepls (repl_at ih) e.res false b else b

-- The part of `mds_repl_addrq` on the one bmap that is asked for. One with no valid replica is left
-- alone: SLERR_BMAP_ZERO becomes 0 at the end.
unfoldable pub add_one : Site → Inoh → Prios → List ℕ → Bmap → Option (Bmap × Rc)
add_one e ih p idx b = elim (bmap_walk_all ih.nrepls b none (some retifzero) true) [
  | none ↦ none
  | some (b1, v) ↦
      if v == 0
      then some (b1, done 0)
      else elim (bmap_walk ih.nrepls b1 (some add_tract) (some add_retif) false idx) [
        | none ↦ none
        | some (b2, rc) ↦
            if has_log rc
            then Option.map (λ b3. (repl_bmap_rel (record b3 { upd_busy = false }), done 0))
                (write_logrepls ih.nrepls e.out
                  (record (with_prios p b2) { upd = true; upd_busy = true }))
            else some (
              repl_bmap_rel (upd_write_given e ih p (with_prios p b2)),
              if has_already rc then fail e.already else fail slerr_repl_not_act,
            )
      ]
]

-- What the loop over all bmaps makes of one, with `repl_some_act` and `repl_all_act`.
unfoldable pub add_each :
    Site → Inoh → Prios → List ℕ → Bool → Bool → Bmap → Option (Bmap × Bool × Bool)
add_each e ih p idx some_act all_act b =
    elim (bmap_walk_all ih.nrepls b none (some retifzero) true) [
      | none ↦ none
      | some (b1, v) ↦
          if v == 0
          then some (b1, some_act, all_act)
          else elim (bmap_walk ih.nrepls b1 (some add_tract) (some add_retif_all) false idx) [
            | none ↦ none
            | some (b2, i) ↦
                elim (if all_act
                  then bmap_walk ih.nrepls b2 none (some ret_if_inact) true idx
                  else some (b2, 0)) [
                    | none ↦ none
                    | some (b3, inact) ↦
                        Option.map
                          (λ b4.
                            (repl_bmap_rel b4, some_act || has_report i, all_act && inact == 0))
                          (if has_log i
                            then write_logrepls ih.nrepls e.out (start_upd (with_prios p b3))
                            else some (upd_write_given e ih p (with_prios p b3)))
                  ]
          ]
    ]

unfoldable pub add_all :
    Site → Inoh → Prios → List ℕ → ℕ → (ℕ → Bmap) → Option ((ℕ → Bmap) × Bool × Bool)
add_all e ih p idx zero bmaps = some (bmaps, false, true)
add_all e ih p idx (suc n) bmaps = elim (add_all e ih p idx n bmaps) [
  | none ↦ none
  | some (bs, some_act, all_act) ↦ elim (e.bmap_get n) [
    | some err ↦ some (bs, some_act, all_act)
    | none ↦ elim (add_each e ih p idx some_act all_act (bs n)) [
      | none ↦ none
      | some (b, some_act', all_act') ↦ some (arr_set bs n b, some_act', all_act')
    ]
  ]
]

unfoldable pub add_file : Site → Option ℕ → Prios → List ℕ → File → Option (File × Rc)
add_file e none p idx f = elim (add_all e f.inoh p idx (nvalidbmaps f) f.bmaps) [
  | none ↦ none
  | some (bs, some_act, all_act) ↦ some (
    record f { bmaps = bs },
    if nvalidbmaps f == 0
        then done 0
        else if not some_act
        then fail e.already
        else if all_act
        then fail slerr_repl_already_act
        else done 0,
  )
]
add_file e (some bmapno) p idx f =
    if not (bmap_exists f bmapno)
    then some (f, fail slerr_bmap_invalid)
    else elim (e.bmap_get bmapno) [
      | some err ↦ some (f, fail err)
      | none ↦
          Option.map (λ r. (record f { bmaps = arr_set f.bmaps bmapno r.0 }, r.1))
            (add_one e f.inoh p idx (f.bmaps bmapno))
    ]

-- `mds_repl_addrq` for a file that was found.
unfoldable pub addrq : Site → Option ℕ → List ℕ → Prios → File → Option (File × Rc)
addrq e bmapno iosv p f =
    if length iosv == 0 || ltb sl_max_replicas (length iosv)
    then some (f, fail einval)
    else if not f.isdir && not f.isreg
    then some (f, fail eopnotsupp)
    else after_iosv (λ idx. add_file e bmapno p idx) f (iosv_lookup e.inox e.isfs add iosv f.inoh)
