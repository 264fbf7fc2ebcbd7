-- ===== src/Leases.antt =====
-- slashd/mds.c: the leases on a bmap. The list `bmi_leases` has one lease per client, the head of the
-- client's chain; here it is the list of the chains, each with its head first.
-- A lease is the value of its fields, which stands in its chain once it is linked; `put` writes
-- changed fields there. A wait for BMAPF_IOSASSIGNED is taken as over, and spin locks are left out.
-- `none` stands for a failed `psc_assert` or a `psc_fatalx`.
pub mod Sums
pub mod Counts
use slash.Prelude.{
  ℕ, zero, suc, ◌+◌, ◌-◌, List, [], ◌∷◌, ◌++◌, map, Option, none, some, Bool, true, false, not,
  ◌&&◌, ◌||◌, ◌==◌, ltb, if◌then◌else◌,
}
use slash.BmapMds.{Bmap}
use slash.Errors.{Rc, done, fail, slerr_bmap_diowait}
use slash.Inode.{Inoh}
use slash.Lease.{Client, same_client, Lease, Bia}

-- What is journaled of an assignment: the replicas of the inode if they changed, the table of the
-- bmap, the item, and its slot; or that the slot is free.
pub data AssignEntry : Type 0 where
  assigned : Option (List ℕ) → List ℕ → Bia → ℕ → AssignEntry
  freed : ℕ → AssignEntry

-- `struct bmap` with `struct bmap_mds_info`, and the inode handle of the file. `assign` is the slot of
-- the on-disk table with the item in it, `opcnt` counts BMAP_OPCNT_LEASE, `reqs` the leases that
-- `mdscoh_req` was called for. `bmi_wr_ion` is the ID of the resource; its reference count is left
-- out.
pub record LeasedBmap : Type 0 where
  pub leases : List (List Lease)
  pub writers : ℕ
  pub readers : ℕ
  pub dio : Bool
  pub diocb : Bool
  pub noion : Bool
  pub iosassigned : Bool
  pub wr_ion : Option ℕ
  pub assign : Option (ℕ × Bia)
  pub seq : ℕ
  pub opcnt : ℕ
  pub fid : ℕ
  pub bmapno : ℕ
  pub inoh : Inoh
  pub table : Bmap
  pub reqs : List ℕ
  pub entries : List AssignEntry

-- Whether a chain is that of the client, by its head.
unfoldable pub is_chain_of : Client → List Lease → Bool
is_chain_of c [] = false
is_chain_of c (l ∷ ls) = same_client l.client c

-- A change of the chain of a client.
unfoldable pub update_chain :
    Client → (List Lease → List Lease) → List (List Lease) → List (List Lease)
update_chain c f [] = []
update_chain c f (ch ∷ chs) = (if is_chain_of c ch then f ch else ch) ∷ update_chain c f chs

unfoldable pub replace : Lease → List Lease → List Lease
replace l [] = []
replace l (x ∷ xs) = (if x.ptr == l.ptr then l else x) ∷ replace l xs

abbrev pub put : Lease → LeasedBmap → LeasedBmap
put l b = record b { leases = update_chain l.client (replace l) b.leases }

-- The loop body of `mds_bmap_directio` on one lease: the lease, whether it is another client's,
-- whether that one has to be called back, and whether it has not been yet.
abbrev pub other_lease : Client → Lease → Bool
other_lease c l = not (same_client l.client c)

abbrev pub awaited : Client → Lease → Bool
awaited c l = other_lease c l && not l.dio

unfoldable pub any_lease : (Lease → Bool) → List Lease → Bool
any_lease p [] = false
any_lease p (l ∷ ls) = p l || any_lease p ls

unfoldable pub any_chain : (Lease → Bool) → List (List Lease) → Bool
any_chain p [] = false
any_chain p (ch ∷ chs) = any_lease p ch || any_chain p chs

unfoldable pub call_back : Client → List Lease → List Lease
call_back c [] = []
call_back c (l ∷ ls) = (if awaited c l then record l { diocb = true } else l) ∷ call_back c ls

unfoldable pub call_back_all : Client → List (List Lease) → List (List Lease)
call_back_all c [] = []
call_back_all c (ch ∷ chs) = call_back c ch ∷ call_back_all c chs

unfoldable pub called_in : Client → List Lease → List ℕ
called_in c [] = []
called_in c (l ∷ ls) = if awaited c l && not l.diocb then l.ptr ∷ called_in c ls else called_in c ls

unfoldable pub called : Client → List (List Lease) → List ℕ
called c [] = []
called c (ch ∷ chs) = called_in c ch ++ called c chs

abbrev is_empty : List ℕ → Bool
is_empty [] = true
is_empty (x ∷ xs) = false

-- `mds_bmap_directio`; `rw` is true for SL_WRITE.
unfoldable pub directio : Bool → Bool → Client → LeasedBmap → LeasedBmap × Rc
directio rw want_dio c b =
    if b.dio
    then (b, done 0)
    else let want = want_dio || b.diocb in
      let check = want || not (b.writers == 0) || (rw && not (b.readers == 0)) in
      let force = check && any_chain (other_lease c) b.leases in
      let wait = check && any_chain (awaited c) b.leases in
      if wait
      then (
        record b {
          leases = call_back_all c b.leases;
          diocb = b.diocb || not (is_empty (called c b.leases));
          reqs = called c b.leases ++ b.reqs;
        },
        fail slerr_bmap_diowait,
      )
      else if want || force
      then (record b { dio = true; diocb = false }, done 0)
      else (b, done 0)

-- The counts that `mds_bmap_dupls_find` makes along a chain.
unfoldable pub count_reads : List Lease → ℕ
count_reads [] = 0
count_reads (l ∷ ls) = if l.read then count_reads ls + 1 else count_reads ls

unfoldable pub count_writes : List Lease → ℕ
count_writes [] = 0
count_writes (l ∷ ls) = if l.read then count_writes ls else count_writes ls + 1

-- The chains of a client.
unfoldable pub chains_of : Client → List (List Lease) → List (List Lease)
chains_of c [] = []
chains_of c (ch ∷ chs) = if is_chain_of c ch then ch ∷ chains_of c chs else chains_of c chs

-- What `mds_bmap_dupls_find` returns: the chain that the lease heads, `[]` for NULL, and the numbers of
-- write and of read leases.
pub record Dupls : Type 0 where
  pub found : List Lease
  pub wlease : ℕ
  pub rlease : ℕ

abbrev pub dupls_of : List Lease → Dupls
dupls_of ch = record { found = ch; wlease = count_writes ch; rlease = count_reads ch }

abbrev pub dupls_in : List (List Lease) → Option Dupls
dupls_in [] = some (dupls_of [])
dupls_in (ch ∷ []) = some (dupls_of ch)
dupls_in (ch ∷ (ch' ∷ chs)) = none

unfoldable pub dupls_find : Client → LeasedBmap → Option Dupls
dupls_find c b = dupls_in (chains_of c b.leases)

-- The part of `mds_bmap_bml_add` that links the lease.
abbrev pub link_at : List Lease → Lease → List (List Lease) → List (List Lease)
link_at [] l chs = chs ++ (((record l { bmi = true }) ∷ []) ∷ [])
link_at (o ∷ os) l chs =
    update_chain l.client (λ ch. ch ++ (record l { chain = true; bmi = true } ∷ [])) chs

-- The counters of `mds_bmap_bml_add`.
unfoldable pub count_in : Bool → Dupls → LeasedBmap → LeasedBmap
count_in true d b =
    if d.wlease == 0
    then record b {
      writers = b.writers + 1;
      readers = if d.rlease == 0 then b.readers else b.readers - 1;
    }
    else b
count_in false d b =
    if d.wlease == 0 && d.rlease == 0 then record b { readers = b.readers + 1 } else b

-- A chain less the lease at an address; its next one is the new head.
unfoldable pub unchain : ℕ → List Lease → List Lease
unchain p [] = []
unchain p (x ∷ xs) = if x.ptr == p then xs else x ∷ unchain p xs

unfoldable pub in_chain : ℕ → List Lease → Bool
in_chain p [] = false
in_chain p (x ∷ xs) = x.ptr == p || in_chain p xs

unfoldable pub drop_chain : Client → List (List Lease) → List (List Lease)
drop_chain c [] = []
drop_chain c (ch ∷ chs) = if is_chain_of c ch then chs else ch ∷ drop_chain c chs

abbrev pub as_head : List Lease → List (List Lease)
as_head [] = []
as_head (x ∷ xs) = (record x { chain = false } ∷ xs) ∷ []

-- The list after the lease is unlinked, with the asserts on the way.
unfoldable pub unlink_lease : Lease → List Lease → List (List Lease) → Option (List (List Lease))
unlink_lease l [] chs = none
unlink_lease l (o ∷ os) chs =
    if o.chain || not (in_chain l.ptr (o ∷ os))
    then none
    else if l.chain
    then some (update_chain l.client (unchain l.ptr) chs)
    else if o.ptr == l.ptr
    then some (drop_chain l.client chs ++ as_head os)
    else none

-- The counters of `mds_bmap_bml_del_locked`.
unfoldable pub count_out : Lease → Dupls → LeasedBmap → Option LeasedBmap
count_out l d b =
    if l.write
    then (if d.wlease == 1
        then (if b.writers == 0
            then none
            else some (record b {
              writers = b.writers - 1;
              readers = if d.rlease == 0 then b.readers else b.readers + 1;
            }))
        else some b)
    else if not l.read
    then none
    else if d.wlease == 0 && d.rlease == 1
    then (if b.readers == 0 then none else some (record b { readers = b.readers - 1 }))
    else some b

-- `mds_bmap_bml_del_locked`
unfoldable pub bml_del : Lease → LeasedBmap → Option LeasedBmap
bml_del l b = elim (dupls_find l.client b) [
  | none ↦ none
  | some d ↦ elim (unlink_lease l d.found b.leases) [
    | none ↦ none
    | some chs ↦ count_out l d (record b { leases = chs })
  ]
]

-- `mds_bmap_getbml` on one chain, and on the list: it stops at the first lease with the number, and
-- takes a reference unless that one is being freed.
unfoldable pub seq_in : ℕ → List Lease → Option Lease
seq_in seq [] = none
seq_in seq (l ∷ ls) = if l.seq == seq then some l else seq_in seq ls

unfoldable pub find_seq : Client → ℕ → List (List Lease) → Option Lease
find_seq c seq [] = none
find_seq c seq (ch ∷ chs) =
    if is_chain_of c ch
    then elim (seq_in seq ch) [ some l ↦ some l | none ↦ find_seq c seq chs ]
    else find_seq c seq chs

unfoldable pub getbml : ℕ → Client → LeasedBmap → LeasedBmap × Option Lease
getbml seq c b = elim (find_seq c seq b.leases) [
  | none ↦ (b, none)
  | some l ↦
      if l.freeing
      then (b, none)
      else let l' = record l { refcnt = l.refcnt + 1 } in (put l' b, some l')
]
