-- ===== src/Bcr.antt =====
-- sliod/slvr_worker.c: the updates of checksums that the I/O server collects for each bmap, the end of
-- `slislvrthr_proc`, and the thread that sends them, `slicrudthr_main`, with its callback; `bcr_ready_add`
-- and `bcr_ready_remove` of sliod/bmap_iod.c. What the request carries besides and the references on
-- the bmap are left out. `none` stands for a failed `psc_assert`, or for a pointer to no update.
pub mod Pending
pub mod Adds
pub mod Send
use slash.Prelude.{
  ℕ, ◌+◌, ◌-◌, List, [], ◌∷◌, ◌++◌, Option, none, some, Bool, true, false, not, ◌&&◌, ◌||◌, ◌==◌,
  ltb, leb, length, if◌then◌else◌,
}
use slash.Residency.{arr_set}
use slash.SlvrCrc.{max_bmap_ncrc_updates}

-- MAX_BMAP_INODE_PAIRS
abbrev pub max_bmap_inode_pairs : ℕ
max_bmap_inode_pairs = 24

-- BCR_BATCH_AGE
abbrev pub bcr_batch_age : ℕ
bcr_batch_age = 12

-- `struct bcrcupd`: its address, its bmap, the slivers with their checksums, and its time.
pub record Bcr : Type 0 where
  pub ptr : ℕ
  pub bmap : ℕ
  pub crcs : List (ℕ × ℕ)
  pub age : ℕ

-- `bcr_ready`, `bii_bcr` and BMAPF_CRUD_INFLIGHT of each bmap, the number of requests under way, and the
-- address of the next update that is allocated.
pub record Bcrs : Type 0 where
  pub ready : List Bcr
  pub current : ℕ → Option ℕ
  pub inflight : ℕ → Bool
  pub ninfl : ℕ
  pub fresh : ℕ

-- The slot of a sliver in an update is reused, else one is added.
unfoldable pub set_slot : ℕ → ℕ → List (ℕ × ℕ) → List (ℕ × ℕ)
set_slot slot crc [] = (slot, crc) ∷ []
set_slot slot crc ((s, c) ∷ r) =
    let rest = set_slot slot crc r in if s == slot then (s, crc) ∷ r else (s, c) ∷ rest

-- The update at an address.
unfoldable pub find_bcr : ℕ → List Bcr → Option Bcr
find_bcr p [] = none
find_bcr p (x ∷ xs) = if x.ptr == p then some x else find_bcr p xs

unfoldable pub put_bcr : Bcr → List Bcr → List Bcr
put_bcr x [] = []
put_bcr x (z ∷ zs) = if z.ptr == x.ptr then x ∷ zs else z ∷ put_bcr x zs

-- The end of `slislvrthr_proc`, from BII_LOCK on.
unfoldable pub add_crc : ℕ → ℕ → ℕ → ℕ → Bcrs → Option Bcrs
add_crc b slot crc now y = elim (y.current b) [
  | none ↦
      let x : Bcr = record { ptr = y.fresh; bmap = b; crcs = (slot, crc) ∷ []; age = now } in
      some (record y {
        ready = y.ready ++ (x ∷ []);
        current = arr_set y.current b (some y.fresh);
        fresh = y.fresh + 1;
      })
  | some p ↦ elim (find_bcr p y.ready) [
    | none ↦ none
    | some x ↦
        let x1 = record x { crcs = set_slot slot crc x.crcs } in
        if not (x.bmap == b) || leb max_bmap_inode_pairs (length x.crcs)
        then none
        else some (record y {
          ready = put_bcr x1 y.ready;
          current =
              if length x1.crcs == max_bmap_inode_pairs
              then arr_set y.current b none
              else y.current;
        })
  ]
]

-- The scan of `slicrudthr_main`: the state and the updates that it takes for one request. `free` says
-- whose lock can be had. `none` stands for an update of no slivers.
unfoldable pub crud_scan : (ℕ → Bool) → ℕ → List Bcr → List Bcr → Bcrs → Option (Bcrs × List Bcr)
crud_scan free now [] a y = some (y, a)
crud_scan free now (x ∷ xs) a y =
    let skip = crud_scan free now xs a y in
    let y1 = record y {
      current = arr_set y.current x.bmap none;
      inflight = arr_set y.inflight x.bmap true;
    } in
    let a1 = a ++ (x ∷ []) in
    let took = crud_scan free now xs a1 y1 in
    if length x.crcs == 0
    then none
    else if not (free x.bmap) || y.inflight x.bmap
    then skip
    else if length x.crcs == max_bmap_inode_pairs || leb (x.age + bcr_batch_age) now
    then (if length a1 == max_bmap_ncrc_updates then some (y1, a1) else took)
    else skip

-- What becomes of the updates when the request could not be sent.
unfoldable pub unsent : List Bcr → Bcrs → Bcrs
unsent [] y = y
unsent (x ∷ xs) y = unsent xs (record y { inflight = arr_set y.inflight x.bmap false })

unfoldable pub bcr_ready_remove : ℕ → List Bcr → List Bcr
bcr_ready_remove p [] = []
bcr_ready_remove p (x ∷ xs) = if x.ptr == p then xs else x ∷ bcr_ready_remove p xs

-- The loop of `sli_rmi_bcrcupd_cb` over the updates of a request; `failed` is `rq_status`.
unfoldable pub bcrcupd_each : Bool → List Bcr → Bcrs → Option Bcrs
bcrcupd_each failed [] y = some y
bcrcupd_each failed (x ∷ xs) y =
    if not (y.inflight x.bmap)
    then none
    else bcrcupd_each failed xs (record y {
      inflight = arr_set y.inflight x.bmap false;
      ready = if failed then y.ready else bcr_ready_remove x.ptr y.ready;
    })

-- `sli_rmi_bcrcupd_cb`
unfoldable pub bcrcupd_cb : Bool → List Bcr → Bcrs → Option Bcrs
bcrcupd_cb failed a y = elim (bcrcupd_each failed a y) [
  | none ↦ none
  | some y1 ↦ some (record y1 { ninfl = y1.ninfl - 1 })
]
