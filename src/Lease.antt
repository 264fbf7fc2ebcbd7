-- ===== src/Lease.antt =====
-- slashd/bmap_mds.h: `struct bmap_mds_lease` and the flags BML_*, and `struct bmap_ios_assign`.
use slash.Prelude.{ℕ, Bool, ◌&&◌, ◌==◌}

-- `lnet_process_id_t`
pub record Client : Type 0 where
  pub nid : ℕ
  pub pid : ℕ

abbrev pub same_client : Client → Client → Bool
same_client c d = c.nid == d.nid && c.pid == d.pid

-- A lease. `ptr` is its address; the fields from `read` on are the flags. The start time, the
-- export and the lock are left out.
pub record Lease : Type 0 where
  pub ptr : ℕ
  pub client : Client
  pub seq : ℕ
  pub ios : ℕ
  pub refcnt : ℕ
  pub expire : ℕ
  pub read : Bool
  pub write : Bool
  pub dio : Bool
  pub diocb : Bool
  pub timeoq : Bool
  pub bmi : Bool
  pub recover : Bool
  pub chain : Bool
  pub freeing : Bool
  pub assfail : Bool
  pub recoverfail : Bool

-- `struct bmap_ios_assign`, the item of the on-disk table that a write lease has. The times are left
-- out.
pub record Bia : Type 0 where
  pub ios : ℕ
  pub lastcli : Client
  pub fid : ℕ
  pub seq : ℕ
  pub bmapno : ℕ
  pub dio : Bool
