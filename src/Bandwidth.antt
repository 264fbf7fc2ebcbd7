-- ===== src/Bandwidth.antt =====
-- slashd/repl_mds.c `resmpair_bw_adj`, slashd/slashd.h `struct bw_dir` and `struct rpmi_ios`, and the
-- report of an I/O server in slashd/rpc_mds.c: what the metadata server has promised each I/O server,
-- and `upschq_resm` of slashd/up_sched_res.c, which asks once for more work of a server.
-- The wake-ups are left out, and the locks are taken as held.
pub mod Adjust
pub mod Ledger
pub mod Reach
pub mod RoundTrip
use slash.Prelude.{
  ℕ, suc, ◌+◌, ◌-◌, ◌/◌, List, Option, none, some, Bool, true, false, ◌&&◌, ◌||◌, ltb, leb,
  if◌then◌else◌,
}
use slash.Prelude.Ints.{ℤ, pos, negsuc}
use slash.Residency.{arr_set}

-- `struct bw_dir`, 32-bit counters with a sign. What is assigned is asserted not to fall below 0, as it
-- does when it wraps; what is on its way stays far below (`Reach-IsBounded`), and a report is a number.
pub record Bw : Type 0 where
  pub queued : ℕ
  pub inflight : ℕ
  pub assigned : ℕ

-- The part of `struct rpmi_ios` that is used here: `paging` and `notsup` are SIF_UPSCH_PAGING and
-- SIF_PRECLAIM_NOTSUP, `pageins` counts the pagein updates that were queued for the server, and
-- `upschq` lists the updates that wait for it (`rpmi_upschq`), by bmap number.
pub record Ios : Type 0 where
  pub ingress : Bw
  pub egress : Bw
  pub aggr : Bw
  pub paging : Bool
  pub notsup : Bool
  pub pageins : ℕ
  pub upschq : List ℕ

abbrev pub bw_unitsz : ℕ
bw_unitsz = 4096

abbrev pub bwqueuesz : ℕ
bwqueuesz = 262144

-- `howmany(n, BW_UNITSZ)`, and the amount in units with its sign.
unfoldable pub howmany_units : ℕ → ℕ
howmany_units n = (n + (bw_unitsz - 1)) / bw_unitsz

unfoldable pub units : ℤ → ℤ
units (pos n) = pos (howmany_units n)
units (negsuc n) = negsuc (howmany_units (suc n) - 1)

-- HAS_BW, which does not look at the amount.
unfoldable pub has_bw : Bw → Bool
has_bw w = ltb (w.queued + w.inflight) bwqueuesz

-- One more than the greatest number that such a counter holds.
abbrev pub int_end : ℕ
int_end = 2147483648

-- ADJ_BW: `none` is the failed assertion, on a release of too much and on a sum that wraps.
unfoldable pub adj_bw : ℤ → Bw → Option Bw
adj_bw (pos n) w =
    if ltb (w.assigned + n) int_end
    then some (record w { inflight = w.inflight + n; assigned = w.assigned + n })
    else none
adj_bw (negsuc n) w =
    if leb (suc n) w.assigned then some (record w { assigned = w.assigned - suc n }) else none

-- The adjustments of the source, and of the destination.
unfoldable pub adj_src : ℤ → Ios → Option Ios
adj_src amt x = elim (adj_bw amt x.egress) [
  | none ↦ none
  | some e ↦ elim (adj_bw amt x.aggr) [
    | none ↦ none
    | some a ↦ some (record x { egress = e; aggr = a })
  ]
]

unfoldable pub adj_dst : ℤ → Ios → Option Ios
adj_dst amt x = elim (adj_bw amt x.ingress) [
  | none ↦ none
  | some i ↦ elim (adj_bw amt x.aggr) [
    | none ↦ none
    | some a ↦ some (record x { ingress = i; aggr = a })
  ]
]

unfoldable pub is_neg : ℤ → Bool
is_neg (pos n) = false
is_neg (negsuc n) = true

-- The four tests of a pair.
unfoldable pub pair_has_bw : (ℕ → Ios) → ℕ → ℕ → Bool
pair_has_bw ios src dst =
    has_bw (ios src).egress
    && (has_bw (ios src).aggr && (has_bw (ios dst).ingress && has_bw (ios dst).aggr))

-- `resmpair_bw_adj` on the servers by number: the servers, the return code and `moreavail`.
unfoldable pub resmpair_bw_adj : (ℕ → Ios) → ℕ → ℕ → ℤ → Option ((ℕ → Ios) × Bool × Bool)
resmpair_bw_adj ios src dst bytes =
    let amt = units bytes in
    if is_neg amt || pair_has_bw ios src dst
    then elim (adj_src amt (ios src)) [
      | none ↦ none
      | some s ↦
          let ios1 = arr_set ios src s in
          elim (adj_dst amt (ios1 dst)) [
            | none ↦ none
            | some d ↦ let ios2 = arr_set ios1 dst d in some (ios2, true, pair_has_bw ios2 src dst)
          ]
    ]
    else some (ios, false, false)

-- What an I/O server reports as queued, which replaces what was thought to be on its way.
pub record BwQueued : Type 0 where
  pub sbq_ingress : ℕ
  pub sbq_egress : ℕ
  pub sbq_aggr : ℕ

abbrev reported : ℕ → Bw → Bw
reported q w = record w { queued = q; inflight = 0 }

unfoldable pub unpack_statfs : BwQueued → Ios → Ios
unpack_statfs r x = record x {
  ingress = reported r.sbq_ingress x.ingress;
  egress = reported r.sbq_egress x.egress;
  aggr = reported r.sbq_aggr x.aggr;
}

-- `upschq_resm(m, UPDT_PAGEIN)` for a server: nothing if a pagein is under way.
unfoldable pub upschq_resm : Ios → Ios
upschq_resm x = if x.paging then x else record x { paging = true; pageins = x.pageins + 1 }

-- `upd_proc_pagein` starts by clearing the mark.
unfoldable pub pagein_start : Ios → Ios
pagein_start x = record x { paging = false }
