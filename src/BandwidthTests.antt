-- ===== src/BandwidthTests.antt =====
-- The theorems on bandwidth at small concrete states.
use slash.Prelude.{ℕ, ◌≡◌, refl, [], ◌∷◌, some, Bool, true, arith}
use slash.Prelude.Ints.{pos, neg}
use slash.Bandwidth.{Ios, resmpair_bw_adj, pair_has_bw, has_bw, howmany_units}
use slash.Bandwidth.Adjust.{reserved, reserve_lem}
use slash.Bandwidth.Ledger.{Reserved, Promised, Reach, start, step_on, reserve, pick}
use slash.Bandwidth.Reach.{IsFresh, release-Reach}
use slash.SchedTests.{ios}

-- One reservation of a page from server 10 to server 30.
abbrev page : Reserved
page = record { src = 10; dst = 30; amt = 4096 }

abbrev before : Promised
before = record { ios = ios; held = [] }

abbrev after : Promised
after = record { ios = reserved ios 10 30 (howmany_units 4096); held = page ∷ [] }

reserve_run :
    resmpair_bw_adj ios 10 30 (pos 4096)
    ≡ some (reserved ios 10 30 (howmany_units 4096), true, true)
unfolding pair_has_bw has_bw howmany_units
reserve_run = reserve_lem ios 10 30 4096

fresh : IsFresh before
fresh = record {
  nothing = refl;
  zero_assigned = λ i. (refl, refl, refl);
  zero_inflight = λ i. (refl, refl, refl);
}

reached : Reach before after
reached = step_on before after start (
    reserve before (reserved ios 10 30 (howmany_units 4096)) true page (omega arith) (omega arith)
      reserve_run)

picked : pick (page ∷ []) 0 ≡ some (page, [])
unfolding pick
picked = refl

release-Reach_example :
    (ios' : ℕ → Ios) × (more : Bool) × (resmpair_bw_adj after.ios 10 30 (neg 4096)
      ≡ some (ios', true, more))
release-Reach_example = release-Reach before after 0 page [] fresh reached (omega arith) picked
