-- ===== src/RicTests.antt =====
-- The theorems on requests of clients to the I/O server at small concrete states.
use slash.Prelude.{ℕ, ◌+◌, ◌≡◌, refl, [], ◌∷◌, Option, none, some, true, false, arith}
use slash.Errors.{done}
use slash.Slvr.{
  slvr_lookup, slvr_io_prep, slvr_io_done, slvr_rio_done, rio_unlock, unpinned, slvr_tryunpin,
  lc_remove,
}
use slash.Slvr.Users.{Sys, Steps}
use slash.Slvr.Fits.{view}
use slash.SlvrTests.{empty}
use slash.Ric.{
  IoSite, IoReq, Served, moved, failed, pieces_of, split_io, in_range, handle_io, serve_io,
  prep_each, done_each, transfer,
}
use slash.Ric.Pieces.{Covers, pieces_of-Covers, in_range-wraps}
use slash.Ric.Serve.{handle_io-Steps}
use slash.Ric.Failed.{kept, handle_io-writes}

-- The last 100 bytes of sliver 0 and the first 200 of sliver 1.
pieces_of-Covers_example :
    Covers 1048476 (pieces_of 1048476 300).0 (1048476 + 300) × ((pieces_of 1048476 300).1 ≡ 0)
pieces_of-Covers_example = pieces_of-Covers 1048476 300 (omega arith) (omega arith) (omega arith)

in_range-wraps_example : (in_range 4294967295 4096 ≡ true) × (◌≡◌ {A = ℕ} 4095 4095)
in_range-wraps_example = in_range-wraps 4294967295 4096 (omega arith) (omega arith) (omega arith)

abbrev site : IoSite
site = record {
  lnet_mtu = 1048576;
  keyexpired = 500;
  ios_id = 3;
  curseq = 10;
  bench_rc = done 0;
  fcmh_rc = done 0;
  bmap_rc = done 0;
  bulk_rc = 0;
  backfile = true;
  reads = λ i. moved 1048576;
  writes = λ i. moved 1048576;
  base = 0;
  now = 70;
}

abbrev request : IoReq
request = record { write = false; bench = false; size = 300; offset = 1048476; ios = 3; seq = 12 }

-- What a request that returns comes to.
abbrev outcome : Option Served → Served
outcome (some v) = v
outcome none = record { cache = empty.cache; ahead = []; rc = done 0; reply = done 0 }

abbrev served : Served
served = outcome (handle_io site request [] empty.cache)

served_lem : handle_io site request [] empty.cache ≡ some served
unfolding handle_io serve_io prep_each done_each transfer split_io slvr_lookup slvr_io_prep
    slvr_io_done slvr_rio_done rio_unlock unpinned slvr_tryunpin lc_remove
served_lem = refl

handle_io-Steps_example :
    (w : Sys) × Steps empty w
    × (w.cache ≡ served.cache)
    × ((k : ℕ) → view w k ≡ view (record empty { cache = served.cache }) k)
handle_io-Steps_example = handle_io-Steps site request [] empty served served_lem

-- The request returns no error and asks for a read ahead.
served_rc : (served.rc ≡ done 0) × (served.ahead ≡ (1048776, 300) ∷ [])
unfolding handle_io serve_io prep_each done_each transfer split_io slvr_lookup slvr_io_prep
    slvr_io_done slvr_rio_done rio_unlock unpinned slvr_tryunpin lc_remove
served_rc = (refl, refl)

handle_io-writes_example :
    kept (
      handle_io
        (record site { writes = λ i. failed 5 })
        (record request { write = true })
        []
        empty.cache)
    ≡ kept (
        handle_io
          (record site { writes = λ i. moved 9 })
          (record request { write = true })
          []
          empty.cache)
handle_io-writes_example =
    handle_io-writes site (λ i. failed 5) (λ i. moved 9) (record request { write = true }) []
      empty.cache refl (omega arith) (omega arith)
