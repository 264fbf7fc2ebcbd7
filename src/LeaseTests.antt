-- ===== src/LeaseTests.antt =====
-- The theorems on leases at small concrete states.
use slash.Prelude.{◌≡◌, refl, [], ◌∷◌, ◌++◌, none, some, true, false, not, replicate, arith}
use slash.BmapMds.{Bmap}
use slash.BmapTimeo.{Timeo}
use slash.BmapTimeo.Order.{IsTimeo, in_queue}
use slash.Errors.{done, fail, slerr_bmap_diowait}
use slash.Inode.{Inoh, block}
use slash.IosAssign.{Site, World, resm_select, scan, scan_repl, mem, first_online, loaded_inoh}
use slash.Lease.{Client, Lease}
use slash.LeaseOps.{bml_new}
use slash.Coh.{DioReq, CohWork, mdscoh_req, bmapdio_cb, releasebml}
use slash.Coh.Answer.{answered, awaits_only, releasebml-directio}
use slash.Leases.{
  LeasedBmap, dupls_of, dupls_find, chains_of, is_chain_of, count_reads, count_writes, unlink_lease,
  bml_del, drop_chain, in_chain, any_chain, directio, any_lease, call_back_all, call_back, called,
  called_in, find_seq, seq_in, update_chain, unchain,
}
use slash.Leases.Counts.{IsCounted, bml_del-IsCounted}
use slash.Leases.Sums.{sum_of, read_at}
use slash.ReplTable.{get_bmap_ios_stat}

abbrev alice : Client
alice = record { nid = 1; pid = 100 }

abbrev bob : Client
bob = record { nid = 2; pid = 100 }

-- A linked read lease and a linked write lease.
abbrev reader : Lease
reader = record (bml_new 10 alice false false 0) { bmi = true; timeoq = true; seq = 5 }

abbrev writer : Lease
writer = record (bml_new 11 bob true false 0) { bmi = true; timeoq = true; seq = 6 }

abbrev table : Bmap
table = record {
  repls = replicate 24 0;
  orepls = replicate 24 0;
  bgen = 0;
  replpol = 0;
  fcmh_busy = false;
  busy = false;
  wrlock = false;
  rdlock = false;
  replmodwr = false;
  sys_prio = none;
  usr_prio = none;
  upd = true;
  upd_busy = false;
  journal = [];
  work = 0;
  enqueued = 0;
  jobs = [];
}

abbrev inoh : Inoh
inoh = record { ino_repls = 7 ∷ (0 ∷ (0 ∷ (0 ∷ []))); extras = none; nrepls = 1; synced = 0 }

abbrev bmap : LeasedBmap
bmap = record {
  leases = (reader ∷ []) ∷ ((writer ∷ []) ∷ []);
  writers = 1;
  readers = 1;
  dio = false;
  diocb = false;
  noion = false;
  iosassigned = true;
  wr_ion = none;
  assign = none;
  seq = 0;
  opcnt = 2;
  fid = 50;
  bmapno = 0;
  inoh = inoh;
  table = table;
  reqs = [];
  entries = [];
}

bmap-IsCounted : IsCounted bmap
unfolding sum_of count_reads count_writes bml_new
bmap-IsCounted = record { writing = refl; reading = refl }

abbrev second : Lease
second = bml_new 12 alice true false 0

second_mode : second.read ≡ not true
unfolding bml_new
second_mode = refl

found_second : dupls_find second.client bmap ≡ some (dupls_of (reader ∷ []))
unfolding dupls_find chains_of is_chain_of bml_new
found_second = refl

unlinked : unlink_lease reader (reader ∷ []) bmap.leases ≡ some ((writer ∷ []) ∷ [])
unfolding unlink_lease drop_chain in_chain is_chain_of bml_new
unlinked = refl

found_reader : dupls_find reader.client bmap ≡ some (dupls_of (reader ∷ []))
unfolding dupls_find chains_of is_chain_of bml_new
found_reader = refl

reader_mode : reader.write ≡ not reader.read
unfolding bml_new
reader_mode = refl

reader_at : read_at reader.ptr (reader ∷ []) ≡ reader.read
unfolding read_at bml_new
reader_at = refl

bml_del-IsCounted_example : (b' : LeasedBmap) × (bml_del reader bmap ≡ some b') × IsCounted b'
bml_del-IsCounted_example =
    bml_del-IsCounted reader bmap (dupls_of (reader ∷ [])) ((writer ∷ []) ∷ []) bmap-IsCounted
      found_reader unlinked reader_mode reader_at

abbrev timeo : Timeo
timeo = record {
  maxseq = 6;
  minseq = 3;
  queue = record { ptr = 10; seq = 5 } ∷ (record { ptr = 11; seq = 6 } ∷ []);
  log = 98;
  journal = [];
}

timeo-IsTimeo : IsTimeo timeo
unfolding in_queue
timeo-IsTimeo = record { order = omega arith; once = (refl, (refl, tt)) }

queued_reader : in_queue reader.ptr timeo.queue ≡ reader.timeoq
unfolding in_queue bml_new
queued_reader = refl

abbrev site : Site
site = record {
  inox = block [];
  isfs = λ i. true;
  out = record { rc = 0; logged = true };
  resm = λ i. true;
  ioslist = λ p rs. rs ++ (p ∷ []);
  online = λ i. true;
  slot_for = none;
}

abbrev world : World
world = record { b = bmap; timeo = timeo; lease = writer }

selected : resm_select site (loaded_inoh site inoh) table.repls 9 [] ≡ some (some 9)
unfolding resm_select scan scan_repl first_online mem get_bmap_ios_stat
selected = refl

-- The reader's lease after the writer's next request called it back, and the bmap then.
abbrev called_reader : Lease
called_reader = record reader { diocb = true }

abbrev called_bmap : LeasedBmap
called_bmap = record bmap {
  leases = (called_reader ∷ []) ∷ ((writer ∷ []) ∷ []);
  diocb = true;
  reqs = 10 ∷ [];
}

calls_reader : directio true false bob bmap ≡ (called_bmap, fail slerr_bmap_diowait)
unfolding directio any_chain any_lease call_back_all call_back called called_in bml_new
calls_reader = refl

found_called :
    find_seq called_reader.client called_reader.seq called_bmap.leases ≡ some called_reader
unfolding find_seq seq_in is_chain_of bml_new
found_called = refl

bob_waits : awaits_only bob called_reader called_bmap ≡ true
unfolding any_chain any_lease update_chain unchain is_chain_of bml_new
bob_waits = refl

reader_flags : (called_reader.recover ≡ false) × (called_reader.freeing ≡ false)
unfolding bml_new
reader_flags = (refl, refl)

releasebml-directio_example :
    (m : DioReq) × (wk : CohWork) × (mdscoh_req 9 true true (done 0) called_bmap called_reader
      ≡ some (done 0, some m))
    × (bmapdio_cb (done 0) called_reader.client m ≡ some wk)
    × (releasebml site true wk called_bmap timeo
        ≡ some (
          answered called_reader called_bmap,
          (timeo, some (record called_reader { dio = true; diocb = false })),
        ))
    × ((directio true false bob (answered called_reader called_bmap)).1 ≡ done 0)
    × ((directio true false bob (answered called_reader called_bmap)).0.dio ≡ true)
releasebml-directio_example =
    releasebml-directio site timeo 9 0 0 called_reader called_bmap true false bob reader_flags.0
      reader_flags.1 refl found_called refl refl refl bob_waits
