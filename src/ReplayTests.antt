-- ===== src/ReplayTests.antt =====
-- The theorems on the replay of the journal at small concrete states.
use slash.Prelude.{◌+◌, ◌*◌, ◌≡◌, refl, [], ◌++◌, some, true, false, replicate, arith}
use slash.Inode.{Inoh, block, ensure_loaded}
use slash.Replay.{BmapRepls, InoRepls, Cursor, fill_bmap_repls, fill_ino_repls, any_set}
use slash.Replay.Repls.{Recovers, replay-fill}
use slash.Tests.{bytes, bytes-IsTable, out, inoh, locked_bmap, slot_zero}
use slash.SchedTests.{cut, cut-IsTable, cut-CanModify}

abbrev logged : BmapRepls
logged = record { bgen = 7; replpol = 0; nrepls = 3; repls = bytes }

logged_run : fill_bmap_repls 0 3 locked_bmap ≡ some logged
unfolding fill_bmap_repls
logged_run = refl

replay-fill_example : Recovers 3 (λ i. 10 + 10 * i) (λ id. some false) out logged bytes 0 cut
replay-fill_example =
    replay-fill 3 0 0 (λ i. 10 + 10 * i) (λ id. some false) out logged locked_bmap cut (omega arith)
      (omega arith) bytes-IsTable slot_zero logged_run cut-CanModify cut-IsTable

abbrev logged_ino : InoRepls
logged_ino = record { nrepls = 3; repls = inoh.ino_repls ++ replicate 60 0 }

abbrev empty_inoh : Inoh
empty_inoh = record {
  ino_repls = replicate 4 0;
  extras = some (replicate 60 0);
  nrepls = 0;
  synced = 0;
}

logged_ino_run : fill_ino_repls (replicate 60 0) inoh ≡ some logged_ino
unfolding fill_ino_repls
logged_ino_run = refl

set_ino : any_set logged_ino.repls ≡ true
unfolding any_set
set_ino = refl

loaded_ino : (ensure_loaded (block []) empty_inoh).0.extras ≡ some (replicate 60 0)
unfolding ensure_loaded
loaded_ino = refl

abbrev cursor : Cursor
cursor = record { seqno_hwm = 5; seqno_lwm = 1 }
