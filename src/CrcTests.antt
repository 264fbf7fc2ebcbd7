-- ===== src/CrcTests.antt =====
-- The theorems on updates of checksums at small concrete states.
use slash.Prelude.{
  ◌≡◌, refl, List, [], ◌∷◌, none, some, true, false, ◌==◌, ◌||◌, if◌then◌else◌, replicate, arith,
}
use slash.BmapWrite.{WriteOutcome}
use slash.Crc.{
  CrcWire, Crcup, SliverTable, CrcEntry, CrcBmap, CrcSite, crc_entries, set_crcs, replay_entries,
}
use slash.Crc.Log.{Logs, crc_entries-Logs}
use slash.Crc.Recover.{IsRecovered, replay-crc_entries}
use slash.Crc.Update.{Updates, crc_update_lem, Refused, crc_write-Refused}
use slash.ReplTable.{get_bmap_ios_stat}
use slash.Residency.Apply.{slot}
use slash.Tests.{bytes, bytes-IsTable, bmap, out}

abbrev wire : CrcWire
wire = record { slot = 3; crc = 99 }

-- One more than an entry of the log holds.
abbrev wires : List CrcWire
wires = replicate 25 wire

crc_entries-Logs_example : Logs 25 true wires
crc_entries-Logs_example = crc_entries-Logs 25 true wires (omega arith)

abbrev two_entries : List CrcEntry
two_entries =
    record { extend = true; crcs = replicate 24 wire }
    ∷ (record { extend = false; crcs = wire ∷ [] } ∷ [])

wires_run : crc_entries 25 true wires ≡ some two_entries
unfolding crc_entries
wires_run = refl

-- Sliver 3 has data, but its checksum is absent.
abbrev table : SliverTable
table = record { crcs = λ j. 0; states = λ j. if j == 3 then 9 else 0 }

replay-crc_entries_example :
    IsRecovered table (set_crcs wires table) (replay_entries two_entries table)
replay-crc_entries_example = replay-crc_entries true wires two_entries table wires_run

abbrev crcup : Crcup
crcup = record { gen = 4; nblks = 8; extend = true; crcs = wires }

abbrev marked : CrcBmap
marked = record { bmap = bmap; slivers = table; crc_up = true; entries = [] }

slot_one : (slot bytes 1 == 0 || (slot bytes 1 == 3 || slot bytes 1 == 6)) ≡ true
unfolding get_bmap_ios_stat
slot_one = refl

crc_update_lem_example : Updates 3 out out 1 crcup marked
crc_update_lem_example =
    crc_update_lem 3 1 out out crcup marked (omega arith) (omega arith) refl refl refl bytes-IsTable
      slot_one

abbrev failed : WriteOutcome
failed = record { rc = 5; logged = false }

abbrev crc_site : CrcSite
crc_site = record {
  gen = 4;
  lookup = none;
  wr_ion = some 20;
  idx = some 1;
  out1 = out;
  out2 = out;
  already = 600;
}

crc_write-Refused_example : Refused 3 out failed 1 crcup marked crc_site 20 false crcup
crc_write-Refused_example =
    crc_write-Refused 3 1 out failed crcup marked crc_site 20 false crcup (omega arith)
      (omega arith) refl refl refl bytes-IsTable slot_one refl refl refl refl
