-- ===== src/ReplWorkTests.antt =====
-- The theorems on replication work at a small concrete state.
use slash.Prelude.{◌≡◌, ◌≢◌, refl, Option, none, some, true, false, arith}
use slash.Slvr.{lc_remove}
use slash.Slvr.Users.{count}
use slash.ReplWork.{
  Work, addwk, replwk_queue, replwkrq_decref, find_want, issue_read, repl_turn, read_done, sent,
  offline,
}
use slash.ReplWork.Reach.{Turns, turn, read, start, more, addwk-copied}

abbrev outcome : Option Work → Work
outcome (some w) = w
outcome none = addwk false 0

-- Work on 100 bytes: its one sliver is asked for, read, and then nothing is left.
abbrev created : Work
created = addwk false 100

abbrev asked : Work
asked = outcome (repl_turn 600 4 sent created)

abbrev arrived : Work
arrived = outcome (read_done 600 0 0 asked)

abbrev ended : Work
ended = outcome (repl_turn 600 4 offline arrived)

asked-Turns : Turns 600 4 created asked
unfolding addwk replwk_queue repl_turn find_want issue_read replwkrq_decref
asked-Turns = more created asked start (turn sent asked refl)

under_way : count 0 asked.slots ≢ 0
unfolding addwk replwk_queue repl_turn find_want issue_read replwkrq_decref count
under_way = ground arith

ended-Turns : Turns 600 4 created ended
unfolding addwk replwk_queue repl_turn find_want issue_read replwkrq_decref read_done lc_remove
ended-Turns =
    more arrived ended (more asked arrived asked-Turns (read 0 0 arrived under_way refl))
      (turn offline ended refl)

ended_flags : (ended.reported ≡ true) × (ended.status ≡ 0)
unfolding addwk replwk_queue repl_turn find_want issue_read replwkrq_decref read_done lc_remove
ended_flags = (refl, refl)

addwk-copied_example : ended.copied 0 ≡ true
addwk-copied_example =
    addwk-copied 600 4 100 0 ended refl ended-Turns ended_flags.0 ended_flags.1 (omega arith)
      (omega arith)
