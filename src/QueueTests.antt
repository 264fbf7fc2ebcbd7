-- ===== src/QueueTests.antt =====
-- The theorem on the queue of the scheduler at a small concrete state.
use slash.Prelude.{ℕ, ◌≡◌, [], none, some, false, ◌==◌, if◌then◌else◌, arith}
use slash.Residency.{iosidx_in}
use slash.UpQueue.{UpdType, updt_bmap, updt_pagein, UpSchq, upsch_enqueue, take_upd, finish_upd}
use slash.UpQueue.Counted.{enqueued, taken, idle, one_more, IsReferenced, finish-Turns}

-- Updates from 10 on are of bmaps.
abbrev type : ℕ → UpdType
type u = if u == 12 then updt_bmap else updt_pagein

abbrev empty : UpSchq
empty = record { queue = []; refs = λ u. 0; running = none; returned = 0 }

empty-IsReferenced : IsReferenced type empty
unfolding iosidx_in
empty-IsReferenced = record { once = tt; refs = λ v. ground arith }

abbrev queued : UpSchq
queued = upsch_enqueue type false 12 empty

abbrev at_work : UpSchq
at_work = take_upd queued

finish-Turns_example :
    IsReferenced type at_work
    × ((t : UpSchq) × (finish_upd type at_work ≡ some t) × IsReferenced type t)
finish-Turns_example =
    finish-Turns type empty at_work empty-IsReferenced
      (one_more queued at_work (one_more empty queued idle (enqueued false 12)) taken)
