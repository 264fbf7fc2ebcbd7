-- ===== src/History/Safe.antt =====
-- The table of a bmap through its history: a valid replica is never lost.
use slash.Prelude.{ℕ, ◌≡◌, ◌≤◌, List, true, ◌==◌, arith}
use slash.BmapMds.{Bmap}
use slash.History.{
  Between, Happens, delrq, addrq, new_data, repl_try, repl_answer, preclaim_try, preclaim_answer,
  ptrunc_try, ptrunc_answer, restart, History, begin, next,
}
use slash.History.Kept.{
  Keeps, delrq-Keeps, addrq-Keeps, new_data-Keeps, repl_try-Keeps, repl_answer-Keeps,
  preclaim_try-Keeps, preclaim_answer-Keeps, ptrunc_try-Keeps, ptrunc_answer-Keeps, restart-Keeps,
}
use slash.ReplTable.Slots.{IsTable}
use slash.Request.LastReplica.{has_valid, some_below-found}
use slash.Residency.Apply.{slot}

-- The state is told of the bmap that an operation starts on.
Between-Keeps :
    (nr : ℕ) (t u : List ℕ) (b b' : Bmap)
    → Between t u b b'
    → Keeps nr b.repls b'.repls
    → Keeps nr t u
Between-Keeps nr t u b b' x k = record {
  table = rw (← x.to) k.table;
  valid = rw (← x.to) k.valid;
  edges = rw (← x.from, ← x.to) k.edges;
}

-- A request to add or to drop replicas, new data at a replica that was valid, invalid or garbage, an
-- attempt of the scheduler to copy, to reclaim or to truncate, the answer of a server to a copy or a
-- reclaim, the failure of a truncation request, and a restart each leave a table with a valid replica
-- with one, and each slot keeps its state or changes it along an edge.
pub Happens-Keeps :
    (nr : ℕ) (t u : List ℕ)
    → nr ≤ 64
    → IsTable t
    → has_valid (slot t) nr ≡ true
    → Happens nr t u
    → Keeps nr t u
Happens-Keeps nr t u hn h v (delrq out i is b b' rc x lt d e) =
    Between-Keeps nr t u b b' x
      (delrq-Keeps nr hn b b' x.free (rw x.from h) out i is rc (rw x.from v) lt d e)
Happens-Keeps nr t u hn h v (addrq s ih p i is b b' rc en x lt d e) =
    Between-Keeps nr t u b b' x
      (addrq-Keeps nr hn b b' x.free (rw x.from h) s ih p i is rc (rw x.from v) en lt d e)
Happens-Keeps nr t u hn h v (new_data i b b' rc x hi w e) =
    Between-Keeps nr t u b b' x
      (new_data-Keeps nr hn b b' x.free (rw x.from h) i rc hi (rw x.from w) e)
Happens-Keeps nr t u hn h v (repl_try out a k b ios r x hk q e) =
    let (i, hi, z) = some_below-found (λ j. slot t j == 3) nr v in
    Between-Keeps nr t u b r.bmap x (
      repl_try-Keeps nr hn b r.bmap x.free (rw x.from h) i hi (rw x.from (ground arith)) out a k ios
        r hk (rw x.from q) e)
Happens-Keeps nr t u hn h v (repl_answer out ecode resid a k b b' x hk off e) =
    let (i, hi, z) = some_below-found (λ j. slot t j == 3) nr v in
    Between-Keeps nr t u b b' x (
      repl_answer-Keeps nr hn b b' x.free (rw x.from h) i hi (rw x.from (ground arith)) out ecode
        resid a k hk off e)
Happens-Keeps nr t u hn h v (preclaim_try out online brc k b b' y ok x hk q e) =
    let (i, hi, z) = some_below-found (λ j. slot t j == 3) nr v in
    Between-Keeps nr t u b b' x (
      preclaim_try-Keeps nr hn b b' x.free (rw x.from h) i hi (rw x.from (ground arith)) out online
        brc k y ok hk (rw x.from q) e)
Happens-Keeps nr t u hn h v (preclaim_answer out rc k b b' x hk e) =
    let (i, hi, z) = some_below-found (λ j. slot t j == 3) nr v in
    Between-Keeps nr t u b b' x (
      preclaim_answer-Keeps nr hn b b' x.free (rw x.from h) i hi (rw x.from (ground arith)) out rc k
        hk e)
Happens-Keeps nr t u hn h v (ptrunc_try upd q k b b' y y' r x hk w f e) =
    let (i, hi, z) = some_below-found (λ j. slot t j == 3) nr v in
    Between-Keeps nr t u b b' x (
      ptrunc_try-Keeps nr hn b b' x.free (rw x.from h) i hi (rw x.from (ground arith)) upd q k y y'
        r hk (rw x.from w) f e)
Happens-Keeps nr t u hn h v (ptrunc_answer upd rc k b b' y y' x hk e) =
    let (i, hi, z) = some_below-found (λ j. slot t j == 3) nr v in
    Between-Keeps nr t u b b' x (
      ptrunc_answer-Keeps nr hn b b' x.free (rw x.from h) i hi (rw x.from (ground arith)) upd rc k y
        y' hk e)
Happens-Keeps nr t u hn h v (restart out b b' x e) =
    let (i, hi, z) = some_below-found (λ j. slot t j == 3) nr v in
    Between-Keeps nr t u b b' x
      (restart-Keeps nr hn b b' x.free (rw x.from h) i hi (rw x.from (ground arith)) out e)

-- A bmap of a file with at most 64 replicas that once has a valid replica has one for ever: after any
-- sequence of requests to add or to drop replicas, of new data at a replica that was valid, invalid or
-- garbage, of attempts of the scheduler, of answers of the I/O servers to copies and reclaims, of failures of
-- truncation requests and of restarts, the table is a table with a valid replica.
pub History-has_valid :
    (nr : ℕ) (t u : List ℕ)
    → nr ≤ 64
    → IsTable t
    → has_valid (slot t) nr ≡ true
    → History nr t u
    → IsTable u × (has_valid (slot u) nr ≡ true)
History-has_valid nr t u hn h v begin = (h, v)
History-has_valid nr t u hn h v (next w _ p s) =
    let (h1, v1) = History-has_valid nr t w hn h v p in
    let k = Happens-Keeps nr w u hn h1 v1 s in (k.table, k.valid)
