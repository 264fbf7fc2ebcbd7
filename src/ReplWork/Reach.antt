-- ===== src/ReplWork/Reach.antt =====
-- Replication work from its creation on, through any sequence of turns of the thread and ends of reads.
use slash.Prelude.{
  ℕ, ◌*◌, ◌≡◌, ◌≢◌, ◌<◌, some, Bool, true, false, ◌==◌, arith, Bool-cases, inl, inr, refl, ◌∙◌,
}
use slash.Traffic.{slash_slvr_size, slash_slvrs_per_bmap}
use slash.Slvr.Users.{count}
use slash.ReplWork.{Work, addwk, replwk_queue, Issue, repl_turn, read_done}
use slash.ReplWork.Complete.{IsWork, addwk-IsWork, read_done-IsWork}
use slash.ReplWork.Turn.{is_prepared, repl_turn-prepared, repl_turn-IsWork}

module _ (timedout nslots : ℕ) where
  pub data Turned (w : Work) : Work → Type 0 where
    turn : (o : Issue) (w' : Work) → repl_turn timedout nslots o w ≡ some w' → Turned w w'
    read :
        (rc i : ℕ) (w' : Work)
        → count i w.slots ≢ 0
        → read_done timedout rc i w ≡ some w'
        → Turned w w'

  pub data Turns (w : Work) : Work → Type 0 where
    start : Turns w w
    more : (v u : Work) → Turns w v → Turned v u → Turns w u

  turn_queued :
      (o : Issue) (w w' : Work) → repl_turn timedout nslots o w ≡ some w' → w.queued ≡ true
  unfolding repl_turn
  turn_queued o w w' e = elim (Bool-cases w.queued) [
    | inl a ↦ a
    | inr a ↦ absurd (ground (arith, a))
  ]

  abbrev Kept : Work → Work → Type 0
  Kept w u = IsWork u × ((u.len ≡ w.len) × (u.ptrunc ≡ w.ptrunc))

  Turned-IsWork : (w u : Work) → (timedout == 0) ≡ false → Turned w u → IsWork w → Kept w u
  Turned-IsWork w u t (turn o _ e) h =
      let (o', p, e') = repl_turn-prepared timedout nslots o w u e in
      let (v, f, g, k) = repl_turn-IsWork timedout nslots o' w p (turn_queued o w u e) h in
      let same : v ≡ u = ground (arith, e', f) in rw (← same) (g, k)
  Turned-IsWork w u t (read rc i _ c e) h =
      let (v, f, g, k) = read_done-IsWork timedout rc i w t h c in
      let same : v ≡ u = ground (arith, e, f) in rw (← same) (g, k)

  Turns-IsWork : (w u : Work) → (timedout == 0) ≡ false → Turns w u → IsWork w → Kept w u
  Turns-IsWork w u t start h = (h, (refl, refl))
  Turns-IsWork w u t (more v _ p q) h =
      let (g, k) = Turns-IsWork w v t p h in
      let (m, n) = Turned-IsWork v u t q g in (m, (n.0 ∙ k.0, n.1 ∙ k.1))

  -- Replication work that was created and is reported without an error, after any sequence of turns of
  -- the thread and ends of reads, has copied every sliver of the bmap that holds some of its bytes.
  pub addwk-copied :
      (len i : ℕ) (w : Work)
      → (timedout == 0) ≡ false
      → Turns (addwk false len) w
      → w.reported ≡ true
      → w.status ≡ 0
      → i < slash_slvrs_per_bmap
      → i * slash_slvr_size < len
      → w.copied i ≡ true
  unfolding addwk replwk_queue
  addwk-copied len i w t p r s a b =
      let (h, k) = Turns-IsWork (addwk false len) w t p (addwk-IsWork false len) in
      h.final i (ground (arith, k))

  -- After any sequence of turns and ends of reads queued work can have its turn without a failed
  -- assertion, however the request for a sliver goes, if the sliver can be prepared.
  pub addwk-turns :
      (ptrunc : Bool) (len : ℕ) (o : Issue) (w : Work)
      → (timedout == 0) ≡ false
      → Turns (addwk ptrunc len) w
      → is_prepared o ≡ true
      → w.queued ≡ true
      → (u : Work) × (repl_turn timedout nslots o w ≡ some u)
  addwk-turns ptrunc len o w t p m q =
      let (h, _) = Turns-IsWork (addwk ptrunc len) w t p (addwk-IsWork ptrunc len) in
      let (u, e, _, _) = repl_turn-IsWork timedout nslots o w m q h in (u, e)

  -- After any sequence of turns and ends of reads a read under way can end, with an error or not, without
  -- a failed assertion.
  addwk-reads :
      (ptrunc : Bool) (len rc i : ℕ) (w : Work)
      → (timedout == 0) ≡ false
      → Turns (addwk ptrunc len) w
      → count i w.slots ≢ 0
      → (u : Work) × (read_done timedout rc i w ≡ some u)
  addwk-reads ptrunc len rc i w t p c =
      let (h, _) = Turns-IsWork (addwk ptrunc len) w t p (addwk-IsWork ptrunc len) in
      let (u, e, _, _) = read_done-IsWork timedout rc i w t h c in (u, e)
