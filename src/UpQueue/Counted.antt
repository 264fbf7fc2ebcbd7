-- ===== src/UpQueue/Counted.antt =====
-- The queue holds one reference on the bmap of each update in it, and one more for the update at work.
use mathlib.Core.Path.{subst}
use slash.Prelude.{
  ℕ, ◌+◌, ◌-◌, ◌≡◌, refl, List, [], ◌∷◌, ◌++◌, Option, none, some, Bool, true, false, not, ◌||◌,
  ◌==◌, if◌then◌else◌, arith, Bool-cases, Option-cases, inl, inr,
}
use slash.Residency.{arr_set, iosidx_in}
use slash.Residency.Visited.{iosidx_in-snoc, Distinct-snoc}
use slash.Residency.Walk.{Distinct}
use slash.UpQueue.{
  UpdType, is_bmap, UpSchq, upd_incref, upd_decref, upsch_enqueue, take_upd, finish_upd,
}

abbrev is_running : Option ℕ → ℕ → Bool
is_running none v = false
is_running (some u) v = u == v

abbrev one : Bool → ℕ
one t = if t then 1 else 0

module _ (type : ℕ → UpdType) where
  -- What happens to the queue.
  pub data Turn (s : UpSchq) : UpSchq → Type 0 where
    enqueued : (in_ptrunc : Bool) (u : ℕ) → Turn s (upsch_enqueue type in_ptrunc u s)
    taken : Turn s (take_upd s)
    finished : (s' : UpSchq) → finish_upd type s ≡ some s' → Turn s s'

  pub data Turns (s : UpSchq) : UpSchq → Type 0 where
    idle : Turns s s
    one_more : (t u : UpSchq) → Turns s t → Turn t u → Turns s u

  -- No update stands twice in the queue, and the references are those of the queue and of the update
  -- at work.
  pub record IsReferenced (s : UpSchq) : Type 0 where
    pub once : Distinct s.queue
    pub refs :
        (v : ℕ)
        → s.refs v ≡ (
            if is_bmap (type v)
            then one (iosidx_in v s.queue) + one (is_running s.running v)
            else 0)

  -- An update that is not in the queue is put in front or behind.
  put : Bool → ℕ → List ℕ → List ℕ
  put behind u q = if behind then q ++ (u ∷ []) else u ∷ q

  put-Distinct :
      (behind : Bool) (u : ℕ) (q : List ℕ)
      → Distinct q
      → iosidx_in u q ≡ false
      → Distinct (put behind u q)
  unfolding put
  put-Distinct true u q d h = Distinct-snoc q u d h
  put-Distinct false u q d h = (h, d)

  iosidx_in-put :
      (behind : Bool) (u : ℕ) (q : List ℕ) (v : ℕ)
      → iosidx_in v (put behind u q) ≡ (u == v || iosidx_in v q)
  unfolding put iosidx_in
  iosidx_in-put true u q v = ground (arith, iosidx_in-snoc v q u)
  iosidx_in-put false u q v = refl

  enqueue-IsReferenced :
      (in_ptrunc : Bool) (u : ℕ) (s : UpSchq)
      → IsReferenced s
      → IsReferenced (upsch_enqueue type in_ptrunc u s)
  unfolding upsch_enqueue upd_incref put
  enqueue-IsReferenced p u s h = elim (Bool-cases (iosidx_in u s.queue)) [
    | inl y ↦ rw y h
    | inr y ↦ elim (Bool-cases (is_bmap (type u))) [
      | inl b ↦
          let t : UpSchq = record s {
            queue = put (not p) u s.queue;
            refs = arr_set s.refs u (s.refs u + 1);
          } in
          let same : upsch_enqueue type p u s ≡ t = ground (arith, y, b) in
          rw same (record {
            once = put-Distinct (not p) u s.queue h.once y;
            refs = λ v. elim (Bool-cases (u == v)) [
              | inl z ↦
                  let e : u ≡ v = ground arith in
                  rw (← e) (ground (arith, h.refs u, iosidx_in-put (not p) u s.queue u, y, b))
              | inr z ↦ ground (arith, h.refs v, iosidx_in-put (not p) u s.queue v, z)
            ];
          })
      | inr b ↦
          let t : UpSchq = record s { queue = put false u s.queue } in
          let same : upsch_enqueue type p u s ≡ t = ground (arith, y, b) in
          rw same (record {
            once = put-Distinct false u s.queue h.once y;
            refs = λ v. elim (Bool-cases (u == v)) [
              | inl z ↦ let e : u ≡ v = ground arith in rw (← e) (ground (arith, h.refs u, b))
              | inr z ↦ ground (arith, h.refs v, iosidx_in-put false u s.queue v, z)
            ];
          })
    ]
  ]

  take_go :
      (q : List ℕ) (run : Option ℕ) (s : UpSchq)
      → s.queue ≡ q
      → s.running ≡ run
      → IsReferenced s
      → IsReferenced (take_upd s)
  unfolding take_upd iosidx_in
  take_go q (some u) s eq er h = let same : take_upd s ≡ s = ground (arith, er) in rw same h
  take_go [] none s eq er h = let same : take_upd s ≡ s = ground (arith, er, eq) in rw same h
  take_go (u ∷ us) none s eq er h =
      let t : UpSchq = record s { queue = us; running = some u } in
      let same : take_upd s ≡ t = ground (arith, eq, er) in
      let d : Distinct (u ∷ us) = subst Distinct eq h.once in
      rw same (record {
        once = d.1;
        refs = λ v. elim (Bool-cases (u == v)) [
          | inl z ↦ let e : u ≡ v = ground arith in rw (← e) (ground (arith, h.refs u, eq, er, d.0))
          | inr z ↦ ground (arith, h.refs v, eq, er, z)
        ];
      })

  -- The update at work can be finished.
  finish-IsReferenced :
      (s : UpSchq)
      → IsReferenced s
      → (s' : UpSchq) × (finish_upd type s ≡ some s') × IsReferenced s'
  unfolding finish_upd upd_decref
  finish-IsReferenced s h = elim (Option-cases s.running) [
    | inl y ↦ (s, ground (arith, y), h)
    | inr (u, y) ↦ elim (Bool-cases (is_bmap (type u))) [
      | inl b ↦
          let t : UpSchq = record s { running = none; refs = arr_set s.refs u (s.refs u - 1) } in
          (
            t,
            ground (arith, y, b, h.refs u),
            record {
              once = h.once;
              refs = λ v. elim (Bool-cases (u == v)) [
                | inl z ↦ let e : u ≡ v = ground arith in rw (← e) (ground (arith, h.refs u, y, b))
                | inr z ↦ ground (arith, h.refs v, y, z)
              ];
            },
          )
      | inr b ↦
          let t : UpSchq = record s { running = none; returned = s.returned + 1 } in
          (
            t,
            ground (arith, y, b),
            record {
              once = h.once;
              refs = λ v. elim (Bool-cases (u == v)) [
                | inl z ↦ let e : u ≡ v = ground arith in rw (← e) (ground (arith, h.refs u, b))
                | inr z ↦ ground (arith, h.refs v, y, z)
              ];
            },
          )
    ]
  ]

  Turn-IsReferenced : (s t : UpSchq) → Turn s t → IsReferenced s → IsReferenced t
  Turn-IsReferenced s t (enqueued p u) h = enqueue-IsReferenced p u s h
  Turn-IsReferenced s t taken h = take_go s.queue s.running s refl refl h
  Turn-IsReferenced s t (finished _ e) h =
      let (s', e', h') = finish-IsReferenced s h in
      let same : s' ≡ t = ground (arith, e, e') in rw (← same) h'

  Turns-IsReferenced : (s t : UpSchq) → Turns s t → IsReferenced s → IsReferenced t
  Turns-IsReferenced s t idle h = h
  Turns-IsReferenced s t (one_more m _ p q) h = Turn-IsReferenced m t q (Turns-IsReferenced s m p h)

  -- From a queue with its references counted, after any sequence of updates that are put in, taken and
  -- finished, no update stands twice in the queue, the references on each bmap are one if its update is
  -- in the queue and one more if it is at work, and the update at work can be finished: its reference is
  -- held.
  pub finish-Turns :
      (s t : UpSchq)
      → IsReferenced s
      → Turns s t
      → IsReferenced t × ((t' : UpSchq) × (finish_upd type t ≡ some t') × IsReferenced t')
  finish-Turns s t h p = let h' = Turns-IsReferenced s t p h in (h', finish-IsReferenced t h')
