-- ===== src/ReplWork/Turn.antt =====
-- A turn of the thread on replication work, and what holds after any sequence of turns and reads.
use slash.Prelude.{
  ℕ, ◌+◌, ◌≡◌, refl, List, [], ◌∷◌, some, Bool, true, false, not, ◌&&◌, ◌==◌, leb, length,
  if◌then◌else◌, arith, Bool-cases, Option-cases, inl, inr,
}
use slash.Residency.{arr_set}
use slash.Traffic.{slash_slvrs_per_bmap}
use slash.Slvr.{lc_remove}
use slash.Slvr.Users.{count}
use slash.ReplWork.{
  Work, replwk_queue, is_marked, portable_rc, replwkrq_decref, Issue, offline, no_request, bad_slvr,
  refused, sent, find_want, issue_read, repl_turn,
}
use slash.ReplWork.Complete.{is_clean, IsWork, find_want-none}

-- The thread drops its reference.
abbrev dropped : Work → Work
dropped w = record w { queued = false; refcnt = length w.slots; reported = length w.slots == 0 }

length-zero : (q : List ℕ) → length q ≡ 0 → q ≡ []
length-zero [] h = refl
length-zero (x ∷ q) h = absurd (ground arith)

dropped-IsWork :
    (w : Work)
    → IsWork w
    → ((i : ℕ) → (is_clean w && is_marked w.len i) ≡ true → w.want i ≡ false)
    → IsWork (dropped w)
unfolding count
dropped-IsWork w h n = record {
  refs = ground arith;
  gone = refl;
  marked = λ i m. h.marked i m;
  final = λ i m.
      let empty : length w.slots ≡ 0 = ground arith in
      let no_slots = length-zero w.slots empty in ground (arith, h.marked i, n i, no_slots);
}

-- What a turn leaves, if a sliver was chosen, for each way its request can go.
abbrev turned : ℕ → ℕ → Issue → Work → Work
turned timedout i offline w = record w {
  want = arr_set (arr_set w.want i false) i true;
  slots = lc_remove i (i ∷ w.slots);
  reported = false;
}
turned timedout i no_request w = record w {
  want = arr_set (arr_set w.want i false) i true;
  slots = lc_remove i (i ∷ w.slots);
  reported = false;
}
turned timedout i bad_slvr w = w
turned timedout i (refused rc) w = record w {
  want = arr_set (arr_set w.want i false) i true;
  slots = lc_remove i (i ∷ w.slots);
  status =
      if not (portable_rc timedout rc == 0) && w.status == 0
      then portable_rc timedout rc
      else w.status;
  reported = false;
}
turned timedout i sent w = record w {
  want = arr_set w.want i false;
  slots = i ∷ w.slots;
  refcnt = w.refcnt + 1;
  reported = false;
}

turned-IsWork :
    (timedout i : ℕ) (o : Issue) (w : Work)
    → w.queued ≡ true
    → IsWork w
    → IsWork (turned timedout i o w)
unfolding count lc_remove
turned-IsWork timedout i offline w q h = record {
  refs = ground (arith, h.refs);
  gone = ground (arith, h.refs);
  marked = λ k m. ground (arith, h.marked k);
  final = λ k m. absurd (ground arith);
}
turned-IsWork timedout i no_request w q h = record {
  refs = ground (arith, h.refs);
  gone = ground (arith, h.refs);
  marked = λ k m. ground (arith, h.marked k);
  final = λ k m. absurd (ground arith);
}
turned-IsWork timedout i bad_slvr w q h = h
turned-IsWork timedout i (refused rc) w q h = record {
  refs = ground (arith, h.refs);
  gone = ground (arith, h.refs);
  marked = λ k m. ground (arith, h.marked k);
  final = λ k m. absurd (ground arith);
}
turned-IsWork timedout i sent w q h = record {
  refs = ground (arith, h.refs);
  gone = ground (arith, h.refs);
  marked = λ k m. ground (arith, h.marked k);
  final = λ k m. absurd (ground arith);
}

-- The sliver that is asked for can be prepared.
abbrev pub is_prepared : Issue → Bool
is_prepared offline = true
is_prepared no_request = true
is_prepared bad_slvr = false
is_prepared (refused rc) = true
is_prepared sent = true

repl_turn-sent :
    (timedout nslots i : ℕ) (o : Issue) (w : Work)
    → is_prepared o ≡ true
    → w.queued ≡ true
    → IsWork w
    → (w.status == 0 && not w.ptrunc) ≡ true
    → find_want w.want slash_slvrs_per_bmap 0 ≡ some i
    → leb nslots (length w.slots) ≡ false
    → repl_turn timedout nslots o w ≡ some (turned timedout i o w)
unfolding repl_turn issue_read replwk_queue replwkrq_decref
repl_turn-sent timedout nslots i offline w p q h s f l = ground (arith, h.refs, h.gone, f)
repl_turn-sent timedout nslots i no_request w p q h s f l = ground (arith, h.refs, h.gone, f)
repl_turn-sent timedout nslots i bad_slvr w p q h s f l = absurd (ground arith)
repl_turn-sent timedout nslots i (refused rc) w p q h s f l = ground (arith, h.refs, h.gone, f)
repl_turn-sent timedout nslots i sent w p q h s f l = ground (arith, h.refs, h.gone, f)

turned-kept :
    (timedout i : ℕ) (o : Issue) (w : Work)
    → ((turned timedout i o w).len ≡ w.len) × ((turned timedout i o w).ptrunc ≡ w.ptrunc)
turned-kept timedout i offline w = (refl, refl)
turned-kept timedout i no_request w = (refl, refl)
turned-kept timedout i bad_slvr w = (refl, refl)
turned-kept timedout i (refused rc) w = (refl, refl)
turned-kept timedout i sent w = (refl, refl)

-- A turn that does not fail is one in which no bad sliver is asked for.
pub repl_turn-prepared :
    (timedout nslots : ℕ) (o : Issue) (w u : Work)
    → repl_turn timedout nslots o w ≡ some u
    → (o' : Issue) × (is_prepared o' ≡ true) × (repl_turn timedout nslots o' w ≡ some u)
unfolding repl_turn issue_read
repl_turn-prepared timedout nslots offline w u e = (offline, refl, e)
repl_turn-prepared timedout nslots no_request w u e = (no_request, refl, e)
repl_turn-prepared timedout nslots (refused rc) w u e = (refused rc, refl, e)
repl_turn-prepared timedout nslots sent w u e = (sent, refl, e)
repl_turn-prepared timedout nslots bad_slvr w u e = (
  offline,
  refl,
  elim (Option-cases (find_want w.want slash_slvrs_per_bmap 0)) [
    | inl f ↦ ground (arith, e, f)
    | inr (i, f) ↦ ground (arith, e, f)
  ],
)

-- A turn on queued work in which no bad sliver is asked for does not fail, and leaves the work's length and kind.
pub repl_turn-IsWork :
    (timedout nslots : ℕ) (o : Issue) (w : Work)
    → is_prepared o ≡ true
    → w.queued ≡ true
    → IsWork w
    → (w' : Work) × (repl_turn timedout nslots o w ≡ some w')
      × IsWork w'
      × ((w'.len ≡ w.len) × (w'.ptrunc ≡ w.ptrunc))
unfolding repl_turn replwkrq_decref replwk_queue
repl_turn-IsWork timedout nslots o w p q h = elim (Bool-cases (is_clean w)) [
  | inr a ↦ (
    dropped w,
    ground (arith, h.refs, h.gone),
    dropped-IsWork w h (λ i m. absurd (ground arith)),
    (refl, refl),
  )
  | inl a ↦ elim (Option-cases (find_want w.want slash_slvrs_per_bmap 0)) [
    | inl f ↦ (
      dropped w,
      ground (arith, h.refs, h.gone, f),
      dropped-IsWork w h (λ i m.
          find_want-none w.want slash_slvrs_per_bmap 0 i f (omega arith) (ground (arith, m))),
      (refl, refl),
    )
    | inr (i, f) ↦ elim (Bool-cases (leb nslots (length w.slots))) [
      | inl l ↦ (w, ground (arith, h.refs, h.gone, f), h, (refl, refl))
      | inr l ↦ (
        turned timedout i o w,
        repl_turn-sent timedout nslots i o w p q h a f l,
        turned-IsWork timedout i o w q h,
        turned-kept timedout i o w,
      )
    ]
  ]
]
