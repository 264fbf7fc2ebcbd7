-- ===== src/BmapTimeo/Order.antt =====
-- The timeout list is in the order of the sequence numbers, between the water marks.
use slash.Prelude.{
  ℕ, ◌+◌, ◌%◌, ◌≡◌, refl, ap, ◌<◌, ◌≤◌, ◌∙◌, List, [], ◌∷◌, ◌++◌, Bool, false, ◌||◌, ◌==◌,
  if◌then◌else◌, arith, Bool-cases, inl, inr,
}
use slash.Lease.{Lease}
use slash.BmapTimeo.{
  Queued, Timeo, bmapseq_any, journal_seqno, next_seq, getnextseq, unlink, is_head, head_seq,
  timeo_remove, requeue, mdsi, bte_add, set_seq,
}

-- Ascending numbers between two bounds.
abbrev pub Between : ℕ → ℕ → List Queued → Type 0
Between lo hi [] = lo ≤ hi
Between lo hi (x ∷ xs) = (lo ≤ x.seq) × Between x.seq hi xs

unfoldable pub in_queue : ℕ → List Queued → Bool
in_queue p [] = false
in_queue p (x ∷ xs) = x.ptr == p || in_queue p xs

abbrev pub Once : List Queued → Type 0
Once [] = Unit {0}
Once (x ∷ xs) = (in_queue x.ptr xs ≡ false) × Once xs

-- The list is ascending between the water marks, and holds a lease at most once.
pub record IsTimeo (t : Timeo) : Type 0 where
  pub order : Between t.minseq t.maxseq t.queue
  pub once : Once t.queue

Between-le : (lo hi : ℕ) (q : List Queued) → Between lo hi q → lo ≤ hi
Between-le lo hi [] h = h
Between-le lo hi (x ∷ xs) h = omega (arith, Between-le x.seq hi xs h.1)

Between-lo : (lo lo' hi : ℕ) (q : List Queued) → lo' ≤ lo → Between lo hi q → Between lo' hi q
Between-lo lo lo' hi [] l h = omega arith
Between-lo lo lo' hi (x ∷ xs) l h = (omega arith, h.1)

Between-hi : (lo hi hi' : ℕ) (q : List Queued) → hi ≤ hi' → Between lo hi q → Between lo hi' q
Between-hi lo hi hi' [] l h = omega arith
Between-hi lo hi hi' (x ∷ xs) l h = (h.0, Between-hi x.seq hi hi' xs l h.1)

Between-unlink : (p lo hi : ℕ) (q : List Queued) → Between lo hi q → Between lo hi (unlink p q)
unfolding unlink
Between-unlink p lo hi [] h = h
Between-unlink p lo hi (x ∷ xs) h = elim (Bool-cases (x.ptr == p)) [
  | inl e ↦ rw e (Between-lo x.seq lo hi xs h.0 h.1)
  | inr e ↦ rw e (h.0, Between-unlink p x.seq hi xs h.1)
]

Between-snoc :
    (lo hi hi' p : ℕ) (q : List Queued)
    → Between lo hi q
    → hi ≤ hi'
    → Between lo hi' (q ++ (record { ptr = p; seq = hi' } ∷ []))
Between-snoc lo hi hi' p [] h l = (omega arith, omega arith)
Between-snoc lo hi hi' p (x ∷ xs) h l = (h.0, Between-snoc x.seq hi hi' p xs h.1 l)

Between-head : (lo hi : ℕ) (q : List Queued) → Between lo hi q → Between (head_seq hi q) hi q
Between-head lo hi [] h = omega arith
Between-head lo hi (x ∷ xs) h = (omega arith, h.1)

in_queue-unlink :
    (p r : ℕ) (q : List Queued) → in_queue r q ≡ false → in_queue r (unlink p q) ≡ false
unfolding unlink in_queue
in_queue-unlink p r [] h = refl
in_queue-unlink p r (x ∷ xs) h = ground (arith, in_queue-unlink p r xs)

Once-unlink : (p : ℕ) (q : List Queued) → Once q → Once (unlink p q)
unfolding unlink
Once-unlink p [] h = tt
Once-unlink p (x ∷ xs) h = elim (Bool-cases (x.ptr == p)) [
  | inl e ↦ rw e h.1
  | inr e ↦ rw e (in_queue-unlink p x.ptr xs h.0, Once-unlink p xs h.1)
]

in_queue-unlinked : (p : ℕ) (q : List Queued) → Once q → in_queue p (unlink p q) ≡ false
unfolding unlink in_queue
in_queue-unlinked p [] h = refl
in_queue-unlinked p (x ∷ xs) h = elim (Bool-cases (x.ptr == p)) [
  | inl e ↦ let same : x.ptr ≡ p = ground arith in rw e (ground (arith, h.0, same))
  | inr e ↦ ground (arith, in_queue-unlinked p xs h.1)
]

in_queue-snoc :
    (p : ℕ) (q : List Queued) (y : Queued)
    → in_queue p (q ++ (y ∷ [])) ≡ (in_queue p q || y.ptr == p)
unfolding in_queue
in_queue-snoc p [] y = ground arith
in_queue-snoc p (x ∷ xs) y = ground (arith, in_queue-snoc p xs y)

Once-snoc :
    (q : List Queued) (y : Queued) → Once q → in_queue y.ptr q ≡ false → Once (q ++ (y ∷ []))
unfolding in_queue
Once-snoc [] y h n = (refl, tt)
Once-snoc (x ∷ xs) y h n =
    (ground (arith, in_queue-snoc x.ptr xs y), Once-snoc xs y h.1 (ground arith))

set_seq-snoc :
    (p s s' : ℕ) (q : List Queued)
    → in_queue p q ≡ false
    → set_seq p s (q ++ (record { ptr = p; seq = s' } ∷ []))
      ≡ q ++ (record { ptr = p; seq = s } ∷ [])
unfolding set_seq in_queue
set_seq-snoc p s s' [] h = ground arith
set_seq-snoc p s s' (x ∷ xs) h = ground (arith, set_seq-snoc p s s' xs)

-- A new sequence number is neither 0 nor the one that stands for any, unless the last one is that.
pub next_seq-range : (m : ℕ) → m < bmapseq_any → (0 < next_seq m) × (next_seq m < bmapseq_any)
unfolding next_seq
next_seq-range m h = ground arith

next_seq-suc : (m : ℕ) → m + 1 < bmapseq_any → next_seq m ≡ m + 1
unfolding next_seq
next_seq-suc m h = ground arith

journal_seqno-IsTimeo : (t : Timeo) → IsTimeo t → IsTimeo (journal_seqno t)
unfolding journal_seqno
journal_seqno-IsTimeo t h = elim (Bool-cases ((t.log + 1) % 100 == 0)) [
  | inl e ↦ rw e (record { order = h.order; once = h.once })
  | inr e ↦ rw e (record { order = h.order; once = h.once })
]

-- At the head, the low water mark rises to the new head, or to the high water mark.
head_seq-Between :
    (p lo hi : ℕ) (q : List Queued)
    → Between lo hi q
    → Between (head_seq hi (unlink p q)) hi (unlink p q)
head_seq-Between p lo hi q h = Between-head lo hi (unlink p q) (Between-unlink p lo hi q h)

-- Taking a lease off the list keeps it in order between the water marks.
pub timeo_remove-IsTimeo : (p : ℕ) (t : Timeo) → IsTimeo t → IsTimeo (timeo_remove p t)
unfolding timeo_remove
timeo_remove-IsTimeo p t h = elim (Bool-cases (is_head p t.queue)) [
  | inl e ↦ rw e (
      journal_seqno-IsTimeo
        (record t { queue = unlink p t.queue; minseq = head_seq t.maxseq (unlink p t.queue) })
        (record {
          order = head_seq-Between p t.minseq t.maxseq t.queue h.order;
          once = Once-unlink p t.queue h.once;
        }))
  | inr e ↦ rw e (record {
    order = Between-unlink p t.minseq t.maxseq t.queue h.order;
    once = Once-unlink p t.queue h.once;
  })
]

maxseq-journal_seqno : (t : Timeo) → (journal_seqno t).maxseq ≡ t.maxseq
unfolding journal_seqno
maxseq-journal_seqno t = ground arith

queue-journal_seqno : (t : Timeo) → (journal_seqno t).queue ≡ t.queue
unfolding journal_seqno
queue-journal_seqno t = ground arith

maxseq-timeo_remove : (p : ℕ) (t : Timeo) → (timeo_remove p t).maxseq ≡ t.maxseq
unfolding timeo_remove journal_seqno
maxseq-timeo_remove p t = ground arith

queue-timeo_remove : (p : ℕ) (t : Timeo) → (timeo_remove p t).queue ≡ unlink p t.queue
unfolding timeo_remove journal_seqno
queue-timeo_remove p t = ground arith

getnextseq-IsTimeo : (t : Timeo) → t.maxseq + 1 < bmapseq_any → IsTimeo t → IsTimeo (getnextseq t)
unfolding getnextseq
getnextseq-IsTimeo t b h =
    journal_seqno-IsTimeo (record t { maxseq = next_seq t.maxseq })
      (record {
        order =
            Between-hi t.minseq t.maxseq (next_seq t.maxseq) t.queue
              (omega (arith, next_seq-suc t.maxseq b)) h.order;
        once = h.once;
      })

maxseq-getnextseq : (t : Timeo) → (getnextseq t).maxseq ≡ next_seq t.maxseq
unfolding getnextseq
maxseq-getnextseq t = maxseq-journal_seqno (record t { maxseq = next_seq t.maxseq })

queue-getnextseq : (t : Timeo) → (getnextseq t).queue ≡ t.queue
unfolding getnextseq
queue-getnextseq t = queue-journal_seqno (record t { maxseq = next_seq t.maxseq })

-- A lease is granted: it is put last with the next number, which then becomes its own.
abbrev pub granted : Lease → Timeo → Timeo
granted l t = let r = mdsi bte_add l t in record r.1.1 { queue = set_seq l.ptr r.0 r.1.1.queue }

-- The table before the lease is put last.
abbrev taken_off : Lease → Timeo → Timeo
taken_off l t = if l.timeoq then timeo_remove l.ptr t else t

taken_off_lem :
    (l : Lease) (t : Timeo)
    → IsTimeo t
    → in_queue l.ptr t.queue ≡ l.timeoq
    → IsTimeo (taken_off l t)
      × (in_queue l.ptr (taken_off l t).queue ≡ false)
      × ((taken_off l t).maxseq ≡ t.maxseq)
taken_off_lem l t h m = elim (Bool-cases l.timeoq) [
  | inl e ↦ rw e (
    timeo_remove-IsTimeo l.ptr t h,
    ap (in_queue l.ptr) (queue-timeo_remove l.ptr t) ∙ in_queue-unlinked l.ptr t.queue h.once,
    maxseq-timeo_remove l.ptr t,
  )
  | inr e ↦ rw e (h, m ∙ e, refl)
]

-- A lease that is granted or renewed, its flag telling the truth, gets the next sequence number, and
-- stands last on a list that is still in order, once, and between the water marks, as long as the
-- numbers do not wrap around.
pub granted-IsTimeo :
    (l : Lease) (t : Timeo)
    → IsTimeo t
    → in_queue l.ptr t.queue ≡ l.timeoq
    → t.maxseq + 1 < bmapseq_any
    → IsTimeo (granted l t) × ((mdsi bte_add l t).0 ≡ t.maxseq + 1)
unfolding mdsi requeue
granted-IsTimeo l t h m b =
    let t1 : Timeo = getnextseq t in
    let (h2, n2, m2) =
      taken_off_lem l t1 (getnextseq-IsTimeo t b h)
        (ap (in_queue l.ptr) (queue-getnextseq t) ∙ m) in
    let top : t1.maxseq ≡ t.maxseq + 1 = maxseq-getnextseq t ∙ next_seq-suc t.maxseq b in
    let t2 : Timeo = taken_off l t1 in
    let same : (granted l t).queue ≡ t2.queue ++ (record { ptr = l.ptr; seq = t1.maxseq } ∷ []) =
      set_seq-snoc l.ptr t1.maxseq l.seq t2.queue n2 in
    (
      record {
        order =
            rw (same, m2)
              (Between-snoc t2.minseq t2.maxseq t1.maxseq l.ptr t2.queue h2.order
                (omega (arith, m2)));
        once = rw same (Once-snoc t2.queue (record { ptr = l.ptr; seq = t1.maxseq }) h2.once n2);
      },
      top,
    )
