-- ===== src/Replay/Seq.antt =====
-- The sequence numbers that are recovered from the journal.
use slash.Prelude.{ℕ, ◌≡◌, refl, ◌≤◌, List, [], ◌∷◌, ◌++◌, ltb, if◌then◌else◌, arith}
use slash.Replay.{BmapSeq, Cursor, replay_bmap_seq, replay_seqs}

-- The greater of two numbers, and of the marks of an entry and a cursor.
abbrev pub greater : ℕ → ℕ → ℕ
greater a b = if ltb a b then b else a

unfoldable pub highest : (BmapSeq → ℕ) → List BmapSeq → ℕ → ℕ
highest f [] n = n
highest f (e ∷ es) n = greater (highest f es n) (f e)

abbrev hwm : BmapSeq → ℕ
hwm e = e.high_wm

abbrev lwm : BmapSeq → ℕ
lwm e = e.low_wm

highest-push :
    (f : BmapSeq → ℕ) (es : List BmapSeq) (n m : ℕ)
    → highest f es (greater n m) ≡ greater (highest f es n) m
unfolding highest
highest-push f [] n m = refl
highest-push f (e ∷ es) n m = ground (arith, highest-push f es n m)

-- A replay raises each mark of the cursor to the highest of the log.
pub replay_seqs-highest :
    (es : List BmapSeq) (c : Cursor)
    → replay_seqs es c
      ≡ record { seqno_hwm = highest hwm es c.seqno_hwm; seqno_lwm = highest lwm es c.seqno_lwm }
unfolding replay_seqs replay_bmap_seq highest
replay_seqs-highest [] c = refl
replay_seqs-highest (e ∷ es) c = ground (
  arith,
  replay_seqs-highest es (replay_bmap_seq e c),
  highest-push hwm es c.seqno_hwm e.high_wm,
  highest-push lwm es c.seqno_lwm e.low_wm,
)

highest-ge : (f : BmapSeq → ℕ) (es : List BmapSeq) (n : ℕ) → n ≤ highest f es n
unfolding highest
highest-ge f [] n = omega arith
highest-ge f (e ∷ es) n = ground (arith, highest-ge f es n)

highest-append :
    (f : BmapSeq → ℕ) (xs ys : List BmapSeq) (n : ℕ)
    → highest f (xs ++ ys) n ≡ greater (highest f xs n) (highest f ys n)
unfolding highest
highest-append f [] ys n = ground (arith, highest-ge f ys n)
highest-append f (x ∷ xs) ys n = ground (arith, highest-append f xs ys n)

highest-restart :
    (f : BmapSeq → ℕ) (xs ys : List BmapSeq) (n : ℕ)
    → highest f (xs ++ (xs ++ ys)) n ≡ highest f (xs ++ ys) n
highest-restart f xs ys n =
    ground (arith, highest-append f xs (xs ++ ys) n, highest-append f xs ys n)

-- A recovery that was interrupted after a part of the log and then starts over from the beginning, with
-- the cursor it had come to, ends with the same marks as one that was not interrupted.
pub replay_seqs-restart :
    (xs ys : List BmapSeq) (c : Cursor)
    → replay_seqs (xs ++ (xs ++ ys)) c ≡ replay_seqs (xs ++ ys) c
replay_seqs-restart xs ys c = ground (
  arith,
  replay_seqs-highest (xs ++ (xs ++ ys)) c,
  replay_seqs-highest (xs ++ ys) c,
  highest-restart hwm xs ys c.seqno_hwm,
  highest-restart lwm xs ys c.seqno_lwm,
)
