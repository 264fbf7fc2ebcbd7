-- ===== src/ReplWork/Complete.antt =====
-- Work that is reported without an error has copied every sliver.
use slash.Prelude.{
  ℕ, zero, suc, ◌+◌, ◌≡◌, ◌≢◌, ◌<◌, ◌≤◌, refl, List, [], ◌∷◌, none, some, Bool, true, false, not,
  ◌&&◌, ◌||◌, ◌==◌, length, if◌then◌else◌, arith, Bool-cases, inl, inr,
}
use slash.Residency.{arr_set}
use slash.Slvr.{lc_remove}
use slash.Slvr.Users.{count}
use slash.Slvr.Fits.{count-lc_remove, one}
use slash.ReplWork.{
  Work, replwk_queue, is_marked, addwk, portable_rc, replwkrq_decref, find_want, read_done,
}

length-lc_remove : (i : ℕ) (q : List ℕ) → count i q ≢ 0 → length (lc_remove i q) + 1 ≡ length q
unfolding count lc_remove
length-lc_remove i [] h = absurd (ground arith)
length-lc_remove i (j ∷ q) h = ground (arith, length-lc_remove i q)

pub find_want-none :
    (want : ℕ → Bool) (n i k : ℕ) → find_want want n i ≡ none → i ≤ k → k < i + n → want k ≡ false
unfolding find_want
find_want-none want zero i k h a b = absurd (omega arith)
find_want-none want (suc n) i k h a b = elim (Bool-cases (i == k)) [
  | inl e ↦ let same : i ≡ k = ground arith in rw (← same) (ground arith)
  | inr e ↦ find_want-none want n (i + 1) k (ground arith) (ground (arith, e)) (omega arith)
]

-- Whether a sliver still has to be copied, by the work's own account.
abbrev pub is_open : Work → ℕ → Bool
is_open w i = w.want i || not (count i w.slots == 0)

abbrev pub is_clean : Work → Bool
is_clean w = w.status == 0 && not w.ptrunc

-- The references are the queue's and those of the reads under way, the work is reported when there are
-- none left; each sliver of work without an error is wanted, being read or copied, and all are copied
-- when it is reported.
pub record IsWork (w : Work) : Type 0 where
  pub refs : w.refcnt ≡ one w.queued + length w.slots
  pub gone : w.reported ≡ (w.refcnt == 0)
  pub marked :
      (i : ℕ) → (is_clean w && is_marked w.len i) ≡ true → (is_open w i || w.copied i) ≡ true
  pub final : (i : ℕ) → (w.reported && is_clean w && is_marked w.len i) ≡ true → w.copied i ≡ true

pub addwk-IsWork : (ptrunc : Bool) (len : ℕ) → IsWork (addwk ptrunc len)
unfolding addwk replwk_queue count
addwk-IsWork ptrunc len = record {
  refs = ground arith;
  gone = ground arith;
  marked = λ i h. ground arith;
  final = λ i h. ground arith;
}

-- A read that ends.
pub read_done-IsWork :
    (timedout rc i : ℕ) (w : Work)
    → (timedout == 0) ≡ false
    → IsWork w
    → count i w.slots ≢ 0
    → (w' : Work) × (read_done timedout rc i w ≡ some w')
      × IsWork w'
      × ((w'.len ≡ w.len) × (w'.ptrunc ≡ w.ptrunc))
unfolding read_done replwk_queue replwkrq_decref
read_done-IsWork timedout rc i w t h c =
    let p = portable_rc timedout rc in
    let w' : Work = record w {
      slots = lc_remove i w.slots;
      copied = if rc == 0 then arr_set w.copied i true else w.copied;
      queued = true;
      refcnt = length w.slots;
      status = if not (p == 0) && w.status == 0 then p else w.status;
      reported = false;
    } in
    let l = length-lc_remove i w.slots c in
    (
      w',
      ground (arith, h.refs, h.gone, l),
      record {
        refs = ground (arith, l);
        gone = ground (arith, l);
        marked = λ k m. elim (Bool-cases (i == k)) [
          | inl e ↦ ground (arith, h.marked k, count-lc_remove k i w.slots, e)
          | inr e ↦ ground (arith, h.marked k, count-lc_remove k i w.slots, e)
        ];
        final = λ k m. absurd (ground arith);
      },
      (refl, refl),
    )
