-- ===== src/Slvr/Race.antt =====
-- Two threads that remove one sliver: `slvr_lru_tryunpin_locked` drops the lock of a sliver with an
-- error before it removes it, and leaves it unmarked on the LRU list, where the reaper finds it.
use slash.Prelude.{ℕ, ◌-◌, ◌≡◌, List, [], ◌∷◌, some, Bool, true, false, arith}
use slash.Slvr.{Slvr, SlvrCache, put_slvr, slvr_tryunpin, rio_unlock, reap_scan}

-- The last user of a clean sliver with an error, the oldest of the LRU list, gives it back: it is to
-- remove the sliver, and a reaper that gets the lock of the sliver first collects the same sliver to
-- remove it too.
pub rio_unlock-twice :
    (i : ℕ) (is : List ℕ) (s : Slvr) (c : SlvrCache) (free : ℕ → Bool)
    → c.slvrs i ≡ some s
    → s.refcnt ≡ 1
    → s.dataerr ≡ true
    → s.freeing ≡ false
    → s.crcdirty ≡ false
    → c.lruslvrs ≡ i ∷ is
    → free i ≡ true
    → (c1 : SlvrCache) × (rio_unlock i c ≡ some (c1, true))
      × ((reap_scan free 1 c1.lruslvrs [] c1).1 ≡ i ∷ [])
unfolding rio_unlock slvr_tryunpin reap_scan
rio_unlock-twice i is s c free e r d f n l o =
    let c1 = put_slvr i (record s { refcnt = s.refcnt - 1 }) c in
    (c1, ground (arith, e, r, d, n), ground (arith, e, r, f, l, o))
