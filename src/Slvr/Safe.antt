-- ===== src/Slvr/Safe.antt =====
-- What holds of the cache of slivers after any sequence of steps.
use slash.Prelude.{
  ℕ, ◌≡◌, ◌≢◌, Option, none, some, Bool, true, false, if◌then◌else◌, arith, Option-cases, inl, inr,
}
use slash.Slvr.{Slvr, SlvrCache, lc_remove, rio_unlock, wio_unlock}
use slash.SlvrCrc.{CrcSlot, proc_slvr}
use slash.Slvr.Users.{
  Sys, count, Step, looked_up, prepared, turned_away, ended, failed, read_done, write_done, reaped,
  marked, removed, then_remove, took, worked, Steps, here, next,
}
use slash.Slvr.Fits.{view, IsCache, at_some, at_none}
use slash.Slvr.Use.{
  looked_up-IsCache, prepared-IsCache, turned_away-IsCache, ended-IsCache, failed-IsCache,
}
use slash.Slvr.Leave.{Unlocks, remove-IsCache, rio_unlock-IsCache, wio_unlock-IsCache}
use slash.Slvr.Thread.{took-IsCache, worked-IsCache, marked-IsCache, proc_slvr_lem, worked_cache}
use slash.Slvr.Reap.{reap-IsCache}

-- What a release up to the unlock comes to is what it leaves.
unlock_same :
    (y : Sys) (i : ℕ) (o : Option (SlvrCache × Bool)) (c : SlvrCache) (gone : Bool)
    → Unlocks y i o
    → o ≡ some (c, gone)
    → IsCache (record y { cache = c; removing = then_remove gone i y.removing })
unlock_same y i o c gone (c', x, e', h') e =
    let same : c ≡ c' = ground (arith, e, e') in
    let flag : gone ≡ x = ground (arith, e, e') in rw (same, flag) h'

pub Step-IsCache : (y z : Sys) → Step y z → IsCache y → IsCache z
Step-IsCache y z (looked_up i c e) h = looked_up-IsCache y i c h e
Step-IsCache y z (prepared i s whole ahead e f d w) h = prepared-IsCache y i s whole ahead h e f d w
Step-IsCache y z (turned_away i s whole ahead e f d w) h =
    turned_away-IsCache y i s whole ahead h e d w f
Step-IsCache y z (ended i s rc e w) h = ended-IsCache y i s rc h e w
Step-IsCache y z (failed i s rc e w r) h = failed-IsCache y i s rc h e w r
Step-IsCache y z (read_done i c gone w e) h =
    unlock_same (record y { leaving = lc_remove i y.leaving }) i (rio_unlock i y.cache) c gone
      (rio_unlock-IsCache y i h w) e
Step-IsCache y z (write_done now i repl c gone w e) h =
    unlock_same (record y { leaving = lc_remove i y.leaving }) i (wio_unlock now repl i y.cache) c
      gone (wio_unlock-IsCache y i h w now repl) e
Step-IsCache y z (reaped free most o) h = reap-IsCache y free most o h
Step-IsCache y z (marked i s e f n) h = marked-IsCache y i s h e f n
Step-IsCache y z (removed i r) h = remove-IsCache y i h r
Step-IsCache y z (took i expire s e q r f t) h = took-IsCache y i s h e q r f
Step-IsCache y z (worked crc i k k' c w p) h = worked-IsCache y crc i k k' c h w p

pub Steps-IsCache : (y z : Sys) → Steps y z → IsCache y → IsCache z
Steps-IsCache y z here h = h
Steps-IsCache y z (next m w p q) h = Step-IsCache m w q (Steps-IsCache y m p h)

-- After any such sequence of steps no two users are inside a sliver, none is while the thread works on it,
-- and a user that is inside finds the sliver there, without an error and with a reference.
pub inside-Steps :
    (y z : Sys) (i : ℕ)
    → IsCache y
    → Steps y z
    → count i z.inside ≢ 0
    → (s : Slvr) × (z.cache.slvrs i ≡ some s)
      × (s.refcnt ≢ 0)
      × (s.dataerr ≡ false)
      × (count i z.inside ≡ 1)
      × (count i z.at_work ≡ 0)
inside-Steps y z i h p w =
    let h' = Steps-IsCache y z p h in
    elim (Option-cases (z.cache.slvrs i)) [
      | inl a ↦ absurd (ground (arith, at_none (view z i) a (h' i)))
      | inr (s, a) ↦
          let g = at_some (view z i) s a (h' i) in
          (s, a, ground (arith, g), ground (arith, g), ground (arith, g), ground (arith, g))
    ]

-- After any such sequence of steps a user whose I/O has ended can give its sliver back, after a read and
-- after a write, up to where it drops the lock, without a failed assertion.
pub release-Steps :
    (y z : Sys) (i now : ℕ) (repl : Bool)
    → IsCache y
    → Steps y z
    → count i z.leaving ≢ 0
    → ((r : SlvrCache × Bool) × (rio_unlock i z.cache ≡ some r))
      × ((r : SlvrCache × Bool) × (wio_unlock now repl i z.cache ≡ some r))
release-Steps y z i now repl h p w =
    let h' = Steps-IsCache y z p h in
    let (c, x, e, _) = rio_unlock-IsCache z i h' w in
    let (d, q, f, _) = wio_unlock-IsCache z i h' w now repl in (((c, x), e), ((d, q), f))

-- After any such sequence of steps the thread that computes checksums fails an assertion on a sliver that
-- it has taken exactly if an I/O error was recorded on the sliver; otherwise it records the checksum
-- and gives the sliver back to the LRU list, clean and not faulting.
pub proc-Steps :
    (y z : Sys) (crc i : ℕ) (k : CrcSlot)
    → IsCache y
    → Steps y z
    → count i z.at_work ≢ 0
    → (s : Slvr) × (z.cache.slvrs i ≡ some s)
      × (proc_slvr crc i k z.cache ≡ (
          if s.dataerr
          then none
          else some (
            worked_cache i s z.cache,
            record k { value = crc; has_data = true; has_crc = true },
          )))
proc-Steps y z crc i k h p w = proc_slvr_lem z crc i k (Steps-IsCache y z p h) w
