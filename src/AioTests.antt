-- ===== src/AioTests.antt =====
-- The theorems on asynchronous reads at a small concrete state.
use slash.Prelude.{◌≡◌, refl, [], ◌∷◌, none, some, true, false, ◌==◌, if◌then◌else◌}
use slash.Slvr.{Slvr, new_slvr}
use slash.SlvrAio.{AioReply, AioSite, aio_attach, fsaio_done, fsaio_slvr}
use slash.SlvrAio.Order.{IsWaiting, fsaio_done-lost}

abbrev busy : Slvr
busy = record new_slvr { faulting = true }

abbrev site : AioSite
site = record {
  cache = record {
    slvrs = λ i. if i == 3 then some busy else if i == 4 then some busy else none;
    lruslvrs = 3 ∷ (4 ∷ []);
    crcqslvrs = [];
  };
  aioreply = λ i. none;
  sent = [];
}

abbrev reply : AioReply
reply = record {
  id = 21;
  slvrs = 3 ∷ (4 ∷ []);
  read = true;
  repl = false;
  has_csvc = true;
  new_req = true;
}

waiting : IsWaiting site 3 4 busy busy
waiting = record {
  ne = refl;
  at_i = refl;
  at_j = refl;
  busy_i = refl;
  busy_j = refl;
  fresh_i = refl;
  fresh_j = refl;
  none_j = refl;
}

fsaio_done-lost_example :
    (y1 : AioSite) × (y2 : AioSite) × (fsaio_done 5 0 3 (aio_attach reply reply.slvrs site).0
      ≡ some y1)
    × (fsaio_done 5 0 4 y1 ≡ some y2)
    × (y2.sent ≡ site.sent)
    × (y2.aioreply 3 ≡ none)
    × (y2.aioreply 4 ≡ none)
    × (y2.cache.slvrs 3 ≡ some (fsaio_slvr 0 busy))
    × (y2.cache.slvrs 4 ≡ some (fsaio_slvr 0 busy))
fsaio_done-lost_example = fsaio_done-lost 5 0 0 3 4 reply site busy busy refl waiting
