-- ===== src/NetClient/Sent.antt =====
-- `network_client_send_mb` of a client that is not killed.
use h.Base.{◌+◌, ◌-◌, ◌<◌, ◌≡◌, refl, true, false, ◌==◌, arith}
use h.Base.Yields.{Yields}
use h.Errno.{Code}
use h.MemBlock.{MemBlock}
use h.ProtoWatch.Wrote.{Wrote}
use h.Client.{Outcome, done}
use h.Client.Ends.{Ends}
use h.NetClient.{NetClient, wakes, drop_watch}

-- A client that is not killed, with its watch.
pub record Connected {Net : Type 0} (s : NetClient Net) : Type 0 where
  pub living : s.killed ≡ false
  pub has : s.has_watch ≡ true
  pub client : s.client_alive ≡ true
  pub watch : s.watch_alive ≡ true
  pub counted : 0 < s.watch_refs

pub drop_watch-shared :
    {Net : Type 0} (f : NetClient Net → Outcome (NetClient Net)) (s : NetClient Net)
    → s.watch_alive ≡ true
    → 1 < s.watch_refs
    → drop_watch f s ≡ done (record s { watch_refs = s.watch_refs - 1 })
unfolding drop_watch
drop_watch-shared f s alive more =
    let some_refs : (s.watch_refs == 0) ≡ false = ground arith in
    let not_last : (s.watch_refs == 1) ≡ false = ground arith in
    rw (alive, some_refs, not_last) refl

-- What a send leaves: what the watch's write leaves of the watch, the reference of a request to its
-- loop, and all else as it was.
pub record SentBlock {Net : Type 0} (s : NetClient Net) (mb : MemBlock) (r : Code × NetClient Net)
    : Type 0 where
  pub wrote : Wrote s.watch mb (r.0, r.1.watch)
  pub client_refs : r.1.client_refs ≡ s.client_refs
  pub watch_refs : r.1.watch_refs ≡ s.watch_refs + wakes s.watch r.1.watch
  pub freed : r.1.freed ≡ s.freed
  pub connected : Connected r.1
