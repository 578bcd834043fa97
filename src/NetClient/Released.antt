-- ===== src/NetClient/Released.antt =====
-- Killing a client, and the end of the client and its watch.
use h.Base.{ℕ, zero, suc, ◌+◌, ◌-◌, ◌<◌, ◌≡◌, refl, true, false, ◌∷◌, if◌then◌else◌}
use h.ProtoWatch.{kill}
use h.Client.{Outcome, done, ◌>>=◌}
use h.Client.Ends.{Ends}
use h.NetClient.{
  nc_kill, nc_fin, NetClient, requested, fin_self, kill_watch, unref_client, proto_watch_unref,
  network_client_self_kill, network_client_kill,
}
use h.NetClient.Sent.{Connected, drop_watch-shared}

-- The event loops let go of the watch.
abbrev pub let_go : {Net : Type 0} → ℕ → NetClient Net → Outcome (NetClient Net)
let_go zero s = done s
let_go (suc k) s = proto_watch_unref s >>= let_go k

-- Both are freed, `fin` was called once, and the watch keeps no block.
pub record Gone {Net : Type 0} (s r : NetClient Net) : Type 0 where
  pub client : r.client_alive ≡ false
  pub watch : r.watch_alive ≡ false
  pub calls : r.calls ≡ (if s.has_fin then nc_fin ∷ s.calls else s.calls)
  pub watch_after : r.watch ≡ fin_self s.watch

-- A killed client that only its watch holds.
record Lingers {Net : Type 0} (k : ℕ) (s : NetClient Net) : Type 0 where
  pub client : s.client_alive ≡ true
  pub client_refs : s.client_refs ≡ 1
  pub has : s.has_watch ≡ false
  pub watch : s.watch_alive ≡ true
  pub watch_refs : s.watch_refs ≡ k

pub proto_watch_unref-shared :
    {Net : Type 0} (s : NetClient Net)
    → s.watch_alive ≡ true
    → 1 < s.watch_refs
    → proto_watch_unref s ≡ done (record s { watch_refs = s.watch_refs - 1 })
unfolding proto_watch_unref
proto_watch_unref-shared s alive more = drop_watch-shared unref_client s alive more

-- The watch's last reference.
abbrev gone : {Net : Type 0} → NetClient Net → NetClient Net
gone s = record s {
  client_refs = 0;
  client_alive = false;
  watch = fin_self s.watch;
  watch_refs = 0;
  watch_alive = false;
  calls = if s.has_fin then nc_fin ∷ s.calls else s.calls;
}

-- The client behind the kill.
abbrev pub killed_client : {Net : Type 0} → NetClient Net → NetClient Net
killed_client s = record s {
  killed = true;
  has_watch = false;
  watch = (kill s.watch).0;
  watch_refs = s.watch_refs + requested (kill s.watch).1;
  calls = if s.has_kill then nc_kill ∷ s.calls else s.calls;
}

pub kill_lem :
    {Net : Type 0} (s : NetClient Net)
    → Connected s
    → network_client_kill s ≡ proto_watch_unref (killed_client s)
unfolding network_client_kill network_client_self_kill kill_watch
kill_lem s connected = rw (connected.living, connected.has, connected.watch) refl
