-- ===== src/NetClient/Made.antt =====
-- `network_client_new`.
use h.Base.{◌≡◌, refl, Bool, true, false, not, ◌&&◌, ◌||◌, Option, none, some, [], if◌then◌else◌}
use h.Errno.{Code, ok, minus, is_ok}
use h.ProtoWatch.{Socket, set_window, kill}
use h.Client.Ends.{Ends, ends}
use h.NetClient.{
  NetClient, fin_self, drop_watch, kill_watch, release_proto_watch, network_client_finalize,
  unref_client, proto_watch_unref, init_result, network_client_new,
}

-- Whether nothing fails: the size, the memory, the watch, and the client's `init`.
abbrev pub succeeds : (large memory made : Bool) → Option Code → Bool
succeeds large memory made none = large && (memory && made)
succeeds large memory made (some result) = large && (memory && (made && is_ok result))

-- What `network_client_new` leaves: a client and its watch, or neither.
pub record Made {Net : Type 0} (large memory made : Bool) (result : Option Code)
    (r : Bool × NetClient Net) : Type 0 where
  pub made_one : r.0 ≡ succeeds large memory made result
  pub client : r.1.client_alive ≡ succeeds large memory made result
  pub watch : r.1.watch_alive ≡ succeeds large memory made result
  pub has : r.1.has_watch ≡ succeeds large memory made result
  pub living : r.1.killed ≡ false
  pub client_refs : r.1.client_refs ≡ (if succeeds large memory made result then 2 else 0)
  pub watch_refs : r.1.watch_refs ≡ (if succeeds large memory made result then 1 else 0)
  pub calls : r.1.calls ≡ []
  pub io : r.1.watch.is_open ≡ (succeeds large memory made result || (large && not memory))

pub network_client_new_lem :
    {Net : Type 0} (large memory made : Bool) (io : Socket Net) (has_kill has_fin : Bool)
    (result : Option Code)
    → Ends
        (Made large memory made result)
        (network_client_new large memory made io has_kill has_fin result)
unfolding network_client_new init_result kill_watch proto_watch_unref drop_watch unref_client
    network_client_finalize release_proto_watch set_window kill fin_self
network_client_new_lem false memory made io has_kill has_fin none = ends (record {
  made_one = refl;
  client = refl;
  watch = refl;
  has = refl;
  living = refl;
  client_refs = refl;
  watch_refs = refl;
  calls = refl;
  io = refl;
})
network_client_new_lem false memory made io has_kill has_fin (some result) = ends (record {
  made_one = refl;
  client = refl;
  watch = refl;
  has = refl;
  living = refl;
  client_refs = refl;
  watch_refs = refl;
  calls = refl;
  io = refl;
})
network_client_new_lem true false made io has_kill has_fin none = ends (record {
  made_one = refl;
  client = refl;
  watch = refl;
  has = refl;
  living = refl;
  client_refs = refl;
  watch_refs = refl;
  calls = refl;
  io = refl;
})
network_client_new_lem true false made io has_kill has_fin (some result) = ends (record {
  made_one = refl;
  client = refl;
  watch = refl;
  has = refl;
  living = refl;
  client_refs = refl;
  watch_refs = refl;
  calls = refl;
  io = refl;
})
network_client_new_lem true true false io has_kill has_fin none = ends (record {
  made_one = refl;
  client = refl;
  watch = refl;
  has = refl;
  living = refl;
  client_refs = refl;
  watch_refs = refl;
  calls = refl;
  io = refl;
})
network_client_new_lem true true false io has_kill has_fin (some result) = ends (record {
  made_one = refl;
  client = refl;
  watch = refl;
  has = refl;
  living = refl;
  client_refs = refl;
  watch_refs = refl;
  calls = refl;
  io = refl;
})
network_client_new_lem true true true io has_kill has_fin none = ends (record {
  made_one = refl;
  client = refl;
  watch = refl;
  has = refl;
  living = refl;
  client_refs = refl;
  watch_refs = refl;
  calls = refl;
  io = refl;
})
network_client_new_lem true true true io has_kill has_fin (some ok) = ends (record {
  made_one = refl;
  client = refl;
  watch = refl;
  has = refl;
  living = refl;
  client_refs = refl;
  watch_refs = refl;
  calls = refl;
  io = refl;
})
network_client_new_lem true true true io has_kill has_fin (some (minus e)) = ends (record {
  made_one = refl;
  client = refl;
  watch = refl;
  has = refl;
  living = refl;
  client_refs = refl;
  watch_refs = refl;
  calls = refl;
  io = refl;
})
