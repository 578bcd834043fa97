-- ===== src/Server/Tests.antt =====
-- A server with one listener that someone else holds, and one without listeners.
use h.Base.{
  ℕ, ◌≡◌, refl, Bool, true, false, Option, none, some, [], ◌∷◌, ◌==◌, if◌then◌else◌, arith,
}
use h.Links.{Links, list_add}
use h.Links.Joins.{last, IsRing}
use h.Links.Insert.{list_add_lem}
use h.Client.{World, fault}
use h.Client.Ends.{Ends}
use h.Listener.{LsnOps, Listener, Listeners}
use h.Listener.Valid.{no_more, member, IsLsnSet}
use h.Listener.Removed.{Removed}
use h.Listener.Drain.{Held, held}
use h.Server.{Server, remove_port, h6_server_kill_unref}
use h.Server.Ports.{remove_port_lem}
use h.Server.Life.{IsQuiet, Killed, h6_server_kill_unref_lem, h6_server_kill_unref-last}

abbrev alone : Links
alone = record { next = λ q. q; prev = λ q. q }

alone-IsRing : IsRing alone 1 []
alone-IsRing = record {
  joins = last refl refl;
  distinct = (tt, tt);
  real = ((λ e. absurd (omega arith)), tt);
}

abbrev ops : LsnOps
ops = record { init = true; fin = true; set_port = true; kill = false; new_cli = true }

abbrev shared : Listener
shared = record { ref_count = 2; lset = 0; ops = some ops; server = 9 }

abbrev only_set : ℕ → Option (ℕ × Bool)
only_set q = if q == 1 then some (1, false) else none

abbrev one_listener : Listeners
one_listener = record {
  links = list_add 2 1 alone;
  listeners = λ q. if q == 2 then some shared else none;
  sets = only_set;
  calls = [];
}

abbrev no_clients : World
no_clients = record {
  links = alone;
  clients = λ q. none;
  sets = only_set;
  client_objs = 0;
  calls = [];
}

abbrev server : ℕ → Server
server refs = record {
  refs = refs;
  alive = true;
  has_ops = true;
  run = false;
  sched = false;
  lsn_set = 1;
  cli_set = 1;
  scheds = 0;
  listeners = one_listener;
  clients = no_clients;
}

one-IsRing : IsRing one_listener.links 1 (2 ∷ [])
one-IsRing =
    list_add_lem alone 2 1 [] alone-IsRing (λ e. absurd (omega arith))
      ((λ e. absurd (omega arith)), tt)

server-IsQuiet : (refs : ℕ) → IsQuiet (server refs) 1 1 (2 ∷ [])
server-IsQuiet refs = record {
  ops = refl;
  alive = refl;
  listeners = one-IsRing;
  held = held {l = shared} refl refl (omega arith) Held.no_more;
  lsn_free = refl;
  lsn_pos = omega arith;
  clients = alone-IsRing;
  cli_free = refl;
  cli_pos = omega arith;
}

abbrev port_of : ℕ → ℕ
port_of q = if q == 2 then 7000 else 0

one-IsLsnSet : IsLsnSet one_listener 1 1 (2 ∷ [])
one-IsLsnSet = record {
  ring = one-IsRing;
  free = refl;
  members = member {l = shared} refl (omega arith) no_more;
}

remove_port_lem_example :
    Ends (Removed one_listener 1 1 2 shared []) (remove_port 2 port_of 1 7000 one_listener)
remove_port_lem_example =
    remove_port_lem one_listener port_of 2 1 1 7000 2 shared [] [] one-IsLsnSet (omega arith) refl
      refl refl

h6_server_kill_unref_lem_example :
    Ends (Killed (server 1) 1 1 (2 ∷ [])) (h6_server_kill_unref 2 (server 2))
h6_server_kill_unref_lem_example =
    h6_server_kill_unref_lem (server 2) 1 1 1 (2 ∷ []) (server-IsQuiet 2) (omega arith)
      (omega arith)

h6_server_kill_unref-last_example : h6_server_kill_unref 2 (server 1) ≡ fault
h6_server_kill_unref-last_example =
    h6_server_kill_unref-last (server 1) 1 1 (2 ∷ []) (server-IsQuiet 1) (omega arith) refl

abbrev empty_server : Server
empty_server = record (server 0) { listeners = record one_listener { links = alone } }
