-- ===== src/Listener/Tests.antt =====
-- A port bound by a server, and a set with a listener that someone else holds.
use h.Base.{ℕ, refl, Bool, true, false, Option, none, some, [], ◌∷◌, ◌==◌, if◌then◌else◌, arith}
use h.Errno.{ok}
use h.Links.{Links, list_add}
use h.Links.Joins.{last, IsRing}
use h.Links.Insert.{list_add_lem}
use h.Client.Ends.{Ends}
use h.Listener.{LsnOps, Listener, Listeners, lsn_set_kill_unref, bind_port}
use h.Listener.Valid.{no_more, IsLsnSet}
use h.Listener.Members.{Added, owned, bind_port_lem}
use h.Listener.Drain.{Held, held, Drained, lsn_set_kill_unref_lem}

abbrev ops : LsnOps
ops = record { init = true; fin = true; set_port = true; kill = false; new_cli = true }

abbrev alone : Links
alone = record { next = λ q. q; prev = λ q. q }

alone-IsRing : IsRing alone 1 []
alone-IsRing = record {
  joins = last refl refl;
  distinct = (tt, tt);
  real = ((λ e. absurd (omega arith)), tt);
}

abbrev only_set : ℕ → Option (ℕ × Bool)
only_set q = if q == 1 then some (1, false) else none

abbrev empty_world : Listeners
empty_world = record { links = alone; listeners = λ q. none; sets = only_set; calls = [] }

empty_world-IsLsnSet : IsLsnSet empty_world 1 1 []
empty_world-IsLsnSet = record { ring = alone-IsRing; free = refl; members = no_more }

bind_port_lem_example :
    Ends (Added empty_world 1 1 2 (owned 9 0 ops) []) (bind_port true 9 1 2 0 ops ok empty_world)
bind_port_lem_example =
    bind_port_lem empty_world 9 1 1 2 0 ops [] empty_world-IsLsnSet (λ e. absurd (omega arith))
      ((λ e. absurd (omega arith)), tt)

abbrev shared_listener : Listener
shared_listener = record { ref_count = 2; lset = 0; ops = some ops; server = 9 }

abbrev shared_world : Listeners
shared_world = record {
  links = list_add 2 1 alone;
  listeners = λ q. if q == 2 then some shared_listener else none;
  sets = only_set;
  calls = [];
}

shared-IsRing : IsRing shared_world.links 1 (2 ∷ [])
shared-IsRing =
    list_add_lem alone 2 1 [] alone-IsRing (λ e. absurd (omega arith))
      ((λ e. absurd (omega arith)), tt)

shared-Held : Held shared_world.listeners (2 ∷ [])
shared-Held = held {l = shared_listener} refl refl (omega arith) Held.no_more

lsn_set_kill_unref_lem_example :
    Ends (Drained shared_world 1 1 (2 ∷ [])) (lsn_set_kill_unref 2 1 shared_world)
lsn_set_kill_unref_lem_example =
    lsn_set_kill_unref_lem shared_world 2 1 1 (2 ∷ []) (omega arith) shared-IsRing shared-Held refl
      (omega arith)
