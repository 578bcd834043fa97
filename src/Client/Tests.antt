-- ===== src/Client/Tests.antt =====
-- A set of clients, empty and with one member.
use h.Base.{
  ℕ, ◌≡◌, refl, Bool, true, false, Option, none, some, [], ◌∷◌, ◌==◌, if◌then◌else◌, arith,
}
use h.Errno.{minus, einval}
use h.Links.{Links, list_add}
use h.Links.Joins.{last, IsRing}
use h.Links.Insert.{list_add_lem}
use h.Client.{
  Ops, Client, kill_call, World, deadlock, client_set_add, client_set_kill_unref, client_kill_unref,
  client_alloc,
}
use h.Client.Ends.{Ends}
use h.Client.Valid.{no_more, member, IsClientSet}
use h.Client.Members.{Added, client_set_add_lem}
use h.Client.Unref.{Dropped, client_kill_unref_lem}
use h.Client.Kill.{client_set_kill_unref-deadlock}
use h.Client.Alloc.{Allocated, client_alloc_lem}

abbrev all_ops : Ops
all_ops = record { init = true; fin = true; kill = true; attach = false }

abbrev a_client : ℕ → Client
a_client cs = record { ref_count = 1; cs = cs; sched = 0; ops = some all_ops }

-- Every node alone.
abbrev alone : Links
alone = record { next = λ q. q; prev = λ q. q }

alone-IsRing : IsRing alone 1 []
alone-IsRing = record {
  joins = last refl refl;
  distinct = (tt, tt);
  real = ((λ e. absurd (omega arith)), tt);
}

abbrev only_client : Client → ℕ → Option Client
only_client c q = if q == 2 then some c else none

abbrev only_set : ℕ → Option (ℕ × Bool)
only_set q = if q == 1 then some (1, false) else none

abbrev empty_world : World
empty_world = record {
  links = alone;
  clients = only_client (a_client 0);
  sets = only_set;
  client_objs = 1;
  calls = [];
}

empty_world-IsClientSet : IsClientSet empty_world 1 1 []
empty_world-IsClientSet = record {
  ring = alone-IsRing;
  free = refl;
  counted = omega arith;
  members = no_more;
}

abbrev one_link : Links
one_link = list_add 2 1 alone

one_link-IsRing : IsRing one_link 1 (2 ∷ [])
one_link-IsRing =
    list_add_lem alone 2 1 [] alone-IsRing (λ e. absurd (omega arith))
      ((λ e. absurd (omega arith)), tt)

abbrev one_member : World
one_member = record empty_world { links = one_link; clients = only_client (a_client 1) }

one_member-IsClientSet : IsClientSet one_member 1 1 (2 ∷ [])
one_member-IsClientSet = record {
  ring = one_link-IsRing;
  free = refl;
  counted = omega arith;
  members = member {c = a_client 1} refl refl (omega arith) no_more;
}

client_set_add_lem_example :
    Ends (Added empty_world 1 1 2 (a_client 0) []) (client_set_add 1 2 empty_world)
client_set_add_lem_example =
    client_set_add_lem empty_world 1 1 2 (a_client 0) [] empty_world-IsClientSet
      (λ e. absurd (omega arith)) ((λ e. absurd (omega arith)), tt) refl refl (omega arith)

client_kill_unref_lem_example :
    Ends
      (Dropped one_member 1 1 2 (a_client 1) [] (kill_call 2 ∷ []))
      (client_kill_unref 2 one_member)
client_kill_unref_lem_example =
    client_kill_unref_lem one_member 1 1 2 (a_client 1) [] [] one_member-IsClientSet refl

client_set_kill_unref-deadlock_example : client_set_kill_unref 3 1 one_member ≡ deadlock
client_set_kill_unref-deadlock_example =
    client_set_kill_unref-deadlock one_member 2 1 1 2 [] one_member-IsClientSet

client_alloc_lem_example :
    Ends
      (Allocated empty_world 3 (some all_ops) (minus einval))
      (client_alloc true 3 (some all_ops) (minus einval) empty_world)
client_alloc_lem_example =
    client_alloc_lem empty_world 3 (some all_ops) (minus einval) (λ e. absurd (omega arith))
      (omega arith)
