-- ===== src/H6Listener/Tests.antt =====
-- A listener without a port and one that is served.
use h.Base.{
  ℕ, zero, suc, List, ◌≡◌, refl, true, false, Option, none, some, [], ◌∷◌, ◌==◌, if◌then◌else◌,
  arith,
}
use h.Errno.{ok, eagain}
use h.UnixSock.{Sock, fd, failed}
use h.Sched.{Sched, weight_at}
use h.Client.Ends.{Ends}
use h.H6Listener.{H6Listener, H6ListenerOps, Host, h6_listener_set_port}
use h.H6Listener.Ports.{PortSet, h6_listener_set_port_lem}
use h.H6Listener.Fin.{HasRoom, AfterPort, AfterRelease, free-set_port, free-released}
use h.H6Listener.Events.{serve, Lost, serve-Lost}

abbrev ops : H6ListenerOps
ops = record { init = false; fin = true; new_cli = true }

abbrev listener : Option H6ListenerOps → H6Listener
listener o = record { port = 0; host = 0; sock = none; event = 0; ops = o; owner = true }

abbrev one_loop : Sched
one_loop = record { loops = 0 ∷ []; total_weight = 0; w_list = [] }

abbrev host : Option H6ListenerOps → Host
host o = record {
  listeners = λ q. if q == 1 then some (listener o) else none;
  events = λ q. none;
  fds = λ q. false;
  sched = some one_loop;
  calls = [];
}

h6_listener_set_port_lem_example :
    Ends
      (PortSet (host none) 1 7000 5 (listener none))
      (h6_listener_set_port 1 7000 5 (fd 4) ok (host none))
h6_listener_set_port_lem_example =
    h6_listener_set_port_lem (host none) 1 7000 5 (fd 4) ok (listener none) refl refl
      (omega arith, refl)

weights : (i : ℕ) → weight_at (0 ∷ []) i ≡ 0
weights zero = refl
weights (suc i) = refl

one_loop-HasRoom : HasRoom one_loop
one_loop-HasRoom = record {
  valid = record { each = weights; sums = refl; total = refl; placed = tt; small = omega arith };
  loops = omega arith;
  total = omega arith;
}

free-set_port_example :
    Ends
      (AfterPort (host (some ops)) 1 5)
      (h6_listener_set_port 1 7000 5 (fd 4) ok (host (some ops)))
free-set_port_example =
    free-set_port (host (some ops)) 1 7000 5 (fd 4) ok (listener (some ops)) one_loop refl refl
      (omega arith, refl) refl one_loop-HasRoom refl (λ e. absurd (omega arith))

free-released_example :
    Ends (AfterRelease 1 5) (h6_listener_set_port 1 7000 5 (fd 4) ok (host (some ops)))
free-released_example =
    free-released (host (some ops)) 1 7000 5 (fd 4) ok (listener (some ops)) one_loop refl refl
      (omega arith, refl) refl one_loop-HasRoom refl (λ e. absurd (omega arith))
      (λ e. absurd (omega arith))

abbrev answers : List Sock
answers = fd 6 ∷ failed eagain ∷ fd 7 ∷ []

serve-Lost_example : Ends (Lost (host none) answers) (serve (λ s. 9) 1 answers (host none))
serve-Lost_example = serve-Lost (λ s. 9) 1 answers (host none) (listener none) refl refl (refl, tt)
