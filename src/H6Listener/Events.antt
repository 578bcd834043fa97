-- ===== src/H6Listener/Events.antt =====
-- What a listener's event does with the connections that `accept` answers.
use h.Base.{
  ℕ, suc, ◌+◌, ◌≡◌, ◌≢◌, refl, ap, ◌∙◌, inl, inr, Bool, true, false, Bool-cases, Option, none, some,
  List, [], ◌∷◌, length, ◌==◌, ==-refl, arith,
}
use h.Errno.{eagain}
use h.UnixSock.{Sock, fd, failed, Fds, mark, unix_sock_tcp_accept}
use h.Client.{Outcome, done, ◌>>=◌}
use h.Client.Ends.{Ends, ends, Ends-bind, Ends-weaken}
use h.H6Listener.{
  H6Listener, H6ListenerOps, HostCall, add_client_call, Host, generate_client, h6_listener_on_event,
}

-- One event for each answer of `accept`, as long as the callback returns true.
abbrev more : (Host → Outcome Host) → Bool × Host → Outcome Host
more next (true, w) = next w
more next (false, w) = done w

pub serve : (Sock → ℕ) → ℕ → List Sock → Host → Outcome Host
serve new_cli p [] w = done w
serve new_cli p (s ∷ answers) w =
    h6_listener_on_event new_cli p false s w >>= more (serve new_cli p answers)

-- Answers that do not end the service.
abbrev pub AllServed : List Sock → Type 0
AllServed [] = Unit
AllServed (fd s ∷ answers) = AllServed answers
AllServed (failed e ∷ answers) = (e ≡ eagain) × AllServed answers

-- How often a client was added to the server.
abbrev pub adds : List HostCall → ℕ
adds [] = 0
adds (add_client_call c ∷ calls) = suc (adds calls)
adds (_ ∷ calls) = adds calls

abbrev pub Makes : Option H6ListenerOps → Type 0
Makes none = ⊥
Makes (some ops) = ops.new_cli ≡ true

-- One event.
record Served (w : Host) (r : Bool × Host) : Type 0 where
  pub on : r.0 ≡ true
  pub listeners : r.1.listeners ≡ w.listeners
  pub added : adds r.1.calls ≡ suc (adds w.calls)

event_lem :
    (new_cli : Sock → ℕ) (p : ℕ) (s : Sock) (w : Host) (lt : H6Listener) (o : Option H6ListenerOps)
    → ((s : Sock) → new_cli s ≢ 0)
    → w.listeners p ≡ some lt
    → lt.owner ≡ true
    → lt.ops ≡ o
    → Makes o
    → AllServed (s ∷ [])
    → Ends (Served w) (h6_listener_on_event new_cli p false s w)
unfolding h6_listener_on_event unix_sock_tcp_accept generate_client
event_lem new_cli p s w lt none makes alive owned same has good = absurd has
event_lem new_cli p (fd s) w lt (some ops) makes alive owned same has good =
    let there : (new_cli (fd s) == 0) ≡ false = ground (arith, makes (fd s)) in
    rw alive (
      rw same
        (rw has (rw (there, owned) (ends (record { on = refl; listeners = refl; added = refl })))))
event_lem new_cli p (failed e) w lt (some ops) makes alive owned same has good =
    let there : (new_cli (failed eagain) == 0) ≡ false = ground (arith, makes (failed eagain)) in
    rw (alive, good.0)
      (rw same
        (rw has (rw (there, owned) (ends (record { on = refl; listeners = refl; added = refl })))))

Served-first :
    (s : Sock) (answers : List Sock)
    → AllServed (s ∷ answers)
    → AllServed (s ∷ []) × AllServed answers
Served-first (fd s) answers all = (tt, all)
Served-first (failed e) answers all = ((all.0, tt), all.1)

-- Where the listener has a server and functions with a `new_cli` that never returns NULL, and `accept`
-- answers descriptors and `EAGAIN` alone: one event for each answer ends with as many clients added
-- to the server as there were answers. `EAGAIN`, which is no connection, makes a client as well.
pub serve_lem :
    (new_cli : Sock → ℕ) (p : ℕ) (answers : List Sock) (w : Host) (lt : H6Listener)
    (o : Option H6ListenerOps)
    → ((s : Sock) → new_cli s ≢ 0)
    → w.listeners p ≡ some lt
    → lt.owner ≡ true
    → lt.ops ≡ o
    → Makes o
    → AllServed answers
    → Ends (λ r. adds r.calls ≡ length answers + adds w.calls) (serve new_cli p answers w)
unfolding serve
serve_lem new_cli p [] w lt o makes alive owned same has good = ends (omega arith)
serve_lem new_cli p (s ∷ answers) w lt o makes alive owned same has good =
    let (one, rest) = Served-first s answers good in
    Ends-bind (event_lem new_cli p s w lt o makes alive owned same has one) (λ r served.
      let again =
        serve_lem new_cli p answers r.1 lt o makes (ap (λ f. f p) served.listeners ∙ alive) owned
          same has rest in
      rw served.on (Ends-weaken again (λ t sum. omega (arith, sum, served.added))))

-- The descriptors that `accept` answers.
abbrev pub AllOpen : List Sock → Fds → Type 0
AllOpen [] fds = Unit
AllOpen (fd s ∷ answers) fds = (fds s ≡ true) × AllOpen answers fds
AllOpen (failed e ∷ answers) fds = AllOpen answers fds

pub record Lost (w : Host) (answers : List Sock) (r : Host) : Type 0 where
  pub open_still : AllOpen answers r.fds
  pub keeps : (q : ℕ) → w.fds q ≡ true → r.fds q ≡ true
  pub calls : r.calls ≡ w.calls

mark-keeps : (s q : ℕ) (fds : Fds) → fds q ≡ true → mark s true fds q ≡ true
mark-keeps s q fds h = elim (Bool-cases (q == s)) [
  | inl same ↦ rw same refl
  | inr other ↦ rw other h
]

-- A listener without functions, as `h6_local_proxy_server_bind_port` makes it: where `accept`
-- answers descriptors and `EAGAIN` alone, one event for each answer ends, no function is called, and
-- every descriptor that was answered or open before is open in the end.
pub serve-Lost :
    (new_cli : Sock → ℕ) (p : ℕ) (answers : List Sock) (w : Host) (lt : H6Listener)
    → w.listeners p ≡ some lt
    → lt.ops ≡ none
    → AllServed answers
    → Ends (λ r. Lost w answers r) (serve new_cli p answers w)
unfolding serve h6_listener_on_event unix_sock_tcp_accept generate_client
serve-Lost new_cli p [] w lt alive none_there good =
    ends (record { open_still = tt; keeps = λ q h. h; calls = refl })
serve-Lost new_cli p (fd s ∷ answers) w lt alive none_there good =
    let again =
      serve-Lost new_cli p answers (record w { fds = mark s true w.fds }) lt alive none_there
        good in
    rw (alive, none_there)
      (Ends-weaken again (λ r lost. record {
        open_still = (lost.keeps s (rw (==-refl s) refl), lost.open_still);
        keeps = λ q h. lost.keeps q (mark-keeps s q w.fds h);
        calls = lost.calls;
      }))
serve-Lost new_cli p (failed e ∷ answers) w lt alive none_there good =
    let again = serve-Lost new_cli p answers w lt alive none_there good.1 in
    rw (alive, good.0)
      (rw none_there (
        Ends-weaken again (λ r lost. record {
          open_still = lost.open_still;
          keeps = lost.keeps;
          calls = lost.calls;
        })))
