-- ===== src/H6Listener.antt =====
-- src/h6_listener.c: a listener that owns a socket and an event on its server's scheduler. The loops
-- of the scheduler are not quitted; what they do with an event later is in EvLoop.
pub mod Ports
pub mod Fin
pub mod Events
mod Tests
use h.Base.{
  ℕ, ◌+◌, ◌-◌, Bool, true, false, Option, none, some, List, [], ◌∷◌, ◌==◌, ◌&&◌, if◌then◌else◌,
}
use h.Errno.{Errno, Code, ok, minus, eagain, eperm, enomem}
use h.UnixSock.{Sock, fd, failed, Fds, unix_sock_bind, unix_sock_tcp_accept, unix_sock_close}
use h.Sched.{Sched, sched_add, sched_remove}
use h.Client.{Outcome, done, fault, ◌>>=◌, put, fetch}

-- `h6_listener_ops`: which of its functions there are.
pub record H6ListenerOps : Type 0 where
  pub init : Bool
  pub fin : Bool
  pub new_cli : Bool

-- `h6_listener_t`; `sock` is `none` for -1, and `owner` is whether it has a server.
pub record H6Listener : Type 0 where
  pub port : ℕ
  pub host : ℕ
  pub sock : Option ℕ
  pub event : ℕ
  pub ops : Option H6ListenerOps
  pub owner : Bool

-- An `h6_ev_t`: whether a loop has it, the listener that it was made for, if any.
pub record H6Ev : Type 0 where
  pub ref_count : ℕ
  pub attached : Bool
  pub user_data : ℕ

-- The calls of the listener's own functions and of its server.
pub data HostCall : Type 0 where
  init_call fin_call add_client_call attach_call : ℕ → HostCall
  new_cli_call : ℕ → Sock → HostCall

-- The listeners and the events that are allocated, the open descriptors, and the scheduler of the
-- server, which may be NULL.
pub record Host : Type 0 where
  pub listeners : ℕ → Option H6Listener
  pub events : ℕ → Option H6Ev
  pub fds : Fds
  pub sched : Option Sched
  pub calls : List HostCall

abbrev pub call : HostCall → Host → Host
call c w = record w { calls = c ∷ w.calls }

-- `h6_listener_init` of what `listener_alloc` allocated at a pointer, with what the `init` of the
-- functions returns.
pub new_listener : Bool → Option H6ListenerOps → H6Listener
new_listener owner ops = record {
  port = 0;
  host = 0;
  sock = none;
  event = 0;
  ops = ops;
  owner = owner;
}

abbrev init_with : ℕ → H6ListenerOps → Code → Host → Code × Host
init_with p ops ok w =
    (ok, record w { listeners = put p (some (new_listener false (some ops))) w.listeners })
init_with p ops (minus e) w = (minus e, w)

pub h6_listener_init : ℕ → Option H6ListenerOps → Code → Host → Code × Host
h6_listener_init p none result w =
    (ok, record w { listeners = put p (some (new_listener false none)) w.listeners })
h6_listener_init p (some ops) result w =
    let fresh = record w { listeners = put p (some (new_listener false none)) w.listeners } in
    if ops.init then init_with p ops result (call (init_call p) fresh) else init_with p ops ok fresh

-- `h6_sched_add` and `h6_sched_remove`: each leaves a request to the loop, which holds a reference.
pub h6_sched_add : (ev weight : ℕ) → Host → Outcome Host
h6_sched_add ev weight w = fetch w.sched >>= (λ s. fetch (w.events ev) >>= (λ e.
    if e.attached
    then fault
    else done (record w {
      sched = some (sched_add s ev weight).0;
      events = put ev (some (record e { ref_count = e.ref_count + 1; attached = true })) w.events;
    })))

abbrev pub removed_from : ℕ → Option ℕ × Sched → Host → Outcome Host
removed_from ev (none, s) w = done (record w { sched = some s })
removed_from ev (some loop, s) w = fetch (w.events ev) >>= (λ e.
    if e.attached
    then done (record w {
      sched = some s;
      events = put ev (some (record e { ref_count = e.ref_count + 1 })) w.events;
    })
    else fault)

pub h6_sched_remove : ℕ → Host → Outcome Host
h6_sched_remove ev w = fetch w.sched >>= (λ s. removed_from ev (sched_remove s ev) w)

-- `lt->ops->fin(lt)`, where there are functions.
pub ops_fin : ℕ → H6Listener → Host → Outcome Host
ops_fin p lt w = elim lt.ops [
  | none ↦ done w
  | some ops ↦ if ops.fin then done (call (fin_call p) w) else fault
]

-- `h6_listener_on_ev_fin`
pub h6_listener_on_ev_fin : H6Ev → Host → Outcome Host
h6_listener_on_ev_fin e w =
    if e.user_data == 0
    then done w
    else fetch (w.listeners e.user_data) >>= (λ lt. ops_fin e.user_data lt w)

-- `h6_ev_unref`
pub h6_ev_unref : ℕ → Host → Outcome Host
h6_ev_unref ev w = fetch (w.events ev) >>= (λ e.
    if e.ref_count == 0
    then fault
    else if e.ref_count == 1
    then h6_listener_on_ev_fin e w >>= (λ w. done (record w { events = put ev none w.events }))
    else done
        (record w { events = put ev (some (record e { ref_count = e.ref_count - 1 })) w.events }))

-- `h6_listener_fin_this`
abbrev close_sock : Option ℕ → Host → Host
close_sock none w = w
close_sock (some s) w = record w { fds = unix_sock_close s w.fds }

pub h6_listener_fin_this : H6Listener → Host → Outcome Host
h6_listener_fin_this lt w =
    (if lt.event == 0
      then done w
      else if lt.owner
      then h6_sched_remove lt.event w >>= h6_ev_unref lt.event
      else fault)
    >>= (λ w. done (close_sock lt.sock w))

pub h6_listener_fin : ℕ → Host → Outcome Host
h6_listener_fin p w = fetch (w.listeners p) >>= (λ lt. ops_fin p lt w >>= h6_listener_fin_this lt)

-- The last reference to a listener: its `fin`, and `free`.
pub free_listener : ℕ → Host → Outcome Host
free_listener p w =
    h6_listener_fin p w >>= (λ w. done (record w { listeners = put p none w.listeners }))

-- The end of `h6_listener_set_port`, with the event made and the scheduler there.
pub listen_on : (p port ev s : ℕ) → H6Listener → Host → Outcome (Code × Host)
listen_on p port ev s lt w =
    fetch (w.events ev)
    >>= (λ e. h6_sched_add ev 1 (record w {
      events = put ev (some (record e { user_data = p })) w.events;
      listeners =
          put p (some (record lt { port = port; host = 0; sock = some s; event = ev })) w.listeners;
    }))
    >>= (λ w. done (ok, w))

abbrev pub has_sched : Option Sched → Bool
has_sched none = false
has_sched (some s) = true

-- `h6_ev_new`
abbrev pub new_ev : H6Ev
new_ev = record { ref_count = 1; attached = false; user_data = 0 }

-- Behind `unix_sock_bind`, with what `h6_ev_new` returns.
pub bound_to : (p port ev : ℕ) → H6Listener → Sock × Fds → Host → Outcome (Code × Host)
bound_to p port ev lt (failed e, fds) w = done (minus e, record w { fds = fds })
bound_to p port ev lt (fd s, fds) w =
    if ev == 0
    then done (minus enomem, record w { fds = unix_sock_close s fds })
    else if lt.owner && has_sched w.sched
    then listen_on p port ev s lt (record w { fds = fds; events = put ev (some new_ev) w.events })
    else done (
      minus eperm,
      record w { fds = unix_sock_close s fds; events = put ev (some new_ev) w.events },
    )

abbrev pub is_bound : Option ℕ → Bool
is_bound none = false
is_bound (some s) = true

-- `h6_listener_set_port`, with what `socket` and `bind` answer and what `h6_ev_new` returns.
pub h6_listener_set_port : (p port ev : ℕ) → Sock → Code → Host → Outcome (Code × Host)
h6_listener_set_port p port ev made bound w = fetch (w.listeners p) >>= (λ lt.
    if is_bound lt.sock
    then done (minus eperm, w)
    else bound_to p port ev lt (unix_sock_bind made bound w.fds) w)

-- `listener_generate` with `h6_listener_generate_client`; NULL is 0.
pub generate_client : (Sock → ℕ) → ℕ → H6Listener → Sock → Host → ℕ × Host
generate_client new_cli p lt s w = elim lt.ops [
  | none ↦ (0, w)
  | some ops ↦ if ops.new_cli then (new_cli s, call (new_cli_call p s) w) else (0, w)
]

abbrev generated : H6Listener → ℕ × Host → Outcome (Bool × Host)
generated lt (c, w) =
    if c == 0
    then done (true, w)
    else if lt.owner
    then done (true, call (attach_call c) (call (add_client_call c) w))
    else fault

abbrev pub accepted_as : (Sock → ℕ) → ℕ → H6Listener → Sock × Fds → Host → Outcome (Bool × Host)
accepted_as new_cli p lt (fd s, fds) w =
    generated lt (generate_client new_cli p lt (fd s) (record w { fds = fds }))
accepted_as new_cli p lt (failed eagain, fds) w =
    generated lt (generate_client new_cli p lt (failed eagain) w)
accepted_as new_cli p lt (failed e, fds) w = done (false, w)

-- `h6_listener_on_event`, with whether the timer ran out and what `accept` answers.
pub h6_listener_on_event : (Sock → ℕ) → ℕ → (timer : Bool) → Sock → Host → Outcome (Bool × Host)
h6_listener_on_event new_cli p timer answer w =
    if timer
    then done (true, w)
    else fetch (w.listeners p)
      >>= (λ lt. accepted_as new_cli p lt (unix_sock_tcp_accept answer w.fds) w)
