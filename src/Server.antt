-- ===== src/Server.antt =====
-- src/h6_basic_server.c and src/h6_local_proxy_server.c: a server with its set of listeners, its set
-- of clients and its scheduler. How a port is bound is in Listener.
pub mod Ports
pub mod Life
mod Tests
use h.Base.{
  ℕ, zero, suc, ◌+◌, ◌-◌, Bool, true, false, Option, none, some, ◌==◌, ◌&&◌, not, if◌then◌else◌,
}
use h.Errno.{Errno, Code, ok, minus, einval, eperm}
use h.Links.{Links, list_empty}
use h.Client.{
  World, Outcome, done, fault, starved, ◌>>=◌, fetch, client_set_kill_unref, client_set_add,
}
use h.Listener.{Listeners, lsn_set_del, lsn_set_kill_unref, lsn_set_unref}

-- The loop of `find_listener_by_port`, at a node. `port_of` is the field `port` of each listener.
pub find_loop : ℕ → (port_of : ℕ → ℕ) → (set port node : ℕ) → Links → Outcome ℕ
find_loop zero port_of set port node m = starved
find_loop (suc rounds) port_of set port node m =
    let rest = find_loop rounds port_of set port (m.next node) m in
    if node == set then done 0 else if port_of node == port then done node else rest

pub find_listener_by_port : ℕ → (port_of : ℕ → ℕ) → (set port : ℕ) → Links → Outcome ℕ
find_listener_by_port rounds port_of set port m = find_loop rounds port_of set port (m.next set) m

-- `h6_local_proxy_server_remove_port`
pub remove_port : ℕ → (port_of : ℕ → ℕ) → (set port : ℕ) → Listeners → Outcome Listeners
remove_port rounds port_of set port w =
    find_listener_by_port rounds port_of set port w.links
    >>= (λ lsn. if lsn == 0 then done w else lsn_set_del set lsn w)

-- `h6_local_proxy_svr_t` with what its `obj_t` counts, and the memory that it works on. `sched` is
-- whether it has a scheduler, `scheds` how many schedulers are running; `has_ops` is whether `ops`
-- is not NULL.
pub record Server : Type 0 where
  pub refs : ℕ
  pub alive : Bool
  pub has_ops : Bool
  pub run : Bool
  pub sched : Bool
  pub lsn_set : ℕ
  pub cli_set : ℕ
  pub scheds : ℕ
  pub listeners : Listeners
  pub clients : World

-- `h6_local_proxy_svr_fin_this`: both sets must be there, and empty.
pub svr_fin_this : Server → Outcome Server
svr_fin_this s = fetch (s.listeners.sets s.lsn_set) >>= (λ l.
    if list_empty s.lsn_set s.listeners.links
    then fetch (s.clients.sets s.cli_set)
      >>= (λ c. if list_empty s.cli_set s.clients.links then done s else fault)
    else fault)

-- `h6_server_unref`, with `on_h6_basic_server_fin`
pub h6_server_unref : Server → Outcome Server
h6_server_unref s =
    if s.alive && not (s.refs == 0)
    then if s.refs == 1
      then (if s.has_ops then svr_fin_this s else done s)
        >>= (λ s. done (record s { refs = 0; alive = false }))
      else done (record s { refs = s.refs - 1 })
    else fault

-- `h6_local_proxy_svr_kill`
pub kill_listeners : ℕ → Server → Outcome Server
kill_listeners rounds s =
    if s.lsn_set == 0
    then done s
    else lsn_set_kill_unref rounds s.lsn_set s.listeners
      >>= (λ w. done (record s { listeners = w }))

pub kill_clients : ℕ → Server → Outcome Server
kill_clients rounds s =
    if s.cli_set == 0
    then done s
    else client_set_kill_unref rounds s.cli_set s.clients >>= (λ w. done (record s { clients = w }))

abbrev pub free_sched : Server → Server
free_sched s = record s { sched = false; scheds = if s.sched then s.scheds - 1 else s.scheds }

pub local_proxy_svr_kill : ℕ → Server → Outcome Server
local_proxy_svr_kill rounds s =
    kill_listeners rounds s >>= kill_clients rounds >>= (λ s. done (free_sched s))

-- `h6_server_kill`, with the assertion of `h6_server_self_kill`
pub h6_server_kill : ℕ → Server → Outcome Server
h6_server_kill rounds s =
    (if s.has_ops then local_proxy_svr_kill rounds s else done s)
    >>= (λ s. if s.sched then fault else done s)

pub h6_server_kill_unref : ℕ → Server → Outcome Server
h6_server_kill_unref rounds s = h6_server_kill rounds s >>= h6_server_unref

-- `h6_server_set_sched`
pub h6_server_set_sched : Server → Code × Server
h6_server_set_sched s = if s.sched then (minus einval, s) else (ok, record s { sched = true })

-- What follows in `h6_local_proxy_server_run`.
abbrev pub run_with : Code × Server → Code × Server
run_with (ok, s) = (ok, record s { run = true })
run_with (minus e, s) = (minus e, record s { scheds = s.scheds - 1 })

-- `h6_local_proxy_server_run`, with whether `h6_sched_new` makes a scheduler.
pub server_run : Bool → Server → Code × Server
server_run made s =
    if s.run
    then (minus einval, s)
    else if made
    then run_with (h6_server_set_sched (record s { scheds = s.scheds + 1 }))
    else (minus einval, s)

-- `h6_server_add_client` of such a server
pub server_add_client : ℕ → Server → Outcome (Code × Server)
server_add_client c s =
    if s.has_ops
    then client_set_add s.cli_set c s.clients >>= (λ (err, w). done (err, record s { clients = w }))
    else done (minus einval, s)

-- `h6_local_proxy_svr_init_this`, with the sets that `lsn_set_new` and `client_set_new` made, or NULL.
pub init_this : (lsn_set cli_set : ℕ) → Server → Outcome (Code × Server)
init_this lsn_set cli_set s =
    if lsn_set == 0
    then done (minus eperm, record s { run = false; lsn_set = 0 })
    else (if cli_set == 0 then lsn_set_unref lsn_set s.listeners else done s.listeners) >>= (λ w.
        done (ok, record s { run = false; lsn_set = lsn_set; cli_set = cli_set; listeners = w }))

abbrev pub after_init : Code × Server → Outcome (Bool × Server)
after_init (ok, s) = done (true, s)
after_init (minus e, s) = h6_server_unref (record s { has_ops = false }) >>= (λ s. done (false, s))

-- `h6_server_alloc` of a large enough size with memory left; whether there is a server.
pub h6_server_alloc : (lsn_set cli_set : ℕ) → Server → Outcome (Bool × Server)
h6_server_alloc lsn_set cli_set s =
    init_this lsn_set cli_set (record s { refs = 1; alive = true; has_ops = true; sched = false })
    >>= after_init
