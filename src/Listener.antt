-- ===== src/Listener.antt =====
-- src/listener.c, and what src/h6_local_proxy_server.c does to bind a port: listeners with their
-- reference counts, and sets of them that hold a reference to each.
pub mod Valid
pub mod Members
pub mod Kill
pub mod Drain
pub mod Removed
mod Tests
use h.Base.{
  ℕ, zero, suc, ◌+◌, ◌-◌, Bool, true, false, Option, none, some, List, [], ◌∷◌, ◌==◌, if◌then◌else◌,
}
use h.Errno.{Code, ok, minus, einval}
use h.Links.{Links, list_init, list_add, list_del, list_del_init, list_empty}
use h.Client.{Outcome, done, deadlock, fault, starved, ◌>>=◌, put, fetch}

-- `listener_ops`: which of its functions there are.
pub record LsnOps : Type 0 where
  pub init : Bool
  pub fin : Bool
  pub set_port : Bool
  pub kill : Bool
  pub new_cli : Bool

-- `listener_t`. No function of the source sets `lset`: it holds what `malloc` left.
pub record Listener : Type 0 where
  pub ref_count : ℕ
  pub lset : ℕ
  pub ops : Option LsnOps
  pub server : ℕ

pub data LsnCall : Type 0 where
  init_call fin_call kill_call : ℕ → LsnCall

-- The listeners and the sets that are allocated; of a set its references and whether its lock is
-- held.
pub record Listeners : Type 0 where
  pub links : Links
  pub listeners : ℕ → Option Listener
  pub sets : ℕ → Option (ℕ × Bool)
  pub calls : List LsnCall

abbrev pub with_links : Listeners → Option Links → Outcome Listeners
with_links w none = fault
with_links w (some m) = done (record w { links = m })

abbrev pub has : (LsnOps → Bool) → Option LsnOps → Bool
has which none = false
has which (some ops) = which ops

-- `obj_ref` of a listener
pub ref_lsn : ℕ → Listeners → Outcome Listeners
ref_lsn p w = fetch (w.listeners p) >>= (λ l.
    if l.ref_count == 0
    then fault
    else done (record w {
      listeners = put p (some (record l { ref_count = l.ref_count + 1 })) w.listeners;
    }))

-- `on_listener_fin` and `free`
pub fin_lsn : ℕ → Listener → Listeners → Outcome Listeners
fin_lsn p l w =
    if list_empty p w.links
    then done (record w {
      calls = if has (λ o. o.fin) l.ops then fin_call p ∷ w.calls else w.calls;
      listeners = put p none w.listeners;
    })
    else fault

-- `obj_unref` of a listener
pub unref_lsn : ℕ → Listeners → Outcome Listeners
unref_lsn p w = fetch (w.listeners p) >>= (λ l.
    if l.ref_count == 0
    then fault
    else if l.ref_count == 1
    then fin_lsn p l w
    else done (record w {
      listeners = put p (some (record l { ref_count = l.ref_count - 1 })) w.listeners;
    }))

-- `pthread_mutex_lock` and `pthread_mutex_unlock` of a set's lock
pub lock_set : ℕ → Listeners → Outcome Listeners
lock_set set w = fetch (w.sets set) >>= (λ (refs, held).
    if held then deadlock else done (record w { sets = put set (some (refs, true)) w.sets }))

pub unlock_set : ℕ → Listeners → Outcome Listeners
unlock_set set w =
    fetch (w.sets set)
    >>= (λ (refs, held). done (record w { sets = put set (some (refs, false)) w.sets }))

-- `__listen_set_add`
pub add_lsn : ℕ → ℕ → Listeners → Outcome (Code × Listeners)
add_lsn set l w =
    if list_empty l w.links
    then ref_lsn l (record w { links = list_add l set w.links }) >>= (λ w. done (ok, w))
    else done (minus einval, w)

pub lsn_set_add : ℕ → ℕ → Listeners → Outcome (Code × Listeners)
lsn_set_add set l w =
    lock_set set w >>= add_lsn set l >>= (λ (err, w). unlock_set set w >>= (λ w. done (err, w)))

-- `__listen_set_del`
pub del_lsn : ℕ → Listeners → Outcome Listeners
del_lsn l w =
    if list_empty l w.links then done w else with_links w (list_del_init l w.links) >>= unref_lsn l

pub lsn_set_del : ℕ → ℕ → Listeners → Outcome Listeners
lsn_set_del set l w = lock_set set w >>= del_lsn l >>= unlock_set set

-- `listener_self_kill`
pub self_kill_lsn : ℕ → Listeners → Outcome Listeners
self_kill_lsn p w =
    fetch (w.listeners p) >>= (λ l. if l.lset == 0 then done w else lsn_set_del l.lset p w)

abbrev pub called : Bool → LsnCall → Listeners → Listeners
called there k w = record w { calls = if there then k ∷ w.calls else w.calls }

pub listener_kill : ℕ → Listeners → Outcome Listeners
listener_kill p w =
    fetch (w.listeners p)
    >>= (λ l. self_kill_lsn p (called (has (λ o. o.kill) l.ops) (kill_call p) w))

pub listener_kill_unref : ℕ → Listeners → Outcome Listeners
listener_kill_unref p w = listener_kill p w >>= unref_lsn p

-- The loop of `lsn_set_self_kill`, at a node with the one behind it.
pub kill_lsns : ℕ → (set node n : ℕ) → Listeners → Outcome Listeners
kill_lsns zero set node n w = starved
kill_lsns (suc rounds) set node n w =
    if node == set
    then done w
    else with_links w (list_del node w.links)
      >>= listener_kill_unref node
      >>= (λ w. kill_lsns rounds set n (w.links.next n) w)

pub lsn_set_self_kill : ℕ → ℕ → Listeners → Outcome Listeners
lsn_set_self_kill rounds set w =
    lock_set set w
    >>= (λ w. kill_lsns rounds set (w.links.next set) (w.links.next (w.links.next set)) w)
    >>= (λ w. if list_empty set w.links then unlock_set set w else fault)

-- `lsn_set_unref`, with `obj_unref` and the finalizer of a set without functions of its own, as all
-- sets of the source are.
pub lsn_set_unref : ℕ → Listeners → Outcome Listeners
lsn_set_unref set w =
    if set == 0
    then done w
    else fetch (w.sets set) >>= (λ (refs, held).
      if refs == 0
      then fault
      else if refs == 1
      then if list_empty set w.links then done (record w { sets = put set none w.sets }) else fault
      else done (record w { sets = put set (some (refs - 1, held)) w.sets }))

pub lsn_set_kill_unref : ℕ → ℕ → Listeners → Outcome Listeners
lsn_set_kill_unref rounds set w = lsn_set_self_kill rounds set w >>= lsn_set_unref set

-- `listener_alloc` of a listener whose `init` does not fail, at the memory that `malloc` returned,
-- with what stood there for `lset`.
pub listener_alloc : (p junk : ℕ) → Option LsnOps → Listeners → Listeners
listener_alloc p junk ops w = called (has (λ o. o.init) ops) (init_call p) (record w {
  listeners =
      put p (some (record { ref_count = 1; lset = junk; ops = ops; server = 0 })) w.listeners;
  links = list_init p w.links;
})

-- `listener_set_owner`
pub listener_set_owner : ℕ → ℕ → Listeners → Outcome Listeners
listener_set_owner p server w = fetch (w.listeners p) >>= (λ l.
    done (record w { listeners = put p (some (record l { server = server })) w.listeners }))

-- `h6_local_proxy_server_bind_port`, with whether the server runs, the memory that `malloc`
-- returned for the listener, and what `listener_bind` returns.
pub bind_end : ℕ → ℕ → Code → Listeners → Outcome (Code × Listeners)
bind_end set p (minus e) w = unref_lsn p w >>= (λ w. done (minus e, w))
bind_end set p ok w = lsn_set_add set p w >>= (λ (err, w). unref_lsn p w >>= (λ w. done (ok, w)))

pub bind_port :
    (running : Bool)
    → (server set p junk : ℕ) → LsnOps
    → Code
    → Listeners
    → Outcome (Code × Listeners)
bind_port false server set p junk ops bound w = done (minus einval, w)
bind_port true server set p junk ops bound w =
    if p == 0
    then fault
    else listener_set_owner p server (listener_alloc p junk (some ops) w) >>= bind_end set p bound
