-- ===== src/Client.antt =====
-- src/client.c and src/obj.c: clients with their reference counts, and sets of them under a lock.
pub mod Ends
pub mod Empty
pub mod Valid
pub mod Members
pub mod Unref
pub mod Kill
pub mod Alloc
mod Tests
use h.Base.{
  ℕ, zero, suc, ◌+◌, ◌-◌, Bool, true, false, not, ◌&&◌, Option, none, some, List, [], ◌∷◌, ◌==◌,
  if◌then◌else◌,
}
use h.Errno.{Code, ok, minus, einval}
use h.Base.Words.{add_u32, sub_u32}
use h.Links.{Links, set, list_init, list_add, list_del, list_del_init, list_empty}

-- `client_ops`: which of its functions there are.
pub record Ops : Type 0 where
  pub init : Bool
  pub fin : Bool
  pub kill : Bool
  pub attach : Bool

-- `client_t` with what its `obj_t` counts, which stays below 2 ^ 31; its node is the client itself.
pub record Client : Type 0 where
  pub ref_count : ℕ
  pub cs : ℕ
  pub sched : ℕ
  pub ops : Option Ops

-- A call of the client's own functions.
pub data Call : Type 0 where
  init_call fin_call kill_call attach_call : ℕ → Call

-- The clients and the sets that are allocated; of a set its references and whether its lock is held.
-- The head of a set's list is the set itself.
pub record World : Type 0 where
  pub links : Links
  pub clients : ℕ → Option Client
  pub sets : ℕ → Option (ℕ × Bool)
  pub client_objs : ℕ
  pub calls : List Call

-- How a call ends: with a value; never, since it takes a lock that it holds; by a failed assertion
-- or an access to what is NULL or freed; or with the rounds granted to a loop used up.
pub data Outcome {ℓ} (A : Type ℓ) : Type ℓ where
  done : A → Outcome A
  deadlock fault starved : Outcome A

infixl 5 ◌>>=◌
abbrev pub ◌>>=◌ {ℓ κ} : {A : Type ℓ} {B : Type κ} → Outcome A → (A → Outcome B) → Outcome B
done a >>= f = f a
deadlock >>= f = deadlock
fault >>= f = fault
starved >>= f = starved

abbrev pub put {ℓ} : {A : Type ℓ} → ℕ → Option A → (ℕ → Option A) → ℕ → Option A
put p o f q = if q == p then o else f q

-- What stands at a pointer, which must be allocated.
abbrev pub fetch {ℓ} : {A : Type ℓ} → Option A → Outcome A
fetch none = fault
fetch (some a) = done a

abbrev pub with_links : World → Option Links → Outcome World
with_links w none = fault
with_links w (some m) = done (record w { links = m })

abbrev pub call : Call → World → World
call k w = record w { calls = k ∷ w.calls }

abbrev pub has : (Ops → Bool) → Option Ops → Bool
has which none = false
has which (some ops) = which ops

-- `on_client_fin` and `free`
pub obj_free : ℕ → Client → World → Outcome World
obj_free p c w =
    if list_empty p w.links
    then done (record w {
      calls = if has (λ o. o.fin) c.ops then fin_call p ∷ w.calls else w.calls;
      clients = put p none w.clients;
      client_objs = sub_u32 w.client_objs 1;
    })
    else fault

-- `obj_ref` and `obj_unref` of a client
pub obj_ref : ℕ → World → Outcome World
obj_ref p w = fetch (w.clients p) >>= (λ c.
    if c.ref_count == 0
    then fault
    else done
        (record w { clients = put p (some (record c { ref_count = c.ref_count + 1 })) w.clients }))

pub obj_unref : ℕ → World → Outcome World
obj_unref p w = fetch (w.clients p) >>= (λ c.
    if c.ref_count == 0
    then fault
    else if c.ref_count == 1
    then obj_free p c w
    else done
        (record w { clients = put p (some (record c { ref_count = c.ref_count - 1 })) w.clients }))

pub client_ref : ℕ → World → Outcome World
client_ref c w = if c == 0 then done w else obj_ref c w

pub client_unref : ℕ → World → Outcome World
client_unref c w = if c == 0 then done w else obj_unref c w

-- `pthread_mutex_lock` and `pthread_mutex_unlock` of a set's lock
pub lock : ℕ → World → Outcome World
lock cs w = fetch (w.sets cs) >>= (λ (refs, held).
    if held then deadlock else done (record w { sets = put cs (some (refs, true)) w.sets }))

pub unlock : ℕ → World → Outcome World
unlock cs w =
    fetch (w.sets cs)
    >>= (λ (refs, held). done (record w { sets = put cs (some (refs, false)) w.sets }))

-- `__client_set_add`
pub add_node : ℕ → ℕ → World → Outcome (Code × World)
add_node cs c w =
    if list_empty c w.links
    then fetch (w.clients c) >>= (λ client. done (
      ok,
      record w {
        clients = put c (some (record client { cs = cs })) w.clients;
        links = list_add c cs w.links;
      },
    ))
    else done (minus einval, w)

pub client_set_add : ℕ → ℕ → World → Outcome (Code × World)
client_set_add cs c w =
    lock cs w >>= add_node cs c >>= (λ (err, w). unlock cs w >>= (λ w. done (err, w)))

-- `__client_set_del`
pub del_node : ℕ → World → Outcome World
del_node c w = if list_empty c w.links then done w else with_links w (list_del_init c w.links)

pub client_set_del : ℕ → ℕ → World → Outcome World
client_set_del cs c w = lock cs w >>= del_node c >>= unlock cs

-- `client_self_kill`
pub self_kill : ℕ → World → Outcome World
self_kill p w = fetch (w.clients p) >>= (λ c. if c.cs == 0 then done w else client_set_del c.cs p w)

pub client_kill : ℕ → World → Outcome World
client_kill p w =
    fetch (w.clients p)
    >>= (λ c. self_kill p (if has (λ o. o.kill) c.ops then call (kill_call p) w else w))

pub client_kill_unref : ℕ → World → Outcome World
client_kill_unref p w = client_kill p w >>= client_unref p

-- `client_attach`, with what the client's own function returns.
pub client_attach : Code → ℕ → ℕ → World → Outcome (Code × World)
client_attach result p sched w = fetch (w.clients p) >>= (λ c.
    let attached = record w { clients = put p (some (record c { sched = sched })) w.clients } in
    if has (λ o. o.attach) c.ops
    then done (result, call (attach_call p) attached)
    else done (minus einval, attached))

-- The loop of `__client_set_self_kill`, at a node with the one behind it.
pub kill_members : ℕ → (cs node n : ℕ) → World → Outcome World
kill_members zero cs node n w = starved
kill_members (suc rounds) cs node n w =
    if node == cs
    then done w
    else with_links w (list_del node w.links)
      >>= client_kill_unref node
      >>= (λ w. kill_members rounds cs n (w.links.next n) w)

pub client_set_self_kill : ℕ → ℕ → World → Outcome World
client_set_self_kill rounds cs w =
    lock cs w
    >>= (λ w. kill_members rounds cs (w.links.next cs) (w.links.next (w.links.next cs)) w)
    >>= (λ w. if list_empty cs w.links then unlock cs w else fault)

-- `client_set_unref`, with `obj_unref` and the set's finalizer.
pub client_set_unref : ℕ → World → Outcome World
client_set_unref cs w =
    if cs == 0
    then done w
    else fetch (w.sets cs) >>= (λ (refs, held).
      if refs == 0
      then fault
      else if refs == 1
      then if list_empty cs w.links then done (record w { sets = put cs none w.sets }) else fault
      else done (record w { sets = put cs (some (refs - 1, held)) w.sets }))

pub client_set_kill_unref : ℕ → ℕ → World → Outcome World
client_set_kill_unref rounds cs w = client_set_self_kill rounds cs w >>= client_set_unref cs

-- `obj_new` of a client with `client_init_this`, at the memory that `malloc` returned.
abbrev pub new_client : ℕ → World → World
new_client p w = record w {
  clients = put p (some (record { ref_count = 1; cs = 0; sched = 0; ops = none })) w.clients;
  links = list_init p w.links;
  client_objs = add_u32 w.client_objs 1;
}

abbrev pub set_ops : ℕ → Option Ops → World → Outcome World
set_ops p ops w =
    fetch (w.clients p)
    >>= (λ c. done (record w { clients = put p (some (record c { ops = ops })) w.clients }))

-- `client_alloc` behind the call of `init`.
pub init_end : ℕ → Code → World → Outcome (ℕ × World)
init_end p ok w = done (p, w)
init_end p (minus e) w = set_ops p none w >>= obj_unref p >>= (λ w. done (0, w))

-- `client_alloc`, with whether the size is that of a client at least, what `malloc` returns, and what
-- the client's `init` returns. The pointer is the result.
pub client_alloc : Bool → ℕ → Option Ops → Code → World → Outcome (ℕ × World)
client_alloc false p ops result w = done (0, w)
client_alloc true p ops result w =
    if p == 0
    then done (0, w)
    else set_ops p ops (new_client p w) >>= (λ w.
      if has (λ o. o.init) ops then init_end p result (call (init_call p) w) else done (p, w))
