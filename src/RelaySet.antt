-- ===== src/RelaySet.antt =====
-- src/h6_relay_set.c: sets of relay pairs, each with a lock. A pair's node is the pair itself, and a
-- set's list head the set itself.
pub mod Pairs
pub mod Calls
mod Tests
use h.Base.{ℕ, Bool, true, false, Option, none, some, List, [], ◌∷◌, ◌++◌, ◌==◌, if◌then◌else◌}
use h.Errno.{Code, ok, minus, einval}
use h.Links.{Links, set, list_init, list_add, list_del_init, list_empty}
use h.Client.{Outcome, done, deadlock, fault, ◌>>=◌}

-- The links, `pair->set` of each pair, and which locks are held.
pub record Relays : Type 0 where
  pub links : Links
  pub set_of : ℕ → ℕ
  pub locked : ℕ → Bool

abbrev pub held : ℕ → Bool → (ℕ → Bool) → ℕ → Bool
held rs b f q = if q == rs then b else f q

-- `relay_set_init`
pub relay_set_init : ℕ → Relays → Relays
relay_set_init rs r = record r { links = list_init rs r.links; locked = held rs false r.locked }

-- `pthread_mutex_lock` and `pthread_mutex_unlock` of a set's lock
pub lock_relay : ℕ → Relays → Outcome Relays
lock_relay rs r =
    if r.locked rs then deadlock else done (record r { locked = held rs true r.locked })

pub unlock_relay : ℕ → Relays → Relays
unlock_relay rs r = record r { locked = held rs false r.locked }

-- `__relay_set_add`
pub add_pair : (rs pair : ℕ) → Relays → Code × Relays
add_pair rs pair r =
    if list_empty pair r.links
    then (ok, record r { set_of = set pair rs r.set_of; links = list_add pair rs r.links })
    else (minus einval, r)

pub relay_set_add : (rs pair : ℕ) → Relays → Outcome (Code × Relays)
relay_set_add rs pair r =
    lock_relay rs r >>= (λ r. let (err, r) = add_pair rs pair r in done (err, unlock_relay rs r))

-- `__relay_set_del`
abbrev pub with_links : Relays → Option Links → Outcome (Code × Relays)
with_links r none = fault
with_links r (some m) = done (ok, record r { links = m })

pub del_pair : ℕ → Relays → Outcome (Code × Relays)
del_pair pair r =
    if list_empty pair r.links
    then done (minus einval, r)
    else with_links (record r { set_of = set pair 0 r.set_of }) (list_del_init pair r.links)

pub relay_set_del : (rs pair : ℕ) → Relays → Outcome Relays
relay_set_del rs pair r =
    lock_relay rs r >>= del_pair pair >>= (λ (err, r). done (unlock_relay rs r))

-- A call on a set, and a run of calls with what the additions return.
pub data RelayCall : Type 0 where
  add del : ℕ → RelayCall

pub call_relay : ℕ → RelayCall → Relays → Outcome (List Code × Relays)
call_relay rs (add pair) r = relay_set_add rs pair r >>= (λ (err, r). done (err ∷ [], r))
call_relay rs (del pair) r = relay_set_del rs pair r >>= (λ r. done ([], r))

pub run_relays : ℕ → List RelayCall → Relays → Outcome (List Code × Relays)
run_relays rs [] r = done ([], r)
run_relays rs (c ∷ calls) r =
    call_relay rs c r
    >>= (λ (out, r). run_relays rs calls r >>= (λ (outs, r). done (out ++ outs, r)))
