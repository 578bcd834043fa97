-- ===== src/Listener/Members.antt =====
-- `lsn_set_add` and binding a port.
use h.Base.{ℕ, ◌+◌, ◌<◌, ◌≡◌, ◌≢◌, refl, ◌∙◌, true, false, Option, some, List, ◌∷◌, ◌==◌, arith}
use h.Errno.{Code, ok}
use h.Links.{list_add}
use h.Links.Apart.{Apart}
use h.Links.Joins.{set-same}
use h.Links.Remove.{outside-IsRing}
use h.Links.Insert.{list_add_lem}
use h.Client.{put}
use h.Client.Ends.{Ends, ends, Ends-bind}
use h.Client.Valid.{put-same, put-other}
use h.Listener.{
  LsnOps, Listener, Listeners, ref_lsn, unref_lsn, add_lsn, lsn_set_add, listener_alloc,
  listener_set_owner, bind_end, bind_port,
}
use h.Listener.Valid.{Members, member, Members-put, IsLsnSet, lock_set_lem, unlock_set_lem}

-- What a new member leaves.
pub record Added (w : Listeners) (set refs p : ℕ) (l : Listener) (xs : List ℕ)
    (r : Code × Listeners) : Type 0 where
  pub result : r.0 ≡ ok
  pub set_of : IsLsnSet r.1 set refs (p ∷ xs)
  pub listener : r.1.listeners p ≡ some l
  pub others : (q : ℕ) → q ≢ p → r.1.listeners q ≡ w.listeners q

-- `lsn_set_add` puts a listener that is alive and in no list in front of the members of a set, and
-- takes a reference to it.
pub lsn_set_add_lem :
    (w : Listeners) (set refs p : ℕ) (l : Listener) (xs : List ℕ)
    → IsLsnSet w set refs xs
    → p ≢ 0
    → Apart p (set ∷ xs)
    → w.links.next p ≡ p
    → w.listeners p ≡ some l
    → 0 < l.ref_count
    → Ends (Added w set refs p (record l { ref_count = l.ref_count + 1 }) xs) (lsn_set_add set p w)
unfolding lsn_set_add add_lsn ref_lsn
lsn_set_add_lem w set refs p l xs valid real apart alone alive counted =
    let empty : (w.links.next p == p) ≡ true = ground arith in
    let held : (l.ref_count == 0) ≡ false = ground arith in
    rw (lock_set_lem w valid.free, empty, alive, held)
      (rw
        (unlock_set_lem {held = true}
          (record w {
            sets = put set (some (refs, true)) w.sets;
            listeners = put p (some (record l { ref_count = l.ref_count + 1 })) w.listeners;
            links = list_add p set w.links;
          })
          (put-same set _ w.sets))
        (ends (record {
          result = refl;
          set_of = record {
            ring = list_add_lem w.links p set xs valid.ring real apart;
            free = put-same set _ (put set (some (refs, true)) w.sets);
            members =
                member (put-same p _ w.listeners) (omega arith)
                  (Members-put p _ apart.1 valid.members);
          };
          listener = put-same p _ w.listeners;
          others = λ q h. put-other p _ w.listeners q h;
        })))

Members-tail :
    {listeners : ℕ → Option Listener} {p : ℕ} {xs : List ℕ}
    → Members listeners (p ∷ xs)
    → Members listeners xs
Members-tail (member alive pos rest) = rest

-- A listener with one reference.
abbrev pub owned : ℕ → ℕ → LsnOps → Listener
owned server junk ops = record { ref_count = 1; lset = junk; ops = some ops; server = server }

-- The reference of the thread that bound the port.
unref_lsn-Added :
    (w : Listeners) (r : Code × Listeners) (set refs p : ℕ) (l : Listener) (xs : List ℕ)
    → Added w set refs p (record l { ref_count = 2 }) xs r
    → Apart p xs
    → Ends (λ t. Added w set refs p (record l { ref_count = 1 }) xs (ok, t)) (unref_lsn p r.1)
unfolding unref_lsn
unref_lsn-Added w r set refs p l xs added apart = rw added.listener (
    ends (record {
      result = refl;
      set_of = record {
        ring = added.set_of.ring;
        free = added.set_of.free;
        members =
            member (put-same p _ r.1.listeners) (omega arith)
              (Members-put p _ apart (Members-tail added.set_of.members));
      };
      listener = put-same p _ r.1.listeners;
      others = λ q h. put-other p _ r.1.listeners q h ∙ added.others q h;
    }))

-- The memory with the new listener and its owner.
abbrev bound : ℕ → ℕ → ℕ → LsnOps → Listeners → Listeners
bound server p junk ops w = record (listener_alloc p junk (some ops) w) {
  listeners = put p (some (owned server junk ops)) (put p (some (owned 0 junk ops)) w.listeners);
}

bound-IsLsnSet :
    (w : Listeners) (server set refs p junk : ℕ) (ops : LsnOps) (xs : List ℕ)
    → IsLsnSet w set refs xs
    → Apart p (set ∷ xs)
    → IsLsnSet (bound server p junk ops w) set refs xs
unfolding listener_alloc
bound-IsLsnSet w server set refs p junk ops xs valid apart = record {
  ring = outside-IsRing p p p apart valid.ring;
  free = valid.free;
  members = Members-put p _ apart.1 (Members-put p _ apart.1 valid.members);
}

-- Where the server runs and `listener_bind` succeeds, `h6_local_proxy_server_bind_port` returns 0 with
-- the new listener in front of the members of the server's set, which holds the one reference to it.
-- No other listener changes.
pub bind_port_lem :
    (w : Listeners) (server set refs p junk : ℕ) (ops : LsnOps) (xs : List ℕ)
    → IsLsnSet w set refs xs
    → p ≢ 0
    → Apart p (set ∷ xs)
    → Ends
        (Added w set refs p (owned server junk ops) xs)
        (bind_port true server set p junk ops ok w)
unfolding bind_port bind_end listener_set_owner listener_alloc
bind_port_lem w server set refs p junk ops xs valid real apart =
    let some_memory : (p == 0) ≡ false = ground arith in
    let same : (p == p) ≡ true = ground arith in
    let start = bound-IsLsnSet w server set refs p junk ops xs valid apart in
    rw (some_memory, same)
      (Ends-bind
        (lsn_set_add_lem (bound server p junk ops w) set refs p (owned server junk ops) xs start
          real apart (set-same p p w.links.next)
          (put-same p _ (put p (some (owned 0 junk ops)) w.listeners)) (omega arith))
        (λ r added.
          Ends-bind
            (unref_lsn-Added (bound server p junk ops w) r set refs p (owned server junk ops) xs
              added apart.1)
            (λ t kept. ends (record {
              result = refl;
              set_of = kept.set_of;
              listener = kept.listener;
              others = λ q h.
                  kept.others q h
                  ∙ put-other p _ (put p (some (owned 0 junk ops)) w.listeners) q h
                  ∙ put-other p _ w.listeners q h;
            }))))
