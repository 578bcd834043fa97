-- ===== src/Listener/Kill.antt =====
-- `lsn_set_kill_unref`.
use h.Base.{ℕ, suc, ◌≡◌, ◌≢◌, refl, sym, true, false, some, List, [], ◌∷◌, ◌==◌, arith}
use h.Base.Yields.{Yields-some}
use h.Errno.{ok}
use h.Links.Apart.{Apart}
use h.Links.Joins.{first-next}
use h.Links.Remove.{list_del_lem}
use h.Client.{done, fault, put}
use h.Client.Ends.{Ends, Ends-weaken}
use h.Listener.{
  LsnOps, Listener, kill_call, Listeners, has, called, fin_lsn, unref_lsn, self_kill_lsn,
  listener_kill, listener_kill_unref, kill_lsns, lsn_set_self_kill, lsn_set_kill_unref, bind_port,
}
use h.Listener.Valid.{IsLsnSet, lock_set_lem}
use h.Listener.Members.{owned, bind_port_lem}

-- `listener_kill` of a listener without a set calls its `kill`, if there is one.
pub kill_alone :
    (w : Listeners) (p : ℕ) (l : Listener)
    → w.listeners p ≡ some l
    → l.lset ≡ 0
    → listener_kill p w ≡ done (called (has (λ o. o.kill) l.ops) (kill_call p) w)
unfolding listener_kill self_kill_lsn
kill_alone w p l alive no_set =
    let alone : (l.lset == 0) ≡ true = ground arith in rw alive (rw alone refl)

-- The last reference to a listener whose node was taken out by `list_del`.
kill_unref-last :
    (w : Listeners) (p : ℕ) (l : Listener)
    → w.listeners p ≡ some l
    → l.lset ≡ 0
    → l.ref_count ≡ 1
    → w.links.next p ≡ 0
    → p ≢ 0
    → listener_kill_unref p w ≡ fault
unfolding listener_kill_unref unref_lsn fin_lsn
kill_unref-last w p l alive no_set single cleared real =
    let counted : (l.ref_count == 0) ≡ false = ground arith in
    let final : (l.ref_count == 1) ≡ true = ground arith in
    let linked : (w.links.next p == p) ≡ false = ground arith in
    rw (kill_alone w p l alive no_set) (rw (alive, counted, final, linked) refl)

-- Where the set holds the last reference to its newest member, whose `lset` is NULL,
-- `lsn_set_kill_unref` fails the assertion that the listener is in no list: `list_del` does not leave
-- its node alone.
pub lsn_set_kill_unref-fault :
    (w : Listeners) (rounds set refs x : ℕ) (l : Listener) (xs : List ℕ)
    → IsLsnSet w set refs (x ∷ xs)
    → w.listeners x ≡ some l
    → l.lset ≡ 0
    → l.ref_count ≡ 1
    → lsn_set_kill_unref (suc rounds) set w ≡ fault
unfolding lsn_set_kill_unref lsn_set_self_kill kill_lsns
lsn_set_kill_unref-fault w rounds set refs x l xs valid alive no_set single =
    let other : (x == set) ≡ false = ground (arith, valid.ring.distinct.0.0) in
    let (m, e, left) = Yields-some (list_del_lem w.links set x [] xs valid.ring) in
    rw (lock_set_lem w valid.free, first-next valid.ring.joins, other, e)
      (rw
        (kill_unref-last (record w { sets = put set (some (refs, true)) w.sets; links = m }) x l
          alive no_set single left.next (λ q. valid.ring.real.1.0 (sym q)))
        refl)

-- Where `malloc` left NULL in the listener's pointer to its set: after
-- `h6_local_proxy_server_bind_port` has returned 0, killing the server's set fails an assertion.
pub bind_port-kill :
    (w : Listeners) (rounds server set refs p : ℕ) (ops : LsnOps) (xs : List ℕ)
    → IsLsnSet w set refs xs
    → p ≢ 0
    → Apart p (set ∷ xs)
    → Ends
        (λ r. (r.0 ≡ ok) × (lsn_set_kill_unref (suc rounds) set r.1 ≡ fault))
        (bind_port true server set p 0 ops ok w)
bind_port-kill w rounds server set refs p ops xs valid real apart =
    Ends-weaken (bind_port_lem w server set refs p 0 ops xs valid real apart) (λ r added. (
      added.result,
      lsn_set_kill_unref-fault r.1 rounds set refs p (owned server 0 ops) xs added.set_of
          added.listener refl refl,
    ))
