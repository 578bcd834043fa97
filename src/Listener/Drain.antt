-- ===== src/Listener/Drain.antt =====
-- `lsn_set_kill_unref` where others hold references to the members.
use h.Base.{
  ℕ, zero, suc, ◌-◌, ◌<◌, ◌≡◌, refl, sym, ap, ◌∙◌, inl, inr, true, false, Bool-cases, Option, none,
  some, List, [], ◌∷◌, length, ◌==◌, if◌then◌else◌, arith,
}
use h.Base.Yields.{Yields-some}
use h.Links.{Links, list_empty}
use h.Links.Apart.{Apart}
use h.Links.Joins.{Joins, link, last, end-next, first-next, rest-Joins, IsRing}
use h.Links.Remove.{list_del_lem}
use h.Client.{done, fault, put, ◌>>=◌}
use h.Client.Ends.{Ends, ends, Ends-bind-two, Ends-weaken}
use h.Client.Valid.{put-same, put-other}
use h.Listener.{
  Listener, kill_call, Listeners, has, called, unref_lsn, listener_kill_unref, kill_lsns,
  lsn_set_self_kill, lsn_set_unref, lsn_set_kill_unref, lock_set, unlock_set,
}
use h.Listener.Valid.{lock_set_lem, unlock_set_lem}
use h.Listener.Kill.{kill_alone}

-- Members that someone else holds too, whose pointer to a set is NULL.
pub data Held (listeners : ℕ → Option Listener) : List ℕ → Type 0 where
  no_more : Held listeners []
  held :
      {x : ℕ} {l : Listener} {xs : List ℕ}
      → listeners x ≡ some l
      → l.lset ≡ 0
      → 1 < l.ref_count
      → Held listeners xs
      → Held listeners (x ∷ xs)

-- Each of them with a reference less.
pub data Lessened (before after : ℕ → Option Listener) : List ℕ → Type 0 where
  no_more : Lessened before after []
  less :
      {x : ℕ} {l : Listener} {xs : List ℕ}
      → before x ≡ some l
      → after x ≡ some (record l { ref_count = l.ref_count - 1 })
      → Lessened before after xs
      → Lessened before after (x ∷ xs)

Held-put :
    {listeners : ℕ → Option Listener} {xs : List ℕ} (p : ℕ) (o : Option Listener)
    → Apart p xs
    → Held listeners xs
    → Held (put p o listeners) xs
Held-put p o apart no_more = no_more
Held-put {listeners} p o apart (held {x = x} alive no_set more rest) =
    held (put-other p o listeners x (λ e. apart.0 (sym e)) ∙ alive) no_set more
      (Held-put p o apart.1 rest)

Lessened-put :
    (p : ℕ) (o : Option Listener) {before after : ℕ → Option Listener} {xs : List ℕ}
    → Apart p xs
    → Lessened (put p o before) after xs
    → Lessened before after xs
Lessened-put p o apart no_more = no_more
Lessened-put p o {before} apart (less {x = x} was is rest) =
    less (sym (put-other p o before x (λ e. apart.0 (sym e))) ∙ was) is
      (Lessened-put p o apart.1 rest)

-- What the loop leaves.
record Emptied (w : Listeners) (set : ℕ) (xs : List ℕ) (r : Listeners) : Type 0 where
  pub ring : IsRing r.links set []
  pub sets : r.sets ≡ w.sets
  pub lessened : Lessened w.listeners r.listeners xs
  pub others : (q : ℕ) → Apart q xs → r.listeners q ≡ w.listeners q

kill_unref-shared :
    (w : Listeners) (p : ℕ) (l : Listener)
    → w.listeners p ≡ some l
    → l.lset ≡ 0
    → 1 < l.ref_count
    → listener_kill_unref p w
      ≡ done (record (called (has (λ o. o.kill) l.ops) (kill_call p) w) {
        listeners = put p (some (record l { ref_count = l.ref_count - 1 })) w.listeners;
      })
unfolding listener_kill_unref unref_lsn
kill_unref-shared w p l alive no_set more =
    let counted : (l.ref_count == 0) ≡ false = ground arith in
    let shared : (l.ref_count == 1) ≡ false = ground arith in
    rw (kill_alone w p l alive no_set) (rw (alive, counted, shared) refl)

-- The node behind a node, before and after the latter goes.
after-next :
    {m t : Links} {set x : ℕ} {xs : List ℕ}
    → Joins m x xs set
    → Joins t set xs set
    → m.next x ≡ t.next set
after-next (last n p) (last n' p') = n ∙ sym n'
after-next (link n p rest) (link n' p' rest') = n ∙ sym n'

kill_lsns_lem :
    (w : Listeners) (rounds set : ℕ) (xs : List ℕ)
    → length xs < rounds
    → IsRing w.links set xs
    → Held w.listeners xs
    → Ends
        (Emptied w set xs)
        (kill_lsns rounds set (w.links.next set) (w.links.next (w.links.next set)) w)
unfolding kill_lsns
kill_lsns_lem w zero set xs enough ring members = absurd (omega arith)
kill_lsns_lem w (suc rounds) set [] enough ring no_more =
    let back : (w.links.next set == set) ≡ true = ground (arith, end-next ring.joins) in
    rw back (ends (record { ring = ring; sets = refl; lessened = no_more; others = λ q h. refl }))
kill_lsns_lem w (suc rounds) set (x ∷ xs) enough ring (held {l = l} alive no_set more members) =
    let other : (x == set) ≡ false = ground (arith, ring.distinct.0.0) in
    let (m, e, left) = Yields-some (list_del_lem w.links set x [] xs ring) in
    let rest = record (called (has (λ o. o.kill) l.ops) (kill_call x) w) {
      links = m;
      listeners = put x (some (record l { ref_count = l.ref_count - 1 })) w.listeners;
    } in
    let apart = ring.distinct.1.0 in
    let again =
      kill_lsns_lem rest rounds set xs (omega arith) left.ring (Held-put x _ apart members) in
    rw (first-next ring.joins, other, e)
      (rw
        (
          kill_unref-shared (record w { links = m }) x l alive no_set more,
          after-next (rest-Joins ring.joins) left.ring.joins,
        )
        (Ends-weaken again (λ r emptied. record {
          ring = emptied.ring;
          sets = emptied.sets;
          lessened =
              less alive (emptied.others x apart ∙ put-same x _ w.listeners)
                (Lessened-put x _ apart emptied.lessened);
          others = λ q h. emptied.others q h.1 ∙ put-other x _ w.listeners q h.0;
        })))

-- What the whole leaves.
pub record Drained (w : Listeners) (set refs : ℕ) (xs : List ℕ) (r : Listeners) : Type 0 where
  pub set_left : r.sets set ≡ (if refs == 1 then none else some (refs - 1, false))
  pub lessened : Lessened w.listeners r.listeners xs
  pub others : (q : ℕ) → Apart q xs → r.listeners q ≡ w.listeners q

finish :
    (w r : Listeners) (set refs : ℕ) (xs : List ℕ)
    → Emptied (record w { sets = put set (some (refs, true)) w.sets }) set xs r
    → 0 < refs
    → Ends
        (Drained w set refs xs)
        ((if list_empty set r.links then unlock_set set r else fault) >>= lsn_set_unref set)
unfolding lsn_set_unref
finish w r set refs xs emptied pos =
    let empty : (r.links.next set == set) ≡ true = ground (arith, end-next emptied.ring.joins) in
    let some_set : (set == 0) ≡ false = ground (arith, emptied.ring.real.0) in
    let counted : (refs == 0) ≡ false = ground arith in
    rw empty (
      rw (unlock_set_lem {held = true} r (ap (λ f. f set) emptied.sets ∙ put-same set _ w.sets)) (
        rw (some_set, put-same set (some (refs, false)) r.sets, counted)
          (elim (Bool-cases (refs == 1)) [
            | inl final ↦
                rw (final, empty)
                  (ends (record {
                    set_left = rw final (put-same set none (put set (some (refs, false)) r.sets));
                    lessened = emptied.lessened;
                    others = emptied.others;
                  }))
            | inr shared ↦ rw shared (
                ends (record {
                  set_left =
                      rw shared (
                        put-same set (some (refs - 1, false))
                          (put set (some (refs, false)) r.sets));
                  lessened = emptied.lessened;
                  others = emptied.others;
                }))
          ])))

-- Where someone else holds each member, whose `lset` is NULL, and the rounds are more than the
-- members, `lsn_set_kill_unref` ends: each member has a reference less, no other listener changes,
-- and the set has one less too, or is freed with the last.
pub lsn_set_kill_unref_lem :
    (w : Listeners) (rounds set refs : ℕ) (xs : List ℕ)
    → length xs < rounds
    → IsRing w.links set xs
    → Held w.listeners xs
    → w.sets set ≡ some (refs, false)
    → 0 < refs
    → Ends (Drained w set refs xs) (lsn_set_kill_unref rounds set w)
unfolding lsn_set_kill_unref lsn_set_self_kill
lsn_set_kill_unref_lem w rounds set refs xs enough ring members free pos =
    rw (lock_set_lem w free) (
      Ends-bind-two _ _
        (kill_lsns_lem (record w { sets = put set (some (refs, true)) w.sets }) rounds set xs enough
          ring members)
        (λ r emptied. finish w r set refs xs emptied pos))

-- The last reference to a set without members.
pub lsn_set_unref-last :
    (w : Listeners) (set : ℕ)
    → IsRing w.links set []
    → w.sets set ≡ some (1, false)
    → lsn_set_unref set w ≡ done (record w { sets = put set none w.sets })
unfolding lsn_set_unref
lsn_set_unref-last w set ring free =
    let empty : (w.links.next set == set) ≡ true = ground (arith, end-next ring.joins) in
    let some_set : (set == 0) ≡ false = ground (arith, ring.real.0) in
    rw (some_set, free, empty) refl

-- A set that is freed.
pub lsn_set_kill_unref-freed :
    (w : Listeners) (rounds set : ℕ) → w.sets set ≡ none → lsn_set_kill_unref rounds set w ≡ fault
unfolding lsn_set_kill_unref lsn_set_self_kill lock_set
lsn_set_kill_unref-freed w rounds set freed = rw freed refl
