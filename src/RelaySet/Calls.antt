-- ===== src/RelaySet/Calls.antt =====
-- Calls on a set are calls on a list of pairs without repetition.
use h.Base.{
  ℕ, ◌≡◌, ◌≢◌, refl, sym, ap₂, ◌∙◌, inl, inr, Bool, true, false, Bool-cases, List, [], ◌∷◌, ◌++◌,
  ◌==◌, ==-eq, if◌then◌else◌, arith,
}
use mathlib.Core.Path.{subst}
use h.Base.Yields.{Yields-some}
use h.Links.{set, list_add}
use h.Links.Apart.{Apart-append, Distinct-at}
use h.Links.Joins.{IsRing, set-same}
use h.Links.Insert.{list_add_lem, list_add-others}
use h.Links.Remove.{member-linked, list_del_init-frame}
use h.Client.{done, ◌>>=◌}
use h.Client.Ends.{Ends, ends, Ends-bind}
use h.RelaySet.Pairs.{
  contains, without, call_pairs, run_pairs, pair_in, AllKnown, not-contains, Apart-contains,
  contains-at, contains-drop, without-out,
}
use h.RelaySet.{
  Relays, held, RelayCall, add, del, lock_relay, unlock_relay, add_pair, relay_set_add, del_pair,
  relay_set_del, call_relay, run_relays,
}

-- A set whose lock is free with its pairs, among those of which the calls speak: each of these knows
-- whether it is in the set, and is in no other list.
pub record IsRelaySet (r : Relays) (all : ℕ → Type 0) (rs : ℕ) (xs : List ℕ) : Type 0 where
  pub ring : IsRing r.links rs xs
  pub free : r.locked rs ≡ false
  pub alone : (p : ℕ) → all p → contains p xs ≡ false → r.links.next p ≡ p
  pub owner : (p : ℕ) → all p → r.set_of p ≡ (if contains p xs then rs else 0)
  pub fair : (p : ℕ) → all p → (p ≢ 0) × (p ≢ rs)

unlocked : (rs : ℕ) (f : ℕ → Bool) → held rs false f rs ≡ false
unlocked rs f = let same : (rs == rs) ≡ true = ground arith in rw same refl

module _ {all : ℕ → Type 0} where
  -- A member is linked.
  linked :
      (r : Relays) (rs p : ℕ) (xs : List ℕ)
      → IsRelaySet r all rs xs
      → contains p xs ≡ true
      → (r.links.next p == p) ≡ false
  linked r rs p xs is inside =
      let (front, back, e, left) = contains-at p xs inside in
      member-linked r.links rs p front back (subst (λ l. IsRing r.links rs l) e is.ring)

  -- The state behind an addition that is accepted.
  added :
      (r : Relays) (rs p : ℕ) (xs : List ℕ)
      → IsRelaySet r all rs xs
      → all p
      → contains p xs ≡ false
      → IsRelaySet
          (record r {
            set_of = set p rs r.set_of;
            links = list_add p rs r.links;
            locked = held rs false (held rs true r.locked);
          })
          all
          rs
          (p ∷ xs)
  added r rs p xs is known out =
      let (real, other) = is.fair p known in
      record {
        ring = list_add_lem r.links p rs xs is.ring real (other, not-contains p xs out);
        free = unlocked rs (held rs true r.locked);
        alone = λ q some_pair away.
            list_add-others r.links p rs q (λ e. (is.fair q some_pair).1 e) (ground arith)
            ∙ is.alone q some_pair (ground arith);
        owner = λ q some_pair. elim (Bool-cases (q == p)) [
          | inl same ↦ rw same refl
          | inr differs ↦ rw differs (is.owner q some_pair)
        ];
        fair = is.fair;
      }

  -- A member that is taken out.
  removed :
      (r : Relays) (rs p : ℕ) (front back : List ℕ)
      → IsRelaySet r all rs (front ++ (p ∷ back))
      → all p
      → Ends
          (λ t. IsRelaySet t all rs (front ++ back))
          (del_pair p (record r { locked = held rs true r.locked })
            >>= (λ (err, r). done (unlock_relay rs r)))
  unfolding del_pair unlock_relay
  removed r rs p front back is known =
      let busy : (r.links.next p == p) ≡ false = member-linked r.links rs p front back is.ring in
      let (m, e, (left, frame)) =
        Yields-some (list_del_init-frame r.links rs p front back is.ring) in
      let (before, behind) = Distinct-at p front back is.ring.distinct.1 in
      let gone = Apart-contains p (front ++ back) (Apart-append p front back before behind) in
      rw (busy, e)
        (ends (record {
          ring = left.ring;
          free = unlocked rs (held rs true r.locked);
          alone = λ q some_pair away. elim (Bool-cases (q == p)) [
            | inl same ↦ subst (λ k. m.next k ≡ k) (sym (==-eq q p same)) left.next
            | inr differs ↦
                let other : q ≢ p = ground arith in
                frame q ((is.fair q some_pair).1, not-contains q (front ++ back) away) other
                ∙ is.alone q some_pair (contains-drop q p front back other ∙ away)
          ];
          owner = λ q some_pair. elim (Bool-cases (q == p)) [
            | inl same ↦ rw (same, ==-eq q p same) (rw gone refl)
            | inr differs ↦
                let other : q ≢ p = ground arith in
                rw (differs, sym (contains-drop q p front back other)) (is.owner q some_pair)
          ];
          fair = is.fair;
        }))

  -- The state with the lock taken and given back.
  relocked :
      (r : Relays) (rs : ℕ) (xs : List ℕ)
      → IsRelaySet r all rs xs
      → IsRelaySet (record r { locked = held rs false (held rs true r.locked) }) all rs xs
  relocked r rs xs is = record {
    ring = is.ring;
    free = unlocked rs (held rs true r.locked);
    alone = is.alone;
    owner = is.owner;
    fair = is.fair;
  }

  add_lem :
      (r : Relays) (rs p : ℕ) (xs : List ℕ)
      → IsRelaySet r all rs xs
      → all p
      → Ends
          (λ (out, t).
            (out ≡ (call_pairs (add p) xs).0) × IsRelaySet t all rs (call_pairs (add p) xs).1)
          (call_relay rs (add p) r)
  unfolding call_relay relay_set_add lock_relay unlock_relay add_pair
  add_lem r rs p xs is known = elim (Bool-cases (contains p xs)) [
    | inl inside ↦
        rw is.free (rw (linked r rs p xs is inside, inside) (ends (refl, relocked r rs xs is)))
    | inr outside ↦
        let free : (r.links.next p == p) ≡ true = ground (arith, is.alone p known outside) in
        rw is.free (rw (free, outside) (ends (refl, added r rs p xs is known outside)))
  ]

  stays :
      (r : Relays) (rs p : ℕ) (xs : List ℕ)
      → IsRelaySet r all rs xs
      → (r.links.next p == p) ≡ true
      → Ends
          (λ t. IsRelaySet t all rs xs)
          (del_pair p (record r { locked = held rs true r.locked })
            >>= (λ (err, r). done (unlock_relay rs r)))
  unfolding del_pair unlock_relay
  stays r rs p xs is free = rw free (ends (relocked r rs xs is))

  del_lem :
      (r : Relays) (rs p : ℕ) (xs : List ℕ)
      → IsRelaySet r all rs xs
      → all p
      → Ends (λ t. IsRelaySet t all rs (without p xs)) (relay_set_del rs p r)
  unfolding relay_set_del lock_relay
  del_lem r rs p xs is known = elim (Bool-cases (contains p xs)) [
    | inl inside ↦
        let (front, back, e, left) = contains-at p xs inside in
        let there = subst (λ l. IsRelaySet r all rs l) e is in
        rw (is.free, left) (removed r rs p front back there known)
    | inr outside ↦
        let free : (r.links.next p == p) ≡ true = ground (arith, is.alone p known outside) in
        rw (is.free, without-out p xs outside) (stays r rs p xs is free)
  ]

  call_relay_lem :
      (r : Relays) (rs : ℕ) (c : RelayCall) (xs : List ℕ)
      → IsRelaySet r all rs xs
      → all (pair_in c)
      → Ends
          (λ (out, t). (out ≡ (call_pairs c xs).0) × IsRelaySet t all rs (call_pairs c xs).1)
          (call_relay rs c r)
  unfolding call_relay
  call_relay_lem r rs (add p) xs is known = add_lem r rs p xs is known
  call_relay_lem r rs (del p) xs is known =
      Ends-bind (del_lem r rs p xs is known) (λ t after. ends (refl, after))

  -- Where each pair of the calls is not NULL, is not the set, and is in no other list: any sequence of
  -- additions and removals on a set whose lock is free ends, returns what the same calls return on a
  -- list without repetition, leaves the lock free and the pairs of that list in the set, each with
  -- the set in `pair->set`, and all other pairs alone, with NULL there.
  pub run_relays_lem :
      (r : Relays) (rs : ℕ) (calls : List RelayCall) (xs : List ℕ)
      → IsRelaySet r all rs xs
      → AllKnown all calls
      → Ends
          (λ (outs, t).
            (outs ≡ (run_pairs calls xs).0) × IsRelaySet t all rs (run_pairs calls xs).1)
          (run_relays rs calls r)
  unfolding run_relays
  run_relays_lem r rs [] xs is known = ends (refl, is)
  run_relays_lem r rs (c ∷ calls) xs is known =
      Ends-bind (call_relay_lem r rs c xs is known.0) (λ (out, t) (same, after).
        Ends-bind (run_relays_lem t rs calls (call_pairs c xs).1 after known.1)
          (λ (outs, u) (rest, last). ends (ap₂ (λ a b. a ++ b) same rest, last)))

-- `relay_set_del` does not ask which set a pair is in: called with another set whose lock is free, it
-- takes the pair out of the set that it is in, also while that set's lock is held.
pub relay_set_del-other :
    (r : Relays) (rs other p : ℕ) (front back : List ℕ)
    → IsRing r.links rs (front ++ (p ∷ back))
    → r.locked other ≡ false
    → rs ≢ other
    → Ends
        (λ t. IsRing t.links rs (front ++ back) × (t.set_of p ≡ 0) × (t.locked rs ≡ r.locked rs))
        (relay_set_del other p r)
unfolding relay_set_del lock_relay del_pair unlock_relay
relay_set_del-other r rs other p front back ring free away =
    let busy : (r.links.next p == p) ≡ false = member-linked r.links rs p front back ring in
    let (m, e, (left, frame)) = Yields-some (list_del_init-frame r.links rs p front back ring) in
    let differs : (rs == other) ≡ false = ground arith in
    rw (free, busy, e) (ends (left.ring, set-same p 0 r.set_of, rw differs refl))
