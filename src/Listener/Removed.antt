-- ===== src/Listener/Removed.antt =====
-- `lsn_set_del`.
use h.Base.{
  ℕ, ◌-◌, ◌<◌, ◌≡◌, ◌≢◌, refl, sym, ◌∙◌, inl, inr, true, false, Bool-cases, Option, none, some,
  List, [], ◌∷◌, ◌++◌, ◌==◌, if◌then◌else◌, arith,
}
use mathlib.Core.Path.{subst}
use mathlib.Core.Option.{some-injective}
use h.Base.Yields.{Yields, yields}
use h.Links.{Links}
use h.Links.Apart.{Apart, Apart-append, Distinct-at}
use h.Links.Remove.{Left, list_del_init_lem, member-linked}
use h.Client.{◌>>=◌, put}
use h.Client.Ends.{Ends, ends}
use h.Client.Valid.{put-same, put-other}
use h.Listener.{
  Listener, LsnCall, fin_call, Listeners, has, with_links, fin_lsn, unref_lsn, del_lsn, lsn_set_del,
  unlock_set,
}
use h.Listener.Valid.{Members, member, Members-put, IsLsnSet, lock_set_lem, unlock_set_lem}

-- What is left of a listener that loses a reference.
abbrev pub less_one : Listener → Option Listener
less_one l = if l.ref_count == 1 then none else some (record l { ref_count = l.ref_count - 1 })

abbrev pub calls_fin : ℕ → Listener → List LsnCall → List LsnCall
calls_fin p l calls =
    if l.ref_count == 1 then if has (λ o. o.fin) l.ops then fin_call p ∷ calls else calls else calls

-- What a listener leaves that is taken out of its set.
pub record Removed (w : Listeners) (set refs p : ℕ) (l : Listener) (xs : List ℕ) (r : Listeners)
    : Type 0 where
  pub set_of : IsLsnSet r set refs xs
  pub listener : r.listeners p ≡ less_one l
  pub others : (q : ℕ) → q ≢ p → r.listeners q ≡ w.listeners q
  pub calls : r.calls ≡ calls_fin p l w.calls

Members-first :
    {listeners : ℕ → Option Listener} {p : ℕ} {xs : List ℕ}
    → Members listeners (p ∷ xs)
    → ((l : Listener) × (listeners p ≡ some l) × (0 < l.ref_count)) × Members listeners xs
Members-first (member {l = l} alive pos rest) = ((l, alive, pos), rest)

Members-at :
    {listeners : ℕ → Option Listener} (p : ℕ) (xs ys : List ℕ)
    → Members listeners (xs ++ (p ∷ ys))
    → ((l : Listener) × (listeners p ≡ some l) × (0 < l.ref_count)) × Members listeners (xs ++ ys)
Members-at p [] ys members = Members-first members
Members-at p (x ∷ xs) ys members =
    let ((l, alive, pos), rest) = Members-first members in
    let (found, others) = Members-at p xs ys rest in (found, member alive pos others)

-- The reference of the set, with the set's lock held and the node alone.
unref_end :
    (w : Listeners) (set refs p : ℕ) (l : Listener) (xs : List ℕ) {o : Option Links}
    → Members w.listeners xs
    → Apart p xs
    → w.listeners p ≡ some l
    → 0 < l.ref_count
    → Yields (Left set p p xs) o
    → Ends (Removed w set refs p l xs) (
        with_links (record w { sets = put set (some (refs, true)) w.sets }) o
        >>= unref_lsn p
        >>= unlock_set set)
unfolding unref_lsn fin_lsn
unref_end w set refs p l xs members apart alive pos (yields {a = m} left) =
    let counted : (l.ref_count == 0) ≡ false = ground arith in
    let alone : (m.next p == p) ≡ true = ground (arith, left.next) in
    let locked = put set (some (refs, true)) w.sets in
    elim (Bool-cases (l.ref_count == 1)) [
      | inl final ↦
          rw (alive, counted, final, alone)
            (rw
              (unlock_set_lem {held = true}
                (record w {
                  sets = locked;
                  links = m;
                  calls = if has (λ o. o.fin) l.ops then fin_call p ∷ w.calls else w.calls;
                  listeners = put p none w.listeners;
                })
                (put-same set _ w.sets))
              (ends (record {
                set_of = record {
                  ring = left.ring;
                  free = put-same set _ locked;
                  members = Members-put p none apart members;
                };
                listener = rw final (put-same p none w.listeners);
                others = λ q h. put-other p none w.listeners q h;
                calls = rw final refl;
              })))
      | inr shared ↦
          rw (alive, counted, shared)
            (rw
              (unlock_set_lem {held = true}
                (record w {
                  sets = locked;
                  links = m;
                  listeners = put p (some (record l { ref_count = l.ref_count - 1 })) w.listeners;
                })
                (put-same set _ w.sets))
              (ends (record {
                set_of = record {
                  ring = left.ring;
                  free = put-same set _ locked;
                  members = Members-put p _ apart members;
                };
                listener = rw shared (put-same p _ w.listeners);
                others = λ q h. put-other p _ w.listeners q h;
                calls = rw shared refl;
              })))
    ]

-- `lsn_set_del` takes a listener out of its set, wherever it stands, keeps the others in their order,
-- and drops the set's reference to it; with the last one the listener's `fin` is called and it is
-- freed. No other listener changes.
pub lsn_set_del_lem :
    (w : Listeners) (set refs p : ℕ) (l : Listener) (xs ys : List ℕ)
    → IsLsnSet w set refs (xs ++ (p ∷ ys))
    → w.listeners p ≡ some l
    → Ends (Removed w set refs p l (xs ++ ys)) (lsn_set_del set p w)
unfolding lsn_set_del del_lsn
lsn_set_del_lem w set refs p l xs ys valid alive =
    let linked : (w.links.next p == p) ≡ false = member-linked w.links set p xs ys valid.ring in
    let (front, back) = Distinct-at p xs ys valid.ring.distinct.1 in
    let ((found, there, pos), others) = Members-at p xs ys valid.members in
    let same : found ≡ l = some-injective found l (sym there ∙ alive) in
    rw (lock_set_lem w valid.free, linked)
      (unref_end w set refs p l (xs ++ ys) others (Apart-append p xs ys front back) alive
        (subst (λ k. 0 < k.ref_count) same pos) (list_del_init_lem w.links set p xs ys valid.ring))
