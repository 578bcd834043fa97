-- ===== src/RelaySet/Tests.antt =====
-- Two pairs, added to a set and taken out of it.
use h.Base.{ℕ, ◌≡◌, ◌≢◌, refl, false, List, [], ◌∷◌, ◌⊎◌, inl, inr, arith}
use h.Errno.{ok, minus, einval}
use h.Links.{Links}
use h.Links.Joins.{last, IsRing}
use h.Client.Ends.{Ends}
use h.RelaySet.{Relays, RelayCall, add, del, run_relays}
use h.RelaySet.Pairs.{run_pairs}
use h.RelaySet.Calls.{IsRelaySet, run_relays_lem}

abbrev alone : Links
alone = record { next = λ q. q; prev = λ q. q }

abbrev relays : Relays
relays = record { links = alone; set_of = λ q. 0; locked = λ q. false }

alone-IsRing : IsRing alone 1 []
alone-IsRing = record {
  joins = last refl refl;
  distinct = (tt, tt);
  real = ((λ e. absurd (omega arith)), tt);
}

-- The pairs at 5 and 6.
abbrev IsPair : ℕ → Type 0
IsPair p = (p ≡ 5) ⊎ (p ≡ 6)

IsPair-real : (p : ℕ) → IsPair p → p ≢ 0
IsPair-real p (inl e) = λ z. absurd (omega arith)
IsPair-real p (inr e) = λ z. absurd (omega arith)

IsPair-other : (p : ℕ) → IsPair p → p ≢ 1
IsPair-other p (inl e) = λ z. absurd (omega arith)
IsPair-other p (inr e) = λ z. absurd (omega arith)

relays-IsRelaySet : IsRelaySet relays IsPair 1 []
relays-IsRelaySet = record {
  ring = alone-IsRing;
  free = refl;
  alone = λ p known out. refl;
  owner = λ p known. refl;
  fair = λ p known. (IsPair-real p known, IsPair-other p known);
}

abbrev calls : List RelayCall
calls = add 5 ∷ add 6 ∷ add 5 ∷ del 5 ∷ add 5 ∷ []

calls_run : run_pairs calls [] ≡ (ok ∷ ok ∷ minus einval ∷ ok ∷ [], 5 ∷ 6 ∷ [])
calls_run = refl

run_relays_lem_example :
    Ends
      (λ (outs, t). (outs ≡ (run_pairs calls []).0) × IsRelaySet t IsPair 1 (run_pairs calls []).1)
      (run_relays 1 calls relays)
run_relays_lem_example =
    run_relays_lem relays 1 calls [] relays-IsRelaySet
      (inl refl, (inr refl, (inl refl, (inl refl, (inl refl, tt)))))
