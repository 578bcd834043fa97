-- ===== src/EvLoop/Tests.antt =====
-- An event attached to a loop, and a loop with work to do.
use h.Base.{
  ℕ, ◌≡◌, refl, sym, ◌∙◌, true, false, ◌==◌, Bool-cases, inl, inr, Option, none, some, List, [],
  ◌∷◌, if◌then◌else◌, arith,
}
use h.Base.Yields.{Yields}
use mathlib.Core.Path.{subst}
use mathlib.Core.Option.{some-injective}
use h.EvLoop.{update, ref, Mask, Event, ev_new, pos, Op, ops_remove, ops_modify, EvLoop}
use h.EvLoop.Refs.{there, gone}
use h.EvLoop.Requests.{IsCounted}
use h.EvLoop.Users.{more}
use h.EvLoop.Steps.{force_woken_up}
use h.EvLoop.Steps.Freed.{force_woken_up-freed}
use h.EvLoop.Script.{Shared, take, wake, request, run_requests, IsFine, AllMay, run_requests_lem}

abbrev reading : Mask
reading = record { reads = true; writes = false }

-- One user of event 5.
abbrev user : ℕ → ℕ
user a = if 5 == a then 1 else 0

abbrev only : Event → ℕ → Option Event
only ev a = if 5 == a then some ev else none

abbrev loop_with : Event → List Op → List ℕ → EvLoop
loop_with ev ops listed = record {
  events = only ev;
  operations = ops;
  ev_list = listed;
  loop_quited = false;
  loop_running = true;
  request_pending = false;
  calls = [];
}

abbrev fresh : Event
fresh = ev_new (pos 3) reading

abbrev busy : Event
busy = record fresh { attached = true; ref_count = 4 }

-- Event 5 in the list, to be removed and modified.
abbrev work : EvLoop
work = loop_with busy (ops_modify 5 ∷ ops_remove 5 ∷ []) (5 ∷ [])

fresh-IsCounted : IsCounted user (loop_with fresh [] [])
fresh-IsCounted = record {
  at = λ a. elim (Bool-cases (5 == a)) [
    | inl hit ↦ rw hit (there (omega arith) (omega arith) λ h. absurd (omega arith))
    | inr miss ↦ rw miss (gone (omega arith))
  ];
}

work-IsCounted : IsCounted user work
work-IsCounted = record {
  at = λ a. elim (Bool-cases (5 == a)) [
    | inl hit ↦ rw hit (there (omega arith) (omega arith) λ h. refl)
    | inr miss ↦ rw miss (gone (omega arith))
  ];
}

abbrev after_take : Shared
after_take = (
  more 5 user,
  record work { events = update 5 (some (record busy { ref_count = 5 })) work.events },
)

taken : request (take 5) (user, work) ≡ some after_take
unfolding request ref
taken = refl

wake-AllMay : (t : Shared) → request (take 5) (user, work) ≡ some t → AllMay (wake ∷ []) t
wake-AllMay t same =
    let known : after_take ≡ t = some-injective after_take t (sym taken ∙ same) in
    subst (λ t. AllMay (wake ∷ []) t) known
      ((omega arith, (omega arith, tt)), (λ a. ground arith), λ u after. tt)

run_requests_lem_example : Yields IsFine (run_requests (take 5 ∷ wake ∷ []) (user, work))
run_requests_lem_example =
    run_requests_lem (take 5 ∷ wake ∷ []) (user, work) work-IsCounted
      (omega arith, (λ a. ground arith), wake-AllMay)

-- Nobody uses event 5 any more, which the loop is to remove.
abbrev no_user : ℕ → ℕ
no_user a = 0

abbrev abandoned : EvLoop
abandoned = loop_with (record fresh { attached = true; ref_count = 2 }) (ops_remove 5 ∷ []) (5 ∷ [])

abandoned-IsCounted : IsCounted no_user abandoned
abandoned-IsCounted = record {
  at = λ a. elim (Bool-cases (5 == a)) [
    | inl hit ↦ rw hit (there (omega arith) (omega arith) λ h. refl)
    | inr miss ↦ rw miss (gone (omega arith))
  ];
}

force_woken_up-freed_example : force_woken_up abandoned ≡ none
force_woken_up-freed_example =
    force_woken_up-freed 5 [] abandoned abandoned-IsCounted (λ a. ground arith) refl refl
      (omega arith) refl
