-- ===== src/H6Client/New.antt =====
-- `h6_client_new`.
use h.Base.{◌≡◌, refl, ◌⊎◌, inl, inr, Bool, true, false, Option, none, some, if◌then◌else◌, arith}
use h.Errno.{Errno, Code, ok, minus}
use h.ProtoWatch.{Socket}
use h.Client.{fault}
use h.Client.Ends.{Ends, ends, Ends-bind, Ends-done}
use h.NetClient.{NetClient}
use h.NetClient.Made.{Made, network_client_new_lem}
use h.H6Client.{OpsPtr, junk, given, h6_client_kill, init_own, h6_client_new}

-- What `h6_client_new` leaves, with the base as `network_client_new` leaves it.
pub record MadeClient {Net : Type 0} (large memory made has_kill : Bool)
    (r : Bool × OpsPtr × NetClient Net) : Type 0 where
  pub ops : r.1 ≡ (if r.0 then given has_kill else junk)
  pub base : Made large memory made (some ok) (r.0, r.2)

module _ {Net : Type 0} where
  accepted :
      (result : Option Code) (has_kill memory made : Bool)
      → (result ≡ none) ⊎ (result ≡ some ok)
      → (r : Bool × NetClient Net) → Made true memory made (some ok) r
      → Ends (MadeClient true memory made has_kill) (init_own result has_kill r)
  accepted result has_kill memory made (inl e) (true, s) base =
      rw e (ends (record { ops = refl; base = base }))
  accepted result has_kill memory made (inr e) (true, s) base =
      rw e (ends (record { ops = refl; base = base }))
  accepted result has_kill memory made good (false, s) base =
      ends (record { ops = refl; base = base })

  refused :
      (e : Errno) (has_kill : Bool) (r : Bool × NetClient Net)
      → Made true true true (some ok) r
      → init_own (some (minus e)) has_kill r ≡ fault
  unfolding h6_client_kill
  refused e has_kill (true, s) base = refl
  refused e has_kill (false, s) base = absurd (ground (arith, base.made_one))

  -- Where the client has no `init` or it does not fail, `h6_client_new` ends: with a client that has its
  -- functions and a base as `network_client_new` makes it; or, where the size is too small, there is no
  -- memory or no watch, with nothing left allocated.
  pub h6_client_new_lem :
      (large memory made : Bool) (io : Socket Net) (result : Option Code) (has_kill : Bool)
      → (result ≡ none) ⊎ (result ≡ some ok)
      → Ends
          (MadeClient large memory made has_kill)
          (h6_client_new large memory made io result has_kill)
  unfolding h6_client_new
  h6_client_new_lem false memory made io result has_kill good = ends (record {
    ops = refl;
    base = record {
      made_one = refl;
      client = refl;
      watch = refl;
      has = refl;
      living = refl;
      client_refs = refl;
      watch_refs = refl;
      calls = refl;
      io = refl;
    };
  })
  h6_client_new_lem true memory made io result has_kill good =
      Ends-bind (network_client_new_lem true memory made io true true (some ok))
        (λ r base. accepted result has_kill memory made good r base)

  -- Where there is a client with its watch and the client's `init` fails, `h6_client_new` calls the
  -- `kill` of a client whose `ops` no one has set, and reads through what `malloc` left there.
  pub h6_client_new-init :
      (io : Socket Net) (e : Errno) (has_kill : Bool)
      → h6_client_new true true true io (some (minus e)) has_kill ≡ fault
  unfolding h6_client_new
  h6_client_new-init io e has_kill =
      let (r, runs, base) =
        Ends-done (network_client_new_lem true true true io true true (some ok)) in
      rw runs (refused e has_kill r base)
