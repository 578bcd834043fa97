-- ===== src/Client/Alloc.antt =====
-- `client_alloc`.
use h.Base.{
  ℕ, ◌<◌, ◌≡◌, ◌≢◌, refl, ◌∙◌, inl, inr, Bool, true, false, not, Bool-cases, ◌&&◌, Option, none,
  some, ◌∷◌, ◌==◌, if◌then◌else◌, arith,
}
use h.Base.Words.{u32_mod, add_u32, sub_u32}
use h.Errno.{Errno, Code, ok, minus, is_ok}
use h.Links.{Links, list_init}
use h.Client.{
  Ops, Client, init_call, World, put, has, call, new_client, obj_free, obj_unref, init_end,
  client_alloc,
}
use h.Client.Ends.{Ends, ends}
use h.Client.Valid.{put-same, put-other}

-- Whether the client's `init` is there and fails.
abbrev pub fails : Option Ops → Code → Bool
fails ops result = has (λ o. o.init) ops && not (is_ok result)

abbrev pub fresh : Option Ops → Client
fresh ops = record { ref_count = 1; cs = 0; sched = 0; ops = ops }

pub record Allocated (w : World) (p : ℕ) (ops : Option Ops) (result : Code) (r : ℕ × World)
    : Type 0 where
  pub pointer : r.0 ≡ (if fails ops result then 0 else p)
  pub client : r.1.clients p ≡ (if fails ops result then none else some (fresh ops))
  pub alone : r.1.links.next p ≡ p
  pub count :
      r.1.client_objs ≡ (if fails ops result then w.client_objs else add_u32 w.client_objs 1)
  pub calls : r.1.calls ≡ (if has (λ o. o.init) ops then init_call p ∷ w.calls else w.calls)
  pub others : (q : ℕ) → q ≢ p → r.1.clients q ≡ w.clients q

list_init-next : (p : ℕ) (m : Links) → (list_init p m).next p ≡ p
list_init-next p m = let same : (p == p) ≡ true = ground arith in rw same refl

-- The memory with the new client and its functions.
abbrev begun : World → ℕ → Option Ops → World
begun w p ops = record (new_client p w) {
  clients = put p (some (fresh ops)) (new_client p w).clients;
}

others :
    (w : World) (p : ℕ) (ops : Option Ops) (q : ℕ) → q ≢ p → (begun w p ops).clients q ≡ w.clients q
others w p ops q h =
    put-other p (some (fresh ops)) (new_client p w).clients q h
    ∙ put-other p (some (fresh none)) w.clients q h

-- The memory behind a failed `init`.
abbrev failed : World → ℕ → Option Ops → World
failed w p ops = record (call (init_call p) (begun w p ops)) {
  clients = put p none (put p (some (fresh none)) (begun w p ops).clients);
  client_objs = sub_u32 (add_u32 w.client_objs 1) 1;
}

failed-Allocated :
    (w : World) (p : ℕ) (ops : Option Ops) (e : Errno)
    → w.client_objs < u32_mod
    → has (λ o. o.init) ops ≡ true
    → Allocated w p ops (minus e) (0, failed w p ops)
failed-Allocated w p ops e small begins =
    let counted : sub_u32 (add_u32 w.client_objs 1) 1 ≡ w.client_objs = ground arith in
    record {
      pointer = rw begins refl;
      client = put-same p none (put p (some (fresh none)) (begun w p ops).clients) ∙ rw begins refl;
      alone = list_init-next p w.links;
      count = rw begins counted;
      calls = rw begins refl;
      others = λ q h.
          put-other p none (put p (some (fresh none)) (begun w p ops).clients) q h
          ∙ put-other p (some (fresh none)) (begun w p ops).clients q h
          ∙ others w p ops q h;
    }

init_end-Allocated :
    (w : World) (p : ℕ) (ops : Option Ops) (result : Code)
    → w.client_objs < u32_mod
    → has (λ o. o.init) ops ≡ true
    → Ends (Allocated w p ops result) (init_end p result (call (init_call p) (begun w p ops)))
unfolding init_end obj_unref obj_free
init_end-Allocated w p ops ok small begins = ends (record {
  pointer = rw begins refl;
  client = put-same p (some (fresh ops)) (new_client p w).clients ∙ rw begins refl;
  alone = list_init-next p w.links;
  count = rw begins refl;
  calls = rw begins refl;
  others = others w p ops;
})
init_end-Allocated w p ops (minus e) small begins =
    let same : (p == p) ≡ true = ground arith in
    rw same (rw same (rw same (ends (failed-Allocated w p ops e small begins))))

-- Where `malloc` returns memory, `client_alloc` returns a client in no list, with one reference and
-- its functions, and counts it; where the client's `init` fails it returns NULL, has freed the memory
-- without a call of `fin`, and the count is as before. No other client changes.
pub client_alloc_lem :
    (w : World) (p : ℕ) (ops : Option Ops) (result : Code)
    → p ≢ 0
    → w.client_objs < u32_mod
    → Ends (Allocated w p ops result) (client_alloc true p ops result w)
unfolding client_alloc init_end obj_unref obj_free
client_alloc_lem w p ops result real small =
    let some_memory : (p == 0) ≡ false = ground arith in
    let same : (p == p) ≡ true = ground arith in
    rw (some_memory, same)
      (elim (Bool-cases (has (λ o. o.init) ops)) [
        | inl begins ↦ rw begins (init_end-Allocated w p ops result small begins)
        | inr plain ↦ rw plain (
            ends (record {
              pointer = rw plain refl;
              client = put-same p (some (fresh ops)) (new_client p w).clients ∙ rw plain refl;
              alone = list_init-next p w.links;
              count = rw plain refl;
              calls = rw plain refl;
              others = others w p ops;
            }))
      ])
