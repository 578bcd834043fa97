-- ===== src/Heap/Cell.antt =====
-- One node at an address, and what each access does there.
use mathlib.Core.Path.{fun_ext}
use h.Base.{Option, ◌≡◌, ◌≢◌, false, none, some, arith, ◌==◌}
use h.Heap.{
  Ptr, null, ListNode, list_node, Memory, put, done, fetch, set_value, set_next, set_prev, release,
}

-- `p` holds `v`, its successor `q` and its predecessor `b`.
pub record Holds (h : Memory) (p v q b : Ptr) : Type 0 where
  pub ne_null : p ≢ null
  pub here : h p ≡ some (list_node v q b)

module _ {h : Memory} {p v q b : Ptr} (e : Holds h p v q b) where
  pub not_null : (p == null) ≡ false
  not_null = ground arith

  pub fetch-done : fetch p h ≡ done (list_node v q b) h
  unfolding fetch
  fetch-done = rw (not_null, e.here)

  pub set_value-done : (w : Ptr) → set_value p w h ≡ done tt (put p (some (list_node w q b)) h)
  unfolding set_value
  set_value-done w = rw fetch-done

  pub set_next-done : (r : Ptr) → set_next p r h ≡ done tt (put p (some (list_node v r b)) h)
  unfolding set_next
  set_next-done r = rw fetch-done

  pub set_prev-done : (r : Ptr) → set_prev p r h ≡ done tt (put p (some (list_node v q r)) h)
  unfolding set_prev
  set_prev-done r = rw fetch-done

  pub release-done : release p h ≡ done tt (put p none h)
  unfolding release
  release-done = rw fetch-done

  pub Holds-put_ne : (a : Ptr) (c : _) → a ≢ p → Holds (put a c h) p v q b
  unfolding put
  Holds-put_ne a c ne = ground arith

pub Holds-put :
    {p : Ptr} (h : Memory) (v q b : Ptr)
    → p ≢ null
    → Holds (put p (some (list_node v q b)) h) p v q b
unfolding put
Holds-put h v q b ne = ground arith

-- The second of two writes to one address is the one that counts.
pub put-put : (p : Ptr) (c d : Option ListNode) (h : Memory) → put p c (put p d h) ≡ put p c h
unfolding put
put-put p c d h = fun_ext λ a. ground arith

pub Holds-same : {h g : Memory} {p v q b : Ptr} → Holds h p v q b → g p ≡ h p → Holds g p v q b
Holds-same e same = record { ne_null = e.ne_null; here = ground arith }
