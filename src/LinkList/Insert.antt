-- ===== src/LinkList/Insert.antt =====
-- `list_insert_head` and `list_insert_tail`.
use h.Base.{
  ℕ, suc, ◌<◌, ◌≡◌, ◌≢◌, refl, false, none, some, [], ◌∷◌, ◌++◌, ◌==◌, if◌then◌else◌, arith, length,
}
use h.Heap.{Ptr, null, list_node, Memory, put, done, give, ◌>>=◌, ◌>>◌, set_prev, set_next}
use h.Heap.Cell.{
  Holds, Holds-put, Holds-put_ne, put-put, not_null, set_value-done, set_next-done, set_prev-done,
}
use h.Heap.Chain.{
  Items, has, Chain, stop, link, Chain-put, Chain-set_prev, Chain-set_next, Chain-append,
  has-append, not-has_of_none, Chain-Rear,
}
use h.Heap.Outcomes.{Ends, ends}
use h.LinkList.{list_alloc, list_insert_head, list_insert_tail, list_last}
use h.LinkList.Ends.{list_last_lem}

list_alloc-done :
    (fresh : Ptr) (h : Memory)
    → fresh ≢ null
    → list_alloc fresh h ≡ done fresh (put fresh (some (list_node 0 0 0)) h)
unfolding list_alloc
list_alloc-done fresh h ne = let n : (fresh == null) ≡ false = ground arith in rw n

-- A failed `calloc` makes both insertions return NULL and leaves the memory alone.
pub list_insert-null :
    (rounds : ℕ) (list v : Ptr) (h : Memory)
    → (list_insert_head null list v h ≡ done null h)
      × (list_insert_tail rounds null list v h ≡ done null h)
unfolding list_insert_head list_insert_tail list_alloc
list_insert-null rounds list v h = (refl, refl)

-- What an insertion of one node leaves alone: all but the new node and the list.
abbrev pub Untouched : Items → Memory → Memory → Type 0
Untouched xs h g = (a : Ptr) → has a xs ≡ false → g a ≡ h a

pub is_null : (p : Ptr) → p ≢ null → (p == null) ≡ false
is_null p ne = ground arith

module _ (h : Memory) (fresh v : Ptr) (ne : fresh ≢ null) where
  -- The new node is filled before the list is looked at.
  list_insert_head-fill :
      (list : Ptr)
      → list_insert_head fresh list v h
        ≡ (do if list == null then give tt else set_prev list fresh; give fresh)
            (put fresh (some (list_node v list null)) h)
  unfolding list_insert_head
  list_insert_head-fill list = rw (
    list_alloc-done fresh h ne,
    is_null fresh ne,
    set_value-done (Holds-put h 0 0 0 ne) v,
    put-put,
    set_next-done (Holds-put h v 0 0 ne) list,
    put-put,
    set_prev-done (Holds-put h v list 0 ne) null,
    put-put,
  )

  -- In front of no list, `list_insert_head` makes a list of one node.
  pub list_insert_head-nil :
      list_insert_head fresh null v h ≡ done fresh (put fresh (some (list_node v null null)) h)
  list_insert_head-nil = list_insert_head-fill null

  -- The new node is filled before the list is looked at.
  list_insert_tail-fill :
      (rounds : ℕ) (list : Ptr)
      → list_insert_tail rounds fresh list v h
        ≡ (if list == null then set_prev fresh null >> give fresh else do
          last ← list_last rounds list
          set_prev fresh last
          set_next last fresh
          give list)
            (put fresh (some (list_node v null 0)) h)
  unfolding list_insert_tail
  list_insert_tail-fill rounds list = rw (
    list_alloc-done fresh h ne,
    is_null fresh ne,
    set_value-done (Holds-put h 0 0 0 ne) v,
    put-put,
    set_next-done (Holds-put h v 0 0 ne) null,
    put-put,
  )

  -- Behind no list, `list_insert_tail` makes a list of one node.
  pub list_insert_tail-nil :
      (rounds : ℕ)
      → list_insert_tail rounds fresh null v h
        ≡ done fresh (put fresh (some (list_node v null null)) h)
  list_insert_tail-nil rounds =
      rw (list_insert_tail-fill rounds null, set_prev-done (Holds-put h v null 0 ne) null, put-put)

  -- Behind a list, `list_insert_tail` writes the new node and the one that was last.
  list_insert_tail-run :
      {last w d : Ptr} (rounds : ℕ) (list : Ptr)
      → list ≢ null
      → list_last rounds list (put fresh (some (list_node v null 0)) h)
        ≡ done last (put fresh (some (list_node v null 0)) h)
      → Holds (put fresh (some (list_node v null last)) h) last w null d
      → list_insert_tail rounds fresh list v h
        ≡ done list
            (put last (some (list_node w fresh d)) (put fresh (some (list_node v null last)) h))
  list_insert_tail-run {last} rounds list some_list walk rear = rw (
    list_insert_tail-fill rounds list,
    is_null list some_list,
    walk,
    set_prev-done (Holds-put h v null 0 ne) last,
    put-put,
    set_next-done rear fresh,
  )

module _ {h : Memory} (fresh v : Ptr) (ne : fresh ≢ null) where
  pub list_insert_head-cons :
      {last p w q : Ptr} {xs : Items}
      → h fresh ≡ none
      → Holds h p w q null
      → has p xs ≡ false
      → Chain h last null p q xs
      → Ends
          (λ new g.
            (new ≡ fresh)
            × Chain g last null null fresh ((fresh, v) ∷ (p, w) ∷ xs)
            × Untouched ((fresh, v) ∷ (p, w) ∷ xs) h g)
          (list_insert_head fresh p v h)
  unfolding put
  list_insert_head-cons {p} {w} {q} {xs} unused e out c =
      let away : fresh ≢ p = ground arith in
      let e' = Holds-put_ne e fresh (some (list_node v p null)) away in
      let free = not-has_of_none fresh c unused in
      let c' = Chain-put fresh (some (list_node v p null)) c free in
      rw (list_insert_head-fill h fresh v ne p, not_null e, set_prev-done e' fresh)
        (ends (
          refl,
          link (record { ne_null = ne; here = ground arith }) (ground arith)
              (Chain-set_prev fresh e' out c'),
          λ a o. ground arith,
        ))

  -- Whatever node of a list it is given, `list_insert_tail` walks to the last, appends one node
  -- behind it, and returns the node that it was given.
  list_insert_tail-from :
      {last w d b p u q : Ptr} {xs : Items} (rounds : ℕ) (list : Ptr)
      → h fresh ≡ none
      → list ≢ null
      → list_last rounds list (put fresh (some (list_node v null 0)) h)
        ≡ done last (put fresh (some (list_node v null 0)) h)
      → Holds h last w null d
      → Holds h p u q b
      → has p xs ≡ false
      → Chain h last null p q xs
      → Ends
          (λ out g.
            (out ≡ list)
            × Holds g last w fresh d
            × Chain g fresh null b p (((p, u) ∷ xs) ++ (fresh, v) ∷ [])
            × Untouched (((p, u) ∷ xs) ++ (fresh, v) ∷ []) h g)
          (list_insert_tail rounds fresh list v h)
  unfolding put
  list_insert_tail-from {last} {w} {d} {p} {u} {xs} rounds list unused some_list walk rear e out c =
      let n = some (list_node v null last) in
      let away : fresh ≢ p = ground arith in
      let far : fresh ≢ last = ground arith in
      let free = not-has_of_none fresh c unused in
      let rear' = Holds-put_ne rear fresh n far in
      let c' =
        Chain-set_next fresh rear' (Holds-put_ne e fresh n away) out (Chain-put fresh n c free) in
      let inside = (Chain-Rear e c).inside in
      rw (list_insert_tail-run h fresh v ne rounds list some_list walk rear') (
        ends (
          refl,
          record { ne_null = rear.ne_null; here = ground arith },
          Chain-append c' (link (record { ne_null = ne; here = ground arith }) refl stop)
              (λ a i. ground arith),
          λ a o. ground (arith, has-append a xs ((fresh, v) ∷ [])),
        ))

  -- As the queue calls it: from the last node itself, with one round.
  pub list_insert_tail-append :
      {last w d b p u q : Ptr} {xs : Items} (rounds : ℕ)
      → h fresh ≡ none
      → Holds h last w null d
      → Holds h p u q b
      → has p xs ≡ false
      → Chain h last null p q xs
      → Ends
          (λ out g.
            (out ≡ last)
            × Holds g last w fresh d
            × Chain g fresh null b p (((p, u) ∷ xs) ++ (fresh, v) ∷ [])
            × Untouched (((p, u) ∷ xs) ++ (fresh, v) ∷ []) h g)
          (list_insert_tail (suc rounds) fresh last v h)
  unfolding put
  list_insert_tail-append {last} rounds unused rear e out c =
      let n = some (list_node v null 0) in
      let rear' = Holds-put_ne rear fresh n (ground arith) in
      list_insert_tail-from (suc rounds) last unused rear.ne_null
        (list_last_lem (suc rounds) rear' stop (omega arith)) rear e out c

  -- From the first node of a list, with a round for each node.
  pub list_insert_tail-walk :
      {last w d b p u q : Ptr} {xs : Items} (rounds : ℕ)
      → h fresh ≡ none
      → length xs < rounds
      → Holds h last w null d
      → Holds h p u q b
      → has p xs ≡ false
      → Chain h last null p q xs
      → Ends
          (λ out g.
            (out ≡ p)
            × Holds g last w fresh d
            × Chain g fresh null b p (((p, u) ∷ xs) ++ (fresh, v) ∷ [])
            × Untouched (((p, u) ∷ xs) ++ (fresh, v) ∷ []) h g)
          (list_insert_tail rounds fresh p v h)
  unfolding put
  list_insert_tail-walk {p} rounds unused fuel rear e out c =
      let n = some (list_node v null 0) in
      let e' = Holds-put_ne e fresh n (ground arith) in
      let c' = Chain-put fresh n c (not-has_of_none fresh c unused) in
      list_insert_tail-from rounds p unused e.ne_null (list_last_lem rounds e' c' fuel) rear e out c
