-- ===== src/LinkList/Unlink.antt =====
-- `list_remove_link` and `list_delete_link`: one node out of the front, the middle or the rear.
use h.Base.{==-refl, ◌≡◌, refl, false, none, [], ◌∷◌, ◌++◌, ◌==◌, if◌then◌else◌, arith}
use h.Heap.{Ptr, null, Memory, put, give, set_prev, set_next}
use h.Heap.Cell.{
  Holds, Holds-same, Holds-put, not_null, fetch-done, set_next-done, set_prev-done, release-done,
}
use h.Heap.Chain.{
  Items, has, Chain, stop, link, Chain-frame, Chain-put, Chain-set_prev, Chain-set_next,
  Chain-append, has-append, Chain-Rear,
}
use h.Heap.Cut.{Cut, Chain-Cut}
use h.Heap.Outcomes
use h.Heap.Outcomes.{Ends, ends, next, weaken}
use h.LinkList.{list_remove_link, list_delete_link, list_free_1}
use h.LinkList.Insert.{Untouched}

-- Where a chain starts and ends once its neighbour is another.
abbrev pub first_of : Items → Ptr → Ptr → Ptr
first_of [] f q = q
first_of (x ∷ xs) f q = f

abbrev pub last_of : Items → Ptr → Ptr → Ptr
last_of [] l r = r
last_of (x ∷ xs) l r = l

-- `if (next) next->prev = r`
set_prev-Chain :
    {h : Memory} {last p q : Ptr} {ys : Items} (r : Ptr)
    → Chain h last null p q ys
    → Ends
        (λ _ g. Chain g (last_of ys last r) null r q ys × Untouched ys h g)
        ((if q == null then give tt else set_prev q r) h)
unfolding put
set_prev-Chain r stop = ends (stop, λ a o. refl)
set_prev-Chain r (link e out c) =
    rw (not_null e, set_prev-done e r) (ends (Chain-set_prev r e out c, λ a o. ground arith))

-- `if (prev) prev->next = q`
set_next-Chain :
    {h : Memory} {prev p f : Ptr} {xs : Items} (q : Ptr)
    → Chain h prev p null f xs
    → Ends
        (λ _ g. Chain g prev q null (first_of xs f q) xs × Untouched xs h g)
        ((if prev == null then give tt else set_next prev q) h)
unfolding put
set_next-Chain q stop = ends (stop, λ a o. refl)
set_next-Chain q (link e out c) =
    let r = Chain-Rear e c in
    rw (not_null r.holds, set_next-done r.holds q)
      (ends (Chain-set_next q r.holds e out c, λ a o. ground (arith, r.inside)))

first_of_lem :
    {h : Memory} {last p b f : Ptr} {xs : Items} (q : Ptr)
    → Chain h last p b f xs
    → has p xs ≡ false
    → (if p == f then q else f) ≡ first_of xs f q
first_of_lem {p} q stop out = rw (==-refl p)
first_of_lem q (link e o c) out = ground arith

not-has-Cut :
    {h : Memory} {last after b f p v : Ptr} {xs ys : Items}
    → Cut h last after b f p v xs ys
    → has p (xs ++ ys) ≡ false
not-has-Cut {p} {xs} {ys} cut = rw (has-append p xs ys, cut.not_front) cut.not_rear

-- The memory without the node `p`: the two parts joined, and `p` alone.
abbrev pub Unlinked : (p v : Ptr) (xs ys : Items) → Memory → Ptr → Memory → Type 0
Unlinked p v xs ys h list g =
    ((l : Ptr) × Chain g l null null list (xs ++ ys))
    × Holds g p v null null
    × Untouched (xs ++ (p, v) ∷ ys) h g

-- `list_remove_link` takes the node out of its list, wherever it stands, keeps the others in order,
-- clears the node's links, returns the list's first node, and writes outside the list nowhere.
pub list_remove_link_lem :
    {h : Memory} {last f p v : Ptr} (xs ys : Items)
    → Chain h last null null f (xs ++ (p, v) ∷ ys)
    → Ends (Unlinked p v xs ys h) (list_remove_link f p h)
unfolding list_remove_link put
list_remove_link_lem {h} {last} {f} {p} {v} xs ys c =
    let cut = Chain-Cut xs c in
    let d = cut.prev in
    let q = cut.next in
    rw (not_null cut.holds, fetch-done cut.holds)
      (Outcomes.next (set_prev-Chain d cut.rear) λ _ g (rear, same).
        let front = Chain-frame cut.front λ a i. same a (cut.apart a i) in
        let holds : Holds g p v q d = Holds-same cut.holds (same p cut.not_rear) in
        rw (fetch-done holds) (
          Outcomes.next (set_next-Chain q front) λ _ g' (front', same').
            let rear' = Chain-frame rear λ a i. same' a (ground (arith, cut.apart a)) in
            let holds' : Holds g' p v q d = Holds-same holds (same' p cut.not_front) in
            let gone = not-has-Cut cut in
            let joined = Chain-append front' rear' cut.apart in
            rw
              (
                fetch-done holds',
                set_next-done holds' null,
                set_prev-done (Holds-put g' v null d holds.ne_null) null,
                first_of_lem q cut.front cut.not_front,
              )
              (ends (
                (last_of ys last d, Chain-put p _ (Chain-put p _ joined gone) gone),
                record { ne_null = holds.ne_null; here = ground arith },
                λ a o. ground (arith, has-append a xs ((p, v) ∷ ys), same a, same' a),
              ))))

-- `list_delete_link` also gives the node back, and that one only.
pub list_delete_link_lem :
    {h : Memory} {last f p : Ptr} (v : Ptr) (xs ys : Items)
    → Chain h last null null f (xs ++ (p, v) ∷ ys)
    → Ends
        (λ list g.
          ((l : Ptr) × Chain g l null null list (xs ++ ys))
          × (g p ≡ none)
          × Untouched (xs ++ (p, v) ∷ ys) h g)
        (list_delete_link f p h)
unfolding list_delete_link list_free_1 put
list_delete_link_lem {p} v xs ys c =
    let gone = not-has-Cut (Chain-Cut xs c) in
    Outcomes.next (list_remove_link_lem xs ys c) λ list g ((l, chain), holds, same).
      rw (not_null holds, release-done holds)
        (ends (
          (l, Chain-put p none chain gone),
          ground arith,
          λ a o. ground (arith, has-append a xs ((p, v) ∷ ys), same a),
        ))
