-- ===== src/LinkList/Free.antt =====
-- `list_free` and `list_foreach`: the walks over a whole list.
use h.Base.{ℕ, zero, suc, ◌<◌, ◌≡◌, refl, none, if◌then◌else◌, arith, length}
use h.Heap.{Ptr, null, Memory, put}
use h.Heap.Cell.{not_null, fetch-done, release-done}
use h.Heap.Chain.{Items, has, Chain, stop, link, Chain-put}
use h.Heap.Outcomes.{Ends, ends, weaken}
use h.LinkList.{list_free, list_free_1}

-- `g` is `h` less the nodes of the list.
abbrev pub Freed : Items → Memory → Memory → Type 0
Freed xs h g = (a : Ptr) → g a ≡ (if has a xs then none else h a)

-- `list_free` gives back exactly the nodes of the list, each once.
pub list_free_lem :
    (rounds : ℕ) {h : Memory} {last b p : Ptr} {xs : Items}
    → Chain h last null b p xs
    → length xs < rounds
    → Ends (λ _. Freed xs h) (list_free rounds p h)
unfolding list_free list_free_1 put
list_free_lem zero c fuel = absurd (omega arith)
list_free_lem (suc k) stop fuel = ends λ a. refl
list_free_lem (suc k) (link {p} e out c) fuel =
    rw (not_null e, fetch-done e, release-done e)
      (weaken (list_free_lem k (Chain-put p none c out) (omega arith))
        λ _ g gone a. ground (arith, gone a))
