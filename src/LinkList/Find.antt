-- ===== src/LinkList/Find.antt =====
-- `list_find` and `list_find_custom`.
use h.Base.{
  ℕ, zero, suc, ◌<◌, ◌≡◌, refl, Bool, Bool-cases, inl, inr, [], ◌∷◌, ◌==◌, if◌then◌else◌, arith,
  length,
}
use h.Heap.{Ptr, null, Memory, done}
use h.Heap.Cell.{not_null, fetch-done}
use h.Heap.Chain.{Items, Chain, stop, link}
use h.LinkList.{list_find, list_find_custom}

-- The address of the first item that passes a test, or NULL.
abbrev pub first_where : (Ptr → Bool) → Items → Ptr
first_where test [] = null
first_where test ((p, v) ∷ xs) = if test v then p else first_where test xs

-- `list_find` returns the first node that holds the value, or NULL, and changes nothing, if the
-- rounds granted are more than the nodes.
pub list_find_lem :
    {h : Memory} {last b p : Ptr} {xs : Items} (rounds : ℕ) (value : Ptr)
    → Chain h last null b p xs
    → length xs < rounds
    → list_find rounds p value h ≡ done (first_where (λ v. v == value) xs) h
unfolding list_find
list_find_lem zero value c fuel = absurd (omega arith)
list_find_lem (suc k) value stop fuel = refl
list_find_lem (suc k) value (link {v} e out c) fuel =
    rw (not_null e, fetch-done e)
      (elim (Bool-cases (v == value)) [
        | inl hit ↦ rw hit
        | inr miss ↦ rw miss (list_find_lem k value c (omega arith))
      ])

-- `list_find_custom` is the same for the caller's comparison.
pub list_find_custom_lem :
    {h : Memory} {last b p : Ptr} {xs : Items} (rounds : ℕ) (value : Ptr) (compare : Ptr → Ptr → ℕ)
    → Chain h last null b p xs
    → length xs < rounds
    → list_find_custom rounds p value compare h
      ≡ done (first_where (λ v. compare v value == 0) xs) h
unfolding list_find_custom
list_find_custom_lem zero value compare c fuel = absurd (omega arith)
list_find_custom_lem (suc k) value compare stop fuel = refl
list_find_custom_lem (suc k) value compare (link {v} e out c) fuel =
    rw (not_null e, fetch-done e)
      (elim (Bool-cases (compare v value == 0)) [
        | inl hit ↦ rw hit
        | inr miss ↦ rw miss (list_find_custom_lem k value compare c (omega arith))
      ])
