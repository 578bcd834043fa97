-- ===== src/LinkList/Ends.antt =====
-- `list_last`: the walk to the end of a chain.
use h.Base.{ℕ, zero, suc, ◌<◌, ◌≡◌, arith, length}
use h.Heap.{Ptr, null, Memory, done}
use h.Heap.Cell.{Holds, not_null, fetch-done}
use h.Heap.Chain.{Items, Chain, stop, link}
use h.LinkList.{list_last}

-- From any node of a list, `list_last` finds the last one and changes nothing, if the rounds granted
-- are as many as the nodes ahead.
pub list_last_lem :
    {h : Memory} {last b p q v : Ptr} {xs : Items} (rounds : ℕ)
    → Holds h p v q b
    → Chain h last null p q xs
    → length xs < rounds
    → list_last rounds p h ≡ done last h
unfolding list_last
list_last_lem zero e c fuel = absurd (omega arith)
list_last_lem (suc k) e stop fuel = rw (not_null e, fetch-done e)
list_last_lem (suc k) e (link e' out c) fuel =
    rw (not_null e, fetch-done e, not_null e') (list_last_lem k e' c (omega arith))
