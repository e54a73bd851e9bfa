-- ===== src/Klist/Insert.antt =====
-- The operations of src/kernel_list.cpp that put a node at a place, and those that make and free the list.
-- A list is `none` when `Head` is NULL; a place is the number of nodes in front of the node there.
use imachine_hb_f.Klist.{Node, head_tail}
use imachine_hb_f.Prelude.{
  ℕ, zero, suc, ◌≡◌, refl, ap, Bool, true, false, Option, none, some, List, [], ◌∷◌, length,
  get_elem?,
}

-- `Init`, when there is memory.
unfoldable pub init : Option (List Node)
init = some []

unfoldable pub add_tail : Option Node → Option (List Node) → Option (List Node) × Bool
unfolding head_tail
add_tail none nodes = (nodes, false)
add_tail (some new_node) none = (none, false)
add_tail (some new_node) (some nodes) = (some (head_tail new_node nodes), true)

unfoldable pub head_add : Option Node → Option (List Node) → Option (List Node) × Bool
head_add none nodes = (nodes, false)
head_add (some new_node) none = (none, false)
head_add (some new_node) (some nodes) = (some (new_node ∷ nodes), true)

-- `list_add_tail` at a node of the list: in front of it.
unfoldable pub put_before : ℕ → Node → List Node → List Node
put_before i node [] = node ∷ []
put_before zero node (p ∷ ps) = node ∷ p ∷ ps
put_before (suc i) node (p ∷ ps) = p ∷ put_before i node ps

-- `list_add` at a node of the list: behind it.
unfoldable pub put_behind : ℕ → Node → List Node → List Node
put_behind i node [] = node ∷ []
put_behind zero node (p ∷ ps) = p ∷ node ∷ ps
put_behind (suc i) node (p ∷ ps) = p ∷ put_behind i node ps

-- The place is `none` for NULL.
unfoldable pub node_tail : Option ℕ → Option Node → List Node → List Node × Bool
unfolding put_before
node_tail none new_node nodes = (nodes, false)
node_tail (some i) none nodes = (nodes, false)
node_tail (some i) (some new_node) nodes = (put_before i new_node nodes, true)

unfoldable pub node_add : Option ℕ → Option Node → List Node → List Node × Bool
unfolding put_behind
node_add none new_node nodes = (nodes, false)
node_add (some i) none nodes = (nodes, false)
node_add (some i) (some new_node) nodes = (put_behind i new_node nodes, true)

-- `DelALL`, which returns false; it reads `Head`, so that on a list that is gone it faults (`none`).
unfoldable pub del_all : Option (List Node) → Option (Option (List Node) × Bool)
del_all none = none
del_all (some nodes) = some (none, false)

-- What stands where after a node is put in front of another: the two, next to each other.
pub put_before_lem :
    (i : ℕ) (node p : Node) (nodes : List Node)
    → get_elem? nodes i ≡ some p
    → (get_elem? (put_before i node nodes) i ≡ some node)
      × (get_elem? (put_before i node nodes) (suc i) ≡ some p)
      × (length (put_before i node nodes) ≡ suc (length nodes))
unfolding put_before
put_before_lem i node p [] h = absurd cc
put_before_lem zero node p (q ∷ qs) h = (refl, h, refl)
put_before_lem (suc i) node p (q ∷ qs) h =
    let (a, b, c) = put_before_lem i node p qs h in (a, b, ap suc c)

pub put_behind_lem :
    (i : ℕ) (node p : Node) (nodes : List Node)
    → get_elem? nodes i ≡ some p
    → (get_elem? (put_behind i node nodes) i ≡ some p)
      × (get_elem? (put_behind i node nodes) (suc i) ≡ some node)
      × (length (put_behind i node nodes) ≡ suc (length nodes))
unfolding put_behind
put_behind_lem i node p [] h = absurd cc
put_behind_lem zero node p (q ∷ qs) h = (h, refl, refl)
put_behind_lem (suc i) node p (q ∷ qs) h =
    let (a, b, c) = put_behind_lem i node p qs h in (a, b, ap suc c)
