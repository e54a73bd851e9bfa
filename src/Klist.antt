-- ===== src/Klist.antt =====
-- src/kernel_list.cpp, the task list between the callers of the display and its thread, and the
-- thread of src/QYLED.cpp that empties it. The intrusive list of include/list.h is a list of nodes
-- here, from the head on. A node that was never written to has no payload: its bytes are
-- indeterminate in the source.
pub mod Mailbox
pub mod Thread
pub mod Refinement
pub mod Capacity
pub mod Insert
use imachine_hb_f.Checksum.{Bytes}
use imachine_hb_f.Prelude.{
  ℕ, zero, suc, ◌+◌, Bool, true, false, Option, none, some, List, [], ◌∷◌, ◌++◌, length, take,
  get_elem?, ltb, ◌==◌, if◌then◌else◌,
}

-- `TimeOut` and the first `QLED_Data_Len` bytes of `QLED_Data`.
pub record Payload : Type 0 where
  pub time_out : ℕ
  pub qled_data : Bytes

pub record Node : Type 0 where
  pub status : Bool
  pub line : ℕ
  pub payload : Option Payload

-- `CreateNode`, with the line that both of its callers store next.
unfoldable pub create_node : ℕ → Node
create_node line = record { status = false; line = line; payload = none }

unfoldable pub head_tail : Node → List Node → List Node
head_tail node nodes = nodes ++ node ∷ []

same_status : Bool → Bool → Bool
same_status true b = b
same_status false true = false
same_status false false = true

-- The position of the first node of this status.
unfoldable pub find_node : Bool → List Node → Option ℕ
unfolding same_status
find_node status [] = none
find_node status (p ∷ ps) = elim (same_status p.status status) [
  | true ↦ some 0
  | false ↦ elim (find_node status ps) [ none ↦ none | some i ↦ some (suc i) ]
]

unfoldable pub del_node : Bool → List Node → List Node
unfolding same_status
del_node status [] = []
del_node status (p ∷ ps) =
    if same_status p.status status then del_node status ps else p ∷ del_node status ps

-- The loop of `Node_Change`: overwrite the first node of this line, if there is one.
unfoldable pub change_existing : ℕ → Payload → List Node → Option (List Node)
change_existing line payload [] = none
change_existing line payload (p ∷ ps) =
    if p.line == line
    then some (record { status = true; line = line; payload = some payload } ∷ ps)
    else elim (change_existing line payload ps) [ none ↦ none | some qs ↦ some (p ∷ qs) ]

-- The search and the insertion are under one lock each. They are taken as one step: a line from 0 to 10, as the
-- callers pass, is in the list from `ListTaskInit` on, and is found.
unfoldable pub node_change : ℕ → Payload → List Node → List Node
unfolding change_existing head_tail create_node
node_change line payload nodes = elim (change_existing line payload nodes) [
  | some changed ↦ changed
  | none ↦ head_tail (record (create_node line) { payload = some payload; status = true }) nodes
]

-- The size of `QLED_Data`.
abbrev pub data_size : ℕ
data_size = 1024

-- `none` when the copy would run over the end of `QLED_Data`.
unfoldable pub show_add : ℕ → Bytes → ℕ → ℕ → List Node → Option (List Node)
show_add line bytes len timeout nodes =
    if ltb data_size len
    then none
    else some (node_change line (record { time_out = timeout; qled_data = take len bytes }) nodes)

-- `for (i = first; i < first + n; i++)` of `ListTaskInit`.
unfoldable pub init_lines : ℕ → ℕ → List Node → List Node
unfolding head_tail create_node
init_lines first zero nodes = nodes
init_lines first (suc n) nodes = init_lines (suc first) n (head_tail (create_node first) nodes)

unfoldable pub list_task_init : List Node → List Node
unfolding init_lines
list_task_init nodes = init_lines 0 11 nodes

-- `node->data.status = false` at a position.
unfoldable pub clear_status : ℕ → List Node → List Node
clear_status i [] = []
clear_status zero (p ∷ ps) = record p { status = false } ∷ ps
clear_status (suc i) (p ∷ ps) = p ∷ clear_status i ps
