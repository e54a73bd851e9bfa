-- ===== src/Klist/Mailbox.antt =====
-- The task list as a mailbox: for each line at most one message waits, the newest.
use imachine_hb_f.Klist.{Payload, Node, find_node, node_change, clear_status}
use imachine_hb_f.Prelude.{
  ℕ, zero, suc, ◌≡◌, refl, ap, ◌∙◌, inl, inr, true, false, Bool-cases, Option, none, some, List, [],
  ◌∷◌, get_elem?, arith, ◌==◌, if◌then◌else◌,
}

-- What waits for a line: the payload of its first node, while that node's status is set.
abbrev pub pending : List Node → ℕ → Option Payload
pending [] k = none
pending (p ∷ ps) k = if p.line == k then (if p.status then p.payload else none) else pending ps k

abbrev pub Fresh : ℕ → List Node → Type 0
Fresh k [] = Unit {0}
Fresh k (p ∷ ps) = ((p.line == k) ≡ false) × Fresh k ps

-- No two nodes are of one line, and a set status comes with a payload.
abbrev pub IsMailbox : List Node → Type 0
IsMailbox [] = Unit {0}
IsMailbox (p ∷ ps) =
    Fresh p.line ps × (p.status ≡ true → (x : Payload) × (p.payload ≡ some x)) × IsMailbox ps

abbrev delivered : ℕ → Payload → Node
delivered line x = record { status = true; line = line; payload = some x }

-- `Node_Change` by recursion.
pub node_change-cons :
    (line : ℕ) (x : Payload) (p : Node) (ps : List Node)
    → node_change line x (p ∷ ps)
      ≡ (if p.line == line then delivered line x ∷ ps else p ∷ node_change line x ps)
unfolding node_change
node_change-cons line x p ps = ground arith

-- A message replaces what waited for its line, and touches no other line.
pub pending-node_change :
    (line : ℕ) (x : Payload) (ps : List Node) (k : ℕ)
    → pending (node_change line x ps) k ≡ (if line == k then some x else pending ps k)
pending-node_change line x [] k = unfold node_change in refl
pending-node_change line x (p ∷ ps) k =
    ground (arith, node_change-cons line x p ps, pending-node_change line x ps k)

pub Fresh-node_change :
    (j line : ℕ) (x : Payload) (ps : List Node)
    → (line == j) ≡ false
    → Fresh j ps
    → Fresh j (node_change line x ps)
Fresh-node_change j line x [] h f = unfold node_change in (h, tt)
Fresh-node_change j line x (p ∷ ps) h f = elim (Bool-cases (p.line == line)) [
  | inl same ↦ rw (node_change-cons line x p ps, same) (h, f.1)
  | inr other ↦ rw (node_change-cons line x p ps, other) (f.0, Fresh-node_change j line x ps h f.1)
]

pub node_change-IsMailbox :
    (line : ℕ) (x : Payload) (ps : List Node) → IsMailbox ps → IsMailbox (node_change line x ps)
node_change-IsMailbox line x [] m = unfold node_change in (tt, (λ _. (x, refl)), tt)
node_change-IsMailbox line x (p ∷ ps) m = elim (Bool-cases (p.line == line)) [
  | inl same ↦
      let e : p.line ≡ line = ground arith in
      rw (node_change-cons line x p ps, same) (rw e at m.0, (λ _. (x, refl)), m.2)
  | inr other ↦
      rw (node_change-cons line x p ps, other)
        (
          Fresh-node_change p.line line x ps (ground arith) m.0,
          m.1,
          node_change-IsMailbox line x ps m.2,
        )
]

Fresh-clear_status : (k i : ℕ) (ps : List Node) → Fresh k ps → Fresh k (clear_status i ps)
unfolding clear_status
Fresh-clear_status k i [] f = tt
Fresh-clear_status k zero (p ∷ ps) f = f
Fresh-clear_status k (suc i) (p ∷ ps) f = (f.0, Fresh-clear_status k i ps f.1)

pub clear_status-IsMailbox : (i : ℕ) (ps : List Node) → IsMailbox ps → IsMailbox (clear_status i ps)
unfolding clear_status
clear_status-IsMailbox i [] m = tt
clear_status-IsMailbox zero (p ∷ ps) m = (m.0, (λ e. cc), m.2)
clear_status-IsMailbox (suc i) (p ∷ ps) m =
    (Fresh-clear_status p.line i ps m.0, m.1, clear_status-IsMailbox i ps m.2)

Fresh-pending : (k : ℕ) (ps : List Node) → Fresh k ps → pending ps k ≡ none
Fresh-pending k [] f = refl
Fresh-pending k (p ∷ ps) f = ground (arith, Fresh-pending k ps f.1)

Fresh-get_elem? :
    (k i : ℕ) (ps : List Node) (n : Node)
    → Fresh k ps
    → get_elem? ps i ≡ some n
    → (n.line == k) ≡ false
Fresh-get_elem? k i [] n f e = cc
Fresh-get_elem? k zero (p ∷ ps) n f e = ground arith
Fresh-get_elem? k (suc i) (p ∷ ps) n f e = Fresh-get_elem? k i ps n f.1 e

-- Clearing a node empties the box of its line, and of no other.
pub pending-clear_status :
    (i : ℕ) (ps : List Node) (n : Node) (k : ℕ)
    → IsMailbox ps
    → get_elem? ps i ≡ some n
    → pending (clear_status i ps) k ≡ (if n.line == k then none else pending ps k)
unfolding clear_status
pending-clear_status i [] n k m e = cc
pending-clear_status zero (p ∷ ps) n k m e = ground arith
pending-clear_status (suc i) (p ∷ ps) n k m e =
    ground (arith, pending-clear_status i ps n k m.2 e, Fresh-get_elem? p.line i ps n m.0 e)

-- A node with its status set holds what waits for its line.
pub pending-get_elem? :
    (i : ℕ) (ps : List Node) (n : Node)
    → IsMailbox ps
    → get_elem? ps i ≡ some n
    → n.status ≡ true
    → (x : Payload) × (n.payload ≡ some x) × (pending ps n.line ≡ some x)
pending-get_elem? i [] n m e s = cc
pending-get_elem? zero (p ∷ ps) n m e s =
    let q : p ≡ n = ground arith in
    let (x, h) = m.1 (ap (λ (t : Node). t.status) q ∙ s) in (x, ground arith, ground arith)
pending-get_elem? (suc i) (p ∷ ps) n m e s =
    let (x, h, w) = pending-get_elem? i ps n m.2 e s in
    (x, h, ground (arith, Fresh-get_elem? p.line i ps n m.0 e))

-- The search stops at a node with its status set.
pub find_node-some :
    (ps : List Node) (i : ℕ)
    → find_node true ps ≡ some i
    → (n : Node) × (get_elem? ps i ≡ some n) × (n.status ≡ true)
unfolding find_node
find_node-some [] i e = cc
find_node-some (p ∷ ps) zero e = (p, refl, ground arith)
find_node-some (p ∷ ps) (suc i) e = find_node-some ps i (ground arith)

-- It finds none exactly when no line has a message.
pub find_node-none : (ps : List Node) (k : ℕ) → find_node true ps ≡ none → pending ps k ≡ none
unfolding find_node
find_node-none [] k e = refl
find_node-none (p ∷ ps) k e = ground (arith, find_node-none ps k)
