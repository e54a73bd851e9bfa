-- ===== src/Klist/Thread.antt =====
-- `DisplayThread` of src/QYLED.cpp against the callers of `ShowAdd`, as interleaved steps. The thread
-- finds a node under the lock, lets go of it, and reads the node under the lock again, so a caller
-- may overwrite the node in between.
use imachine_hb_f.Checksum.{Bytes}
use imachine_hb_f.Klist.{Payload, Node, find_node, node_change, clear_status, list_task_init}
use imachine_hb_f.Klist.Mailbox.{
  pending, IsMailbox, node_change-cons, node_change-IsMailbox, clear_status-IsMailbox,
  pending-get_elem?, find_node-some,
}
use imachine_hb_f.Prelude.{
  ℕ, zero, suc, ◌≡◌, refl, inl, inr, Bool, true, false, Bool-cases, Option, none, some, List, [],
  ◌∷◌, get_elem?, arith, ◌==◌,
}

-- `found` is the thread's `node` between `FindNode` and the critical section, as a position: nodes
-- never move while the thread runs. `sent` is what went to `comm->Send`, newest first.
pub record Display : Type 0 where
  pub nodes : List Node
  pub found : Option ℕ
  pub sent : List Bytes

abbrev pub after_send : Display → ℕ → Payload → Display
after_send d i x = record {
  nodes = clear_status i d.nodes;
  found = none;
  sent = x.qled_data ∷ x.qled_data ∷ d.sent;
}

-- The critical section and the two sends. `none` stands for a read of bytes never written.
transmit_node : Display → ℕ → Option Node → Option Display
transmit_node d i none = none
transmit_node d i (some n) = elim n.payload [ none ↦ none | some x ↦ some (after_send d i x) ]

unfoldable pub transmit : Display → ℕ → Option Display
unfolding transmit_node clear_status
transmit d i = transmit_node d i (get_elem? d.nodes i)

found_node : Bool → Display → Option ℕ → Display
found_node comm_open d none = d
found_node true d (some i) = record d { found = some i }
found_node false d (some i) = d

-- One pass through the head of the loop: `comm_open` is what `GetStatus` returns.
unfoldable pub poll : Bool → Display → Display
unfolding find_node found_node
poll comm_open d = found_node comm_open d (find_node true d.nodes)

pub data Step : Display → Display → Type 0 where
  add :
      (line : ℕ) (x : Payload) (d : Display)
      → Step d (record d { nodes = node_change line x d.nodes })
  look : (comm_open : Bool) (d : Display) → d.found ≡ none → Step d (poll comm_open d)
  send : {d e : Display} (i : ℕ) → d.found ≡ some i → transmit d i ≡ some e → Step d e

-- The box is well formed, and a node that the thread has found still has its status set.
pub record IsGood (d : Display) : Type 0 where
  pub mailbox : IsMailbox d.nodes
  pub holds :
      (i : ℕ) → d.found ≡ some i → (n : Node) × (get_elem? d.nodes i ≡ some n) × (n.status ≡ true)

get_elem?-node_change :
    (line : ℕ) (x : Payload) (ps : List Node) (i : ℕ) (n : Node)
    → get_elem? ps i ≡ some n
    → n.status ≡ true
    → (m : Node) × (get_elem? (node_change line x ps) i ≡ some m) × (m.status ≡ true)
get_elem?-node_change line x [] i n e s = cc
get_elem?-node_change line x (p ∷ ps) zero n e s = elim (Bool-cases (p.line == line)) [
  | inl same ↦
      rw (node_change-cons line x p ps, same)
        (record { status = true; line = line; payload = some x }, refl, refl)
  | inr other ↦ rw (node_change-cons line x p ps, other) (n, e, s)
]
get_elem?-node_change line x (p ∷ ps) (suc i) n e s = elim (Bool-cases (p.line == line)) [
  | inl same ↦ rw (node_change-cons line x p ps, same) (n, e, s)
  | inr other ↦ rw (node_change-cons line x p ps, other) (get_elem?-node_change line x ps i n e s)
]

-- A node that the thread has found can always be sent, and what goes out is what waits for its line.
pub transmit-pending :
    (d : Display) (i : ℕ)
    → IsGood d
    → d.found ≡ some i
    → (n : Node) × (x : Payload) × (get_elem? d.nodes i ≡ some n)
      × (pending d.nodes n.line ≡ some x)
      × (transmit d i ≡ some (after_send d i x))
unfolding transmit
transmit-pending d i g f =
    let (n, e, s) = g.holds i f in
    let (x, h, w) = pending-get_elem? i d.nodes n g.mailbox e s in
    (n, x, e, w, rw e (rw (h, transmit_node) refl))

found_node-IsGood :
    (b : Bool) (d : Display) (o : Option ℕ)
    → IsGood d
    → find_node true d.nodes ≡ o
    → IsGood (found_node b d o)
unfolding found_node
found_node-IsGood b d none g e = g
found_node-IsGood false d (some i) g e = g
found_node-IsGood true d (some i) g e = record {
  mailbox = g.mailbox;
  holds = λ j h. find_node-some d.nodes j (ground arith);
}

pub poll-IsGood : (b : Bool) (d : Display) → IsGood d → IsGood (poll b d)
unfolding poll
poll-IsGood b d g = found_node-IsGood b d _ g refl

pub poll-nodes : (b : Bool) (d : Display) → (poll b d).nodes ≡ d.nodes
unfolding poll
poll-nodes b d = ground arith

pub poll-sent : (b : Bool) (d : Display) → (poll b d).sent ≡ d.sent
unfolding poll
poll-sent b d = ground arith

pub poll-found :
    (d : Display) (i : ℕ) → find_node true d.nodes ≡ some i → (poll true d).found ≡ some i
unfolding poll
poll-found d i e = ground arith

-- Every step keeps the box well formed, also one that overwrites a node already found.
pub Step-IsGood : {d e : Display} → Step d e → IsGood d → IsGood e
Step-IsGood (add line x d) g = record {
  mailbox = node_change-IsMailbox line x d.nodes g.mailbox;
  holds = λ i h. let (n, e, s) = g.holds i h in get_elem?-node_change line x d.nodes i n e s;
}
Step-IsGood (look b d h) g = poll-IsGood b d g
Step-IsGood (send {d} {e} i h t) g =
    let (n, x, _, _, t') = transmit-pending d i g h in
    let q : after_send d i x ≡ e = cc in
    rw (← q) (record { mailbox = clear_status-IsMailbox i d.nodes g.mailbox; holds = λ j k. cc })

pub data Reach (d : Display) : Display → Type 0 where
  here : Reach d d
  next : {e f : Display} → Reach d e → Step e f → Reach d f

pub Reach-IsGood : {d e : Display} → IsGood d → Reach d e → IsGood e
Reach-IsGood g here = g
Reach-IsGood g (next r s) = Step-IsGood s (Reach-IsGood g r)

-- The thread at its start.
unfoldable pub started : Display
unfolding list_task_init
started = record { nodes = list_task_init []; found = none; sent = [] }

pub started-IsGood : IsGood started
unfolding started
started-IsGood = record { mailbox = ground arith; holds = λ i h. cc }
