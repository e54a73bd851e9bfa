-- ===== src/Klist/Refinement.antt =====
-- The display thread and its callers implement a mailbox with one place for each line.
use imachine_hb_f.Klist.{Payload, Node, find_node}
use imachine_hb_f.Klist.Mailbox.{pending, pending-node_change, pending-clear_status, find_node-none}
use imachine_hb_f.Klist.Thread.{
  Display, Step, add, look, send, Reach, Reach-IsGood, started, started-IsGood, transmit,
  after_send, poll, transmit-pending, poll-IsGood, poll-nodes, poll-sent, poll-found,
}
use imachine_hb_f.Prelude.{
  ℕ, ◌≡◌, refl, ap, inl, inr, true, Option-cases, none, some, List, ◌∷◌, ◌==◌, if◌then◌else◌,
}

-- What the mailbox allows between two states: nothing, a message put in the place of its line, or
-- a waiting message taken out and sent twice. No other place changes.
pub data Move (d e : Display) : Type 0 where
  idle : ((k : ℕ) → pending e.nodes k ≡ pending d.nodes k) → e.sent ≡ d.sent → Move d e
  put :
      (line : ℕ) (x : Payload)
      → ((k : ℕ) → pending e.nodes k ≡ (if line == k then some x else pending d.nodes k))
      → e.sent ≡ d.sent
      → Move d e
  deliver :
      (line : ℕ) (x : Payload)
      → pending d.nodes line ≡ some x
      → ((k : ℕ) → pending e.nodes k ≡ (if line == k then none else pending d.nodes k))
      → e.sent ≡ x.qled_data ∷ x.qled_data ∷ d.sent
      → Move d e

-- Every step of a state that the thread can reach is a move of the mailbox.
pub Step-Move : {d e : Display} → Reach started d → Step d e → Move d e
Step-Move r (add line x d) = put line x (λ k. pending-node_change line x d.nodes k) refl
Step-Move r (look b d h) =
    idle (λ k. ap (λ (ps : List Node). pending ps k) (poll-nodes b d)) (poll-sent b d)
Step-Move r (send {d} {e} i h t) =
    let g = Reach-IsGood started-IsGood r in
    let (n, x, l, w, t') = transmit-pending d i g h in
    let q : after_send d i x ≡ e = cc in
    rw (← q) (deliver n.line x w (λ k. pending-clear_status i d.nodes n k g.mailbox l) refl)

-- While a message waits in a reachable state and the line is open, the thread finds a node, and
-- what it found it can send.
pub waiting_is_sent :
    {d : Display} (k : ℕ) (x : Payload)
    → Reach started d
    → pending d.nodes k ≡ some x
    → (i : ℕ) × (e : Display) × ((poll true d).found ≡ some i) × (transmit (poll true d) i ≡ some e)
waiting_is_sent {d} k x r w = elim (Option-cases (find_node true d.nodes)) [
  | inl e ↦ cc (find_node-none d.nodes k e)
  | inr (i, e) ↦
      let found = poll-found d i e in
      let (n, y, _, _, t) =
        transmit-pending (poll true d) i (poll-IsGood true d (Reach-IsGood started-IsGood r))
          found in
      (i, after_send (poll true d) i y, found, t)
]
