-- ===== src/Klist/Capacity.antt =====
-- The task list does not grow once `ListTaskInit` has made a node for each line below 11.
use imachine_hb_f.Klist.{Payload, Node, node_change, list_task_init}
use imachine_hb_f.Klist.Mailbox.{node_change-cons}
use imachine_hb_f.Prelude.{
  ℕ, ◌<◌, ◌≡◌, refl, ◌∙◌, ◌⊎◌, inl, inr, true, false, Bool-cases, List, [], ◌∷◌, length, arith,
  ◌==◌,
}

abbrev pub HasLine : ℕ → List Node → Type 0
HasLine k [] = ⊥
HasLine k (p ∷ ps) = (p.line ≡ k) ⊎ HasLine k ps

-- A line that has a node gets no second one.
pub length-node_change :
    (line : ℕ) (x : Payload) (ps : List Node)
    → HasLine line ps
    → length (node_change line x ps) ≡ length ps
length-node_change line x [] h = absurd h
length-node_change line x (p ∷ ps) (inl e) = ground (arith, node_change-cons line x p ps)
length-node_change line x (p ∷ ps) (inr h) =
    ground (arith, node_change-cons line x p ps, length-node_change line x ps h)

pub HasLine-node_change :
    (k line : ℕ) (x : Payload) (ps : List Node)
    → HasLine line ps
    → HasLine k ps
    → HasLine k (node_change line x ps)
HasLine-node_change k line x [] h g = absurd h
HasLine-node_change k line x (p ∷ ps) h g = elim (Bool-cases (p.line == line)) [
  | inl same ↦ rw (node_change-cons line x p ps, same) (HasLine-head same g)
  | inr other ↦
      rw (node_change-cons line x p ps, other)
        (HasLine-tail (HasLine-node_change k line x ps) other h g)
]
  where
    HasLine-head : (p.line == line) ≡ true → (p.line ≡ k) ⊎ HasLine k ps → (line ≡ k) ⊎ HasLine k ps
    HasLine-head same (inl e) = inl (ground arith)
    HasLine-head same (inr e) = inr e

    HasLine-tail :
        (HasLine line ps → HasLine k ps → HasLine k (node_change line x ps))
        → (p.line == line) ≡ false
        → (p.line ≡ line) ⊎ HasLine line ps
        → (p.line ≡ k) ⊎ HasLine k ps
        → (p.line ≡ k) ⊎ HasLine k (node_change line x ps)
    HasLine-tail rec other h (inl e) = inl e
    HasLine-tail rec other (inl e) (inr g) = absurd (ground arith)
    HasLine-tail rec other (inr h) (inr g) = inr (rec h g)

-- The calls of `ShowAdd` that reach `Node_Change`, one after the other.
unfoldable pub add_all : List (ℕ × Payload) → List Node → List Node
add_all [] ps = ps
add_all ((line, x) ∷ more) ps = add_all more (node_change line x ps)

abbrev pub AreBelow : ℕ → List (ℕ × Payload) → Type 0
AreBelow n [] = Unit {0}
AreBelow n ((line, x) ∷ more) = (line < n) × AreBelow n more

init-HasLine : (k : ℕ) → k < 11 → HasLine k (list_task_init [])
unfolding list_task_init
init-HasLine k h = ground arith

length-add_all_from :
    (adds : List (ℕ × Payload)) (ps : List Node)
    → ((k : ℕ) → k < 11 → HasLine k ps)
    → AreBelow 11 adds
    → length (add_all adds ps) ≡ length ps
unfolding add_all
length-add_all_from [] ps h b = refl
length-add_all_from ((line, x) ∷ more) ps h b =
    length-add_all_from more (node_change line x ps)
      (λ k l. HasLine-node_change k line x ps (h line b.0) (h k l)) b.1
    ∙ length-node_change line x ps (h line b.0)

-- However many messages are added for the lines 0 to 10 after the initialisation, the list keeps
-- its eleven nodes.
pub length-add_all :
    (adds : List (ℕ × Payload)) → AreBelow 11 adds → length (add_all adds (list_task_init [])) ≡ 11
length-add_all adds b =
    length-add_all_from adds (list_task_init []) init-HasLine b ∙ unfold list_task_init in refl
