-- ===== src/Tests/Klist.antt =====
-- The task list on a few messages.
use imachine_hb_f.Klist.{Payload, find_node, list_task_init, node_change}
use imachine_hb_f.Klist.Mailbox.{pending}
use imachine_hb_f.Klist.Refinement.{Move, Step-Move, waiting_is_sent}
use imachine_hb_f.Klist.Thread.{Display, add, look, Reach, here, next, started, poll, transmit}
use imachine_hb_f.Prelude.{ℕ, ◌≡◌, refl, true, some, [], ◌∷◌}

abbrev hello : Payload
hello = record { time_out = 450; qled_data = 0x41 ∷ 0x42 ∷ [] }

abbrev world : Payload
world = record { time_out = 150; qled_data = 0x43 ∷ [] }

-- The newest message of a line waits, and the search finds its node.
newest_waits :
    pending (node_change 3 world (node_change 3 hello (list_task_init []))) 3 ≡ some world
unfolding node_change list_task_init
newest_waits = refl

found_at_three : find_node true (node_change 3 hello (list_task_init [])) ≡ some 3
unfolding node_change list_task_init find_node
found_at_three = refl

abbrev added : Display
added = record started { nodes = node_change 3 hello started.nodes }

added-Reach : Reach started added
added-Reach = next here (add 3 hello started)

Step-Move_example : Move added (poll true added)
unfolding started
Step-Move_example = Step-Move added-Reach (look true added refl)

waiting : pending added.nodes 3 ≡ some hello
unfolding started list_task_init node_change
waiting = refl

waiting_is_sent_example :
    (i : ℕ) × (e : Display) × ((poll true added).found ≡ some i)
    × (transmit (poll true added) i ≡ some e)
waiting_is_sent_example = waiting_is_sent 3 hello added-Reach waiting
