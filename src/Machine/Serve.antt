-- ===== src/Machine/Serve.antt =====
-- The commands of a turn of `ReceiveCmd1` or `ReceiveCmd2` (src/IMachine.cpp), handed on in their order
-- under the client's name.
use imachine_hb_f.Checksum.{Bytes}
use imachine_hb_f.Framer.{Command}
use imachine_hb_f.Machine.{Machine, in_charge}
use imachine_hb_f.Machine.Dispatch.{Env, communication_analysis}
use imachine_hb_f.Machine.Effects.{SameDevices, not_in_charge-SameDevices}
use imachine_hb_f.Prelude.{◌≡◌, refl, ap, ◌∙◌, false, Option, none, some, List, [], ◌∷◌}

unfoldable pub serve : Bytes → Machine → List (Env × Command) → Option Machine
serve ip m [] = some m
serve ip m ((env, c) ∷ more) = elim (communication_analysis env m c.frame c.len ip) [
  | none ↦ none
  | some n ↦ serve ip n more
]

SameDevices-in_charge :
    (m n : Machine) (ip : Bytes) → SameDevices m n → in_charge n ip ≡ in_charge m ip
unfolding in_charge
SameDevices-in_charge m n ip w = ap (λ t. in_charge t ip) w.rest

SameDevices-trans : (m n k : Machine) → SameDevices m n → SameDevices n k → SameDevices m k
SameDevices-trans m n k v w = record {
  rest = w.rest ∙ ap (λ (t : Machine). record t { tcp1 = k.tcp1; tcp2 = k.tcp2 }) v.rest;
}

-- Whatever a turn's commands are, from a client that is not in charge they all come to an end, and
-- leave everything as it was but what has been sent to the clients.
pub serve-SameDevices :
    (ip : Bytes) (m : Machine) (cs : List (Env × Command))
    → in_charge m ip ≡ false
    → (n : Machine) × (serve ip m cs ≡ some n) × SameDevices m n
unfolding serve
serve-SameDevices ip m [] h = (m, refl, record { rest = refl })
serve-SameDevices ip m ((env, c) ∷ more) h =
    let (n, e, v) = not_in_charge-SameDevices env m c.frame c.len ip h in
    let (k, f, w) = serve-SameDevices ip n more (SameDevices-in_charge m n ip v ∙ h) in
    (k, rw (e, serve) f, SameDevices-trans m n k v w)
