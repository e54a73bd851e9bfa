-- ===== src/Machine/Effects.antt =====
-- What a frame may change, and what is answered: `CommunicationAnalysis` of src/IMachine.cpp.
use imachine_hb_f.Checksum.{Bytes, byte}
use imachine_hb_f.Machine.{Machine, in_charge}
use imachine_hb_f.Machine.Dispatch.{Env, reply, communication_analysis}
use imachine_hb_f.Machine.Handlers.{Reply}
use imachine_hb_f.Machine.Send.{communication_send}
use imachine_hb_f.Prelude.{ℕ, ◌≡◌, refl, inl, inr, false, Bool-cases, some, [], ◌∷◌, arith, ◌==◌}

-- Everything but what has been sent to the clients.
pub record SameDevices (m n : Machine) : Type 0 where
  pub rest : n ≡ record m { tcp1 = n.tcp1; tcp2 = n.tcp2 }

pub send-SameDevices :
    (unset : Bytes) (m : Machine) (tx_seq type : ℕ) (cmd : Bytes) (cmd_len is_coil : ℕ) (ip : Bytes)
    → SameDevices m (communication_send unset m tx_seq type cmd cmd_len is_coil ip).0
unfolding communication_send
send-SameDevices unset m tx_seq type cmd cmd_len is_coil ip = record { rest = ground arith }

reply-SameDevices :
    (tx_seq type : ℕ) (ip : Bytes) (m : Machine) (r : Reply)
    → SameDevices m (reply tx_seq type ip (m, r))
unfolding reply
reply-SameDevices tx_seq type ip m r = send-SameDevices [] m tx_seq type (r.0 ∷ r.1 ∷ []) 2 0 ip

-- A frame from a client that is not in charge moves no device, changes no display and no timer, and
-- never faults; the machine at most sends a reply.
pub not_in_charge-SameDevices :
    (env : Env) (m : Machine) (cmd : Bytes) (cmd_len : ℕ) (ip : Bytes)
    → in_charge m ip ≡ false
    → (n : Machine) × (communication_analysis env m cmd cmd_len ip ≡ some n) × SameDevices m n
unfolding communication_analysis
not_in_charge-SameDevices env m cmd cmd_len ip h = elim (Bool-cases (byte cmd 8 == 0xA4)) [
  | inl a ↦ answered env.unset_type (rw (a, h) refl)
  | inr a ↦ elim (Bool-cases (byte cmd 8 == 0xA3)) [
    | inl b ↦ answered 0xD3 (rw (a, b, h) refl)
    | inr b ↦ elim (Bool-cases (byte cmd 8 == 0xAE)) [
      | inl c ↦ answered 0xDE (rw (a, b, c, h) refl)
      | inr c ↦ (m, rw (a, b, c) refl, record { rest = refl })
    ]
  ]
]
  where
    answered :
        (type : ℕ)
        → communication_analysis env m cmd cmd_len ip
          ≡ some (reply (byte cmd 3) type ip (m, (0, 0)))
        → (n : Machine) × (communication_analysis env m cmd cmd_len ip ≡ some n) × SameDevices m n
    answered type e =
        (reply (byte cmd 3) type ip (m, (0, 0)), e, reply-SameDevices (byte cmd 3) type ip m (0, 0))
