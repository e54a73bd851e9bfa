-- ===== src/Led/Relay.antt =====
-- The relay packet of src/QYLED.cpp: each relay is a byte followed by its complement.
use imachine_hb_f.Led.{Led, new_led, display_set_relay, relay_pair, queue_relays}
use imachine_hb_f.Klist.{show_add}
use imachine_hb_f.Led.Packets.{Pair, relay_packet}
use imachine_hb_f.Prelude.{
  ℕ, ◌+◌, ◌*◌, ◌%◌, ◌<◌, ◌≡◌, ◌≢◌, ◌↔◌, refl, Bool, true, false, some, inl, inr, Bool-cases, ◌==◌,
  arith,
}

-- The controller's check of a pair.
abbrev pub IsComplement : Pair → Type 0
IsComplement r = r.0 + r.1 ≡ 0xFF

pub record HasGoodRelays (led : Led) : Type 0 where
  pub first : IsComplement led.relay1
  pub second : IsComplement led.relay2
  pub third : IsComplement led.relay3

pub new_led-HasGoodRelays : HasGoodRelays new_led
unfolding new_led
new_led-HasGoodRelays = omega arith

-- The call queues the three pairs as they are after the switch, and never fails.
queue_relays-Result :
    (led : Led)
    → (led' : Led) × (queue_relays led ≡ some (led', true))
      × (led'.relay1 ≡ led.relay1)
      × (led'.relay2 ≡ led.relay2)
unfolding queue_relays show_add relay_packet
queue_relays-Result led = (_, refl, refl, refl)

relay_pair-IsComplement : (value sec : ℕ) → IsComplement (relay_pair value sec (λ own. own))
unfolding relay_pair
relay_pair-IsComplement value sec = ground arith

-- Whatever is asked of the relays, the call returns; and if the two bytes of the first relay are
-- complements before it, they are afterwards.
pub display_set_relay-first :
    (led : Led) (bit value sec : ℕ)
    → IsComplement led.relay1
    → (led' : Led) × (b : Bool) × (display_set_relay led bit value sec ≡ some (led', b))
      × IsComplement led'.relay1
unfolding display_set_relay
display_set_relay-first led bit value sec h = elim (Bool-cases (bit == 1)) [
  | inl e ↦
      let (l, q, r1, r2) =
        queue_relays-Result (record led { relay1 = relay_pair value sec (λ own. own) }) in
      (l, true, rw e q, rw r1 (relay_pair-IsComplement value sec))
  | inr e ↦ elim (Bool-cases (bit == 2)) [
    | inl f ↦
        let (l, q, r1, r2) =
          queue_relays-Result
            (record led { relay2 = relay_pair value sec (λ own. led.relay1.0) }) in
        (l, true, rw (e, f) q, rw r1 h)
    | inr f ↦ elim (Bool-cases (bit == 3)) [
      | inl g ↦
          let (l, q, r1, r2) =
            queue_relays-Result
              (record led { relay3 = relay_pair value sec (λ own. led.relay1.0) }) in
          (l, true, rw (e, f, g) q, rw r1 h)
      | inr g ↦ (led, false, rw (e, f, g) refl, h)
    ]
  ]
]

-- The second relay, switched on for a time while the first byte of the first relay is a byte, gets
-- the complement of that byte: the method returns true, and the pair of the second relay is a
-- complement only if the two bytes are the same.
pub display_set_relay-second :
    (led : Led) (value sec : ℕ)
    → led.relay1.0 < 256
    → value ≢ 0
    → sec ≢ 0
    → (led' : Led) × (display_set_relay led 2 value sec ≡ some (led', true))
      × (IsComplement led'.relay2 ↔ (led.relay1.0 ≡ (0xB0 + sec * 2) % 256))
unfolding display_set_relay
display_set_relay-second led value sec r v s =
    let (l, q, r1, r2) =
      queue_relays-Result (record led { relay2 = relay_pair value sec (λ own. led.relay1.0) }) in
    (l, q, (ground arith, ground arith))
