-- ===== src/Machine/Coils/Reports.antt =====
-- What a pass of `VehicleThread` (src/IMachine.cpp) reports, and to whom.
use imachine_hb_f.Machine.{Machine}
use imachine_hb_f.Machine.Coils.{
  Inputs, Coils, coil_byte, next_seq, changed, kept, visit, visit_all, vehicle_pass,
}
use imachine_hb_f.Prelude.{
  ℕ, ◌+◌, ◌*◌, ◌/◌, ◌%◌, ◌≤◌, ◌≡◌, refl, sym, ap, inl, inr, Bool, true, false, Bool-cases, ◌||◌,
  arith, if◌then◌else◌,
}
use imachine_hb_f.Prelude.Int.{ℤ, pos, negsuc, int_eq}

-- A coil that was read: 1 for a vehicle, 0 for none.
abbrev pub bit : Bool → ℕ
bit b = if b then 1 else 0

abbrev pub reading : Bool → ℤ
reading b = pos (bit b)

abbrev pub mask : Bool → Bool → Bool → ℕ
mask a b d = bit a + 2 * bit b + 4 * bit d

coil_byte-mask :
    (a b d : Bool) (old : ℕ) → coil_byte (reading a) (reading b) (reading d) old ≡ mask a b d
unfolding coil_byte
coil_byte-mask true true true old = refl
coil_byte-mask true true false old = refl
coil_byte-mask true false true old = refl
coil_byte-mask true false false old = refl
coil_byte-mask false true true old = refl
coil_byte-mask false true false old = refl
coil_byte-mask false false true old = refl
coil_byte-mask false false false old = refl

int_eq_sound : (a b : ℤ) → int_eq a b ≡ true → a ≡ b
int_eq_sound (pos m) (pos n) e = ap pos (ground arith)
int_eq_sound (pos m) (negsuc n) e = cc
int_eq_sound (negsuc m) (pos n) e = cc
int_eq_sound (negsuc m) (negsuc n) e = ap negsuc (ground arith)

changed-false : (a : Bool) (old : ℤ) → changed (reading a) old ≡ false → old ≡ reading a
unfolding changed
changed-false a old h = elim (Bool-cases (int_eq (reading a) old)) [
  | inl e ↦ sym (int_eq_sound (reading a) old e)
  | inr e ↦ cc
]

kept-reading : (a : Bool) (old : ℤ) → kept (reading a) old ≡ reading a
kept-reading a old = elim (Bool-cases (changed (reading a) old)) [
  | inl e ↦ rw e refl
  | inr e ↦ rw e (changed-false a old e)
]

-- The sequence number that a frame carries, `TxSEQ / 10`, runs through 1 to 8.
next_seq-cycle : (t : ℕ) → t / 10 ≤ 8 → next_seq t / 10 ≡ t / 10 % 8 + 1
unfolding next_seq
next_seq-cycle t h = ground arith

visit-next_seq :
    (inputs : Inputs) (new old : ℤ) (m : Machine) (c : Coils)
    → c.tx_seq / 10 ≤ 8
    → (visit inputs new old (m, c)).1.tx_seq / 10 ≤ 8
unfolding visit
visit-next_seq inputs new old m c h = elim (Bool-cases (changed new old)) [
  | inl e ↦ rw e (omega (arith, next_seq-cycle c.tx_seq h))
  | inr e ↦ elim (Bool-cases (int_eq inputs.manual c.manual_old)) [
    | inl f ↦ rw (e, f) h
    | inr f ↦ rw (e, f) h
  ]
]

-- After a visit the byte is right, if it was right or the coil had changed.
visit-coil :
    (a b d : Bool) (manual : ℤ) (new old : ℤ) (s : Machine × Coils)
    → (changed new old ≡ false → s.1.coil ≡ mask a b d)
    → (visit
        (record { io1 = reading a; io2 = reading b; io3 = reading d; manual = manual })
        new
        old
        s).1.coil
      ≡ mask a b d
unfolding visit
visit-coil a b d manual new old (m, c) h = elim (Bool-cases (changed new old)) [
  | inl e ↦ rw e (coil_byte-mask a b d c.coil)
  | inr e ↦ elim (Bool-cases (int_eq manual c.manual_old)) [
    | inl f ↦ rw (e, f) (h e)
    | inr f ↦ rw (e, f) (h e)
  ]
]

visit_seq :
    (inputs : Inputs) (new old : ℤ) (s : Machine × Coils)
    → s.1.tx_seq / 10 ≤ 8
    → (visit inputs new old s).1.tx_seq / 10 ≤ 8
visit_seq inputs new old (m, c) h = visit-next_seq inputs new old m c h

-- A pass keeps the sequence number that the next report carries within 0 to 8, so that the number
-- fits the `unsigned char` it is passed in.
pub vehicle_pass-next_seq :
    (inputs : Inputs) (m : Machine) (c : Coils)
    → c.tx_seq / 10 ≤ 8
    → (vehicle_pass inputs (m, c)).1.tx_seq / 10 ≤ 8
unfolding vehicle_pass visit_all
vehicle_pass-next_seq inputs m c h = elim (Bool-cases (m.tcp1.is_open || m.tcp2.is_open)) [
  | inl e ↦ rw e (
      visit_seq inputs inputs.io3 c.old3 _ (
        visit_seq inputs inputs.io2 c.old2 _ (
          visit_seq inputs inputs.io1 c.old1 (record m { manual_switch_status = inputs.manual }, c)
            h)))
  | inr e ↦ rw e h
]

-- With a client connected and all three coils read, a pass remembers what was read, and the byte that
-- it reports is the mask of the coils that hold a vehicle; provided that the byte was right before,
-- should the coils have been as they are now.
pub vehicle_pass-mask :
    (a b d : Bool) (manual : ℤ) (m : Machine) (c : Coils)
    → (m.tcp1.is_open || m.tcp2.is_open) ≡ true
    → (c.old1 ≡ reading a → c.old2 ≡ reading b → c.old3 ≡ reading d → c.coil ≡ mask a b d)
    → let r =
        (vehicle_pass
          (record { io1 = reading a; io2 = reading b; io3 = reading d; manual = manual })
          (m, c)).1 in
      (r.old1 ≡ reading a) × (r.old2 ≡ reading b) × (r.old3 ≡ reading d) × (r.coil ≡ mask a b d)
unfolding vehicle_pass visit_all
vehicle_pass-mask a b d manual m c o h =
    let first : Machine × Coils = (record m { manual_switch_status = manual }, c) in
    rw o (
      kept-reading a c.old1,
      kept-reading b c.old2,
      kept-reading d c.old3,
      visit-coil a b d manual (reading d) c.old3 _ (λ q3.
          visit-coil a b d manual (reading b) c.old2 _ (λ q2.
            visit-coil a b d manual (reading a) c.old1 first (λ q1.
              h (changed-false a c.old1 q1) (changed-false b c.old2 q2)
                (changed-false d c.old3 q3)))),
    )
