-- ===== src/Machine/Coils/Addressee.antt =====
-- Who hears of the coils: `VehicleThread` of src/IMachine.cpp reports to the client in charge alone.
use imachine_hb_f.Machine.{Machine, TcpServer, str_eq}
use imachine_hb_f.Machine.Coils.{
  Inputs, Coils, report, changed, counted, switched, visit, visit_all, vehicle_pass,
}
use imachine_hb_f.Machine.Send.{communication_send}
use imachine_hb_f.Strings.{str_eq_refl}
use imachine_hb_f.Prelude.{
  ◌≡◌, refl, Bool, if◌then◌else◌, ◌∙◌, inl, inr, true, false, Bool-cases, ◌||◌,
}
use imachine_hb_f.Prelude.Int.{ℤ, pos, int_eq}

-- The second connection and the clients' names are as they were.
record OnlyFirst (m n : Machine) : Type 0 where
  second : n.tcp2 ≡ m.tcp2
  name1 : n.client1 ≡ m.client1

-- The first connection and the clients' names are as they were.
record OnlySecond (m n : Machine) : Type 0 where
  first : n.tcp1 ≡ m.tcp1
  name1 : n.client1 ≡ m.client1
  name2 : n.client2 ≡ m.client2

report-OnlyFirst :
    (inputs : Inputs) (c : Coils) (m : Machine)
    → inputs.manual ≡ pos 0
    → OnlyFirst m (report inputs c m)
unfolding report communication_send
report-OnlyFirst inputs c m h =
    let e : int_eq inputs.manual (pos 0) ≡ true = rw h refl in
    rw (e, str_eq_refl m.client1) (record { second = refl; name1 = refl })

report-OnlySecond :
    (inputs : Inputs) (c : Coils) (m : Machine)
    → inputs.manual ≡ pos 1
    → str_eq m.client2 m.client1 ≡ false
    → OnlySecond m (report inputs c m)
unfolding report communication_send
report-OnlySecond inputs c m h d =
    let e : int_eq inputs.manual (pos 0) ≡ false = rw h refl in
    let f : int_eq inputs.manual (pos 1) ≡ true = rw h refl in
    rw (e, f, d, str_eq_refl m.client2) (record { first = refl; name1 = refl; name2 = refl })

visit-OnlyFirst :
    (inputs : Inputs) (new old : ℤ) (m : Machine) (s : Machine × Coils)
    → inputs.manual ≡ pos 0
    → OnlyFirst m s.0
    → OnlyFirst m (visit inputs new old s).0
unfolding visit
visit-OnlyFirst inputs new old m (n, c) h w =
    let via : (k : Coils) → OnlyFirst m (report inputs k n) = λ k.
      let r = report-OnlyFirst inputs k n h in
      record { second = r.second ∙ w.second; name1 = r.name1 ∙ w.name1 } in
    elim (Bool-cases (changed new old)) [
      | inl e ↦ rw e (via (counted inputs c))
      | inr e ↦ elim (Bool-cases (int_eq inputs.manual c.manual_old)) [
        | inl f ↦ rw (e, f) w
        | inr f ↦ rw (e, f) (via (switched inputs c))
      ]
    ]

visit-OnlySecond :
    (inputs : Inputs) (new old : ℤ) (m : Machine) (s : Machine × Coils)
    → inputs.manual ≡ pos 1
    → str_eq m.client2 m.client1 ≡ false
    → OnlySecond m s.0
    → OnlySecond m (visit inputs new old s).0
unfolding visit
visit-OnlySecond inputs new old m (n, c) h d w =
    let d' : str_eq n.client2 n.client1 ≡ false = simp (w.name1, w.name2) d in
    let via : (k : Coils) → OnlySecond m (report inputs k n) = λ k.
      let r = report-OnlySecond inputs k n h d' in
      record { first = r.first ∙ w.first; name1 = r.name1 ∙ w.name1; name2 = r.name2 ∙ w.name2 } in
    elim (Bool-cases (changed new old)) [
      | inl e ↦ rw e (via (counted inputs c))
      | inr e ↦ elim (Bool-cases (int_eq inputs.manual c.manual_old)) [
        | inl f ↦ rw (e, f) w
        | inr f ↦ rw (e, f) (via (switched inputs c))
      ]
    ]

-- While the manual switch is low, a pass sends nothing over the connection of the operator.
pub vehicle_pass-robot :
    (inputs : Inputs) (m : Machine) (c : Coils)
    → inputs.manual ≡ pos 0
    → (vehicle_pass inputs (m, c)).0.tcp2 ≡ m.tcp2
unfolding vehicle_pass visit_all
vehicle_pass-robot inputs m c h = elim (Bool-cases (m.tcp1.is_open || m.tcp2.is_open)) [
  | inl e ↦
      let n : Machine = record m { manual_switch_status = inputs.manual } in
      rw e
        (visit-OnlyFirst inputs inputs.io3 c.old3 n _ h (
          visit-OnlyFirst inputs inputs.io2 c.old2 n _ h (
            visit-OnlyFirst inputs inputs.io1 c.old1 n (n, c) h
              (record { second = refl; name1 = refl })))).second
  | inr e ↦ rw e refl
]

-- While the manual switch is high, and the two clients have different addresses, a pass sends
-- nothing over the connection of the robot.
pub vehicle_pass-operator :
    (inputs : Inputs) (m : Machine) (c : Coils)
    → inputs.manual ≡ pos 1
    → str_eq m.client2 m.client1 ≡ false
    → (vehicle_pass inputs (m, c)).0.tcp1 ≡ m.tcp1
unfolding vehicle_pass visit_all
vehicle_pass-operator inputs m c h d = elim (Bool-cases (m.tcp1.is_open || m.tcp2.is_open)) [
  | inl e ↦
      let n : Machine = record m { manual_switch_status = inputs.manual } in
      rw e
        (visit-OnlySecond inputs inputs.io3 c.old3 n _ h d (
          visit-OnlySecond inputs inputs.io2 c.old2 n _ h d (
            visit-OnlySecond inputs inputs.io1 c.old1 n (n, c) h d
              (record { first = refl; name1 = refl; name2 = refl })))).first
  | inr e ↦ rw e refl
]

-- The connection that a pass leaves alone when the manual switch is low (`true`) or high.
abbrev pub spared : Bool → Machine → TcpServer
spared true m = m.tcp2
spared false m = m.tcp1

-- When the manual switch reads 0 (low) or 1 (high) and the two clients have different addresses, a pass of
-- the coil thread sends nothing over the connection of the client that is not in charge: of the operator
-- when it is low, of the robot when it is high.
pub vehicle_pass-spared :
    (low : Bool) (inputs : Inputs) (m : Machine) (c : Coils)
    → inputs.manual ≡ (if low then pos 0 else pos 1)
    → str_eq m.client2 m.client1 ≡ false
    → spared low (vehicle_pass inputs (m, c)).0 ≡ spared low m
vehicle_pass-spared true inputs m c h d = vehicle_pass-robot inputs m c h
vehicle_pass-spared false inputs m c h d = vehicle_pass-operator inputs m c h d
