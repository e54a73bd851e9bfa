-- ===== src/Gpio/Open.antt =====
-- `SetOpen`, `SetClose` and `Exit` of src/IODevice.cpp: which descriptors they leave open, and whether the
-- pin stays exported. What sysfs answers is a parameter.
use Prim.Native.String.{String}
use imachine_hb_f.Gpio.{Mode, set_pin}
use imachine_hb_f.Prelude.{
  ℕ, ◌+◌, ◌-◌, ◌≡◌, refl, sym, ap, ◌∙◌, inl, inr, Bool, Bool-cases, true, false, Option, none, some,
  if◌then◌else◌, arith,
}

-- Which files can be opened and written.
pub record Sysfs : Type 0 where
  pub export_opens : Bool
  pub export_writes : Bool
  pub direction_opens : Bool
  pub direction_writes : Bool
  pub value_opens : Bool
  pub unexport_opens : Bool
  pub unexport_writes : Bool

-- The members; how many descriptors of the object are open; and whether the folder of the pin is there.
pub record Line : Type 0 where
  pub pin : ℕ
  pub mode : Mode
  pub is_open : Bool
  pub held : ℕ
  pub exported : Bool

abbrev pub open_file : Line → Line
open_file l = record l { held = l.held + 1 }

abbrev pub close_file : Line → Line
close_file l = record l { held = l.held - 1 }

-- The method returns -1, which is true, where it fails.
unfoldable pub set_close : Sysfs → Line → Line × Bool
set_close sys l =
    if sys.unexport_opens
    then (if sys.unexport_writes
        then (close_file (record (open_file l) { exported = false }), true)
        else (close_file (open_file l), true))
    else (l, true)

unfoldable pub exit : Sysfs → Line → Line × Bool
unfolding set_close
exit sys l = (record (set_close sys (close_file l)).0 { is_open = false }, true)

-- The export of a pin whose folder is missing; `none` where the method returns false.
unfoldable pub export_pin : Sysfs → Line → Option Line
export_pin sys l =
    if l.exported
    then some (close_file (open_file l))
    else if sys.export_opens
    then (if sys.export_writes
        then some (close_file (record (open_file l) { exported = true }))
        else none)
    else none

unfoldable pub open_value : Sysfs → Line → Line × Bool
unfolding set_close
open_value sys l =
    if sys.value_opens
    then (record (open_file l) { is_open = true }, true)
    else ((set_close sys l).0, false)

unfoldable pub set_direction : Sysfs → Line → Line × Bool
unfolding open_value set_close
set_direction sys l =
    if sys.direction_opens
    then (if sys.direction_writes
        then open_value sys (close_file (open_file l))
        else ((set_close sys (close_file (open_file l))).0, false))
    else ((set_close sys l).0, false)

abbrev pub after_export : Sysfs → Line → Option Line → Line × Bool
after_export sys l none = (l, false)
after_export sys l (some l') = set_direction sys l'

abbrev pub after_pin : Sysfs → Line → Option String → Line × Bool
after_pin sys l none = (l, false)
after_pin sys l (some name) = after_export sys l (export_pin sys l)

unfoldable pub set_open : Sysfs → Line → Line × Bool
unfolding exit export_pin set_direction
set_open sys l =
    let closed = if l.is_open then (exit sys l).0 else l in
    after_pin sys closed (set_pin l.mode l.pin)

-- An open line holds the descriptor of its value, a closed one none.
abbrev pub HoldsValue : Line → Type 0
HoldsValue l = l.held ≡ (if l.is_open then 1 else 0)

-- What a call of `SetOpen` leaves.
pub record IsLeft (r : Line × Bool) : Type 0 where
  pub holds : HoldsValue r.0
  pub result : r.0.is_open ≡ r.1

set_close-held : (sys : Sysfs) (l : Line) → (set_close sys l).0.held ≡ l.held
unfolding set_close
set_close-held sys l = ground arith

set_close-is_open : (sys : Sysfs) (l : Line) → (set_close sys l).0.is_open ≡ l.is_open
unfolding set_close
set_close-is_open sys l = ground arith

-- A line before its files are opened.
record IsClosed (l : Line) : Type 0 where
  shut : l.is_open ≡ false
  none_held : l.held ≡ 0

shut_again : (sys : Sysfs) (l : Line) → IsClosed l → IsLeft ((set_close sys l).0, false)
shut_again sys l h = record {
  holds =
      set_close-held sys l
      ∙ h.none_held
      ∙ ap (λ (b : Bool). if b then 1 else 0) (sym (set_close-is_open sys l ∙ h.shut));
  result = set_close-is_open sys l ∙ h.shut;
}

reopened : (l : Line) → IsClosed l → IsClosed (close_file (open_file l))
reopened l h = record { shut = h.shut; none_held = omega (arith, h.none_held) }

open_value-IsLeft : (sys : Sysfs) (l : Line) → IsClosed l → IsLeft (open_value sys l)
unfolding open_value
open_value-IsLeft sys l h = elim (Bool-cases sys.value_opens) [
  | inl e ↦ rw (e, open_value) (record { holds = omega (arith, h.none_held); result = refl })
  | inr e ↦ rw (e, open_value) (shut_again sys l h)
]

set_direction-IsLeft : (sys : Sysfs) (l : Line) → IsClosed l → IsLeft (set_direction sys l)
unfolding set_direction
set_direction-IsLeft sys l h = elim (Bool-cases sys.direction_opens) [
  | inr e ↦ rw (e, set_direction) (shut_again sys l h)
  | inl e ↦ elim (Bool-cases sys.direction_writes) [
    | inl d ↦
        rw (e, d, set_direction) (open_value-IsLeft sys (close_file (open_file l)) (reopened l h))
    | inr d ↦ rw (e, d, set_direction) (shut_again sys (close_file (open_file l)) (reopened l h))
  ]
]

stays_shut : (l : Line) → IsClosed l → IsLeft (l, false)
stays_shut l h = record {
  holds = h.none_held ∙ ap (λ (b : Bool). if b then 1 else 0) (sym h.shut);
  result = h.shut;
}

export_pin-IsLeft :
    (sys : Sysfs) (l : Line) → IsClosed l → IsLeft (after_export sys l (export_pin sys l))
unfolding export_pin
export_pin-IsLeft sys l h = elim (Bool-cases l.exported) [
  | inl e ↦
      let q : export_pin sys l ≡ some (close_file (open_file l)) = simp (e, export_pin) in
      rw q (set_direction-IsLeft sys (close_file (open_file l)) (reopened l h))
  | inr e ↦ elim (Bool-cases sys.export_opens) [
    | inr o ↦ let q : export_pin sys l ≡ none = simp (e, o, export_pin) in rw q (stays_shut l h)
    | inl o ↦ elim (Bool-cases sys.export_writes) [
      | inr w ↦
          let q : export_pin sys l ≡ none = simp (e, o, w, export_pin) in rw q (stays_shut l h)
      | inl w ↦
          let l' : Line = close_file (record (open_file l) { exported = true }) in
          let q : export_pin sys l ≡ some l' = simp (e, o, w, export_pin) in
          rw q (
            set_direction-IsLeft sys l'
              (record { shut = h.shut; none_held = omega (arith, h.none_held) }))
    ]
  ]
]

after_pin-IsLeft :
    (sys : Sysfs) (l : Line) (p : Option String) → IsClosed l → IsLeft (after_pin sys l p)
after_pin-IsLeft sys l none h = stays_shut l h
after_pin-IsLeft sys l (some name) h = export_pin-IsLeft sys l h

exit-IsClosed : (sys : Sysfs) (l : Line) → l.held ≡ 1 → IsClosed (exit sys l).0
unfolding exit
exit-IsClosed sys l h = record {
  shut = refl;
  none_held = set_close-held sys (close_file l) ∙ omega (arith, h);
}

start_of_open :
    (sys : Sysfs) (l : Line) → HoldsValue l → IsClosed (if l.is_open then (exit sys l).0 else l)
start_of_open sys l h = elim (Bool-cases l.is_open) [
  | inl e ↦
      let q : (if l.is_open then (exit sys l).0 else l) ≡ (exit sys l).0 = simp e in
      let one : l.held ≡ 1 = rw e at h in rw q (exit-IsClosed sys l one)
  | inr e ↦
      let q : (if l.is_open then (exit sys l).0 else l) ≡ l = simp e in
      let zero_held : l.held ≡ 0 = rw e at h in rw q (record { shut = e; none_held = zero_held })
]

-- From a line that holds the descriptor of its value exactly when it is open, SetOpen, whatever sysfs
-- answers, leaves one that does so too, and is open exactly when the method has returned true.
pub set_open-IsLeft : (sys : Sysfs) (l : Line) → HoldsValue l → IsLeft (set_open sys l)
unfolding set_open
set_open-IsLeft sys l h =
    after_pin-IsLeft sys (if l.is_open then (exit sys l).0 else l) (set_pin l.mode l.pin)
      (start_of_open sys l h)
