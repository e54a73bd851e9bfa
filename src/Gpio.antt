-- ===== src/Gpio.antt =====
-- A `Gpio` object of src/IODevice.cpp, with a line of its own or not. `level` is what was last written through
-- the object, and `writable` says whether the system accepts its writes, which the environment decides.
pub mod Open
use Prim.Native.String.{String}
use imachine_hb_f.Prelude.{
  ℕ, ◌-◌, Bool, true, false, Option, none, some, List, [], ◌∷◌, get_elem?, ltb, ◌==◌, ◌||◌,
  if◌then◌else◌,
}
use imachine_hb_f.Prelude.Int.{ℤ, pos, negsuc}

pub record Gpio : Type 0 where
  pub is_open : Bool
  pub writable : Bool
  pub level : Bool

write_level : Gpio → Bool → Gpio × Bool
write_level g level =
    if g.is_open
    then (if g.writable then (record g { level = level }, true) else (g, false))
    else (g, false)

unfoldable pub set_on : Gpio → Gpio × Bool
unfolding write_level
set_on g = write_level g true

unfoldable pub set_off : Gpio → Gpio × Bool
unfolding write_level
set_off g = write_level g false

-- `input` is the number that `atoi` makes of the byte read, or `none` when the read fails.
unfoldable pub get_io_value : Gpio → Option ℕ → ℤ
get_io_value g none = negsuc 0
get_io_value g (some value) = if g.is_open then (if value == 0 then pos 0 else pos 1) else negsuc 0

pub data Mode : Type 0 where
  out_mode in_mode : Mode
  other_mode : Mode

abbrev out_pins : List String
out_pins = "5" ∷ "15" ∷ "18" ∷ "20" ∷ "102" ∷ "101" ∷ "97" ∷ "90" ∷ "63" ∷ "65" ∷ "19" ∷ []

abbrev in_pins : List String
in_pins = "36" ∷ "40" ∷ "41" ∷ "42" ∷ "74" ∷ "73" ∷ "0" ∷ "8" ∷ "4" ∷ "64" ∷ "148" ∷ []

-- The pin's name, or `none` where the method returns false.
unfoldable pub set_pin : Mode → ℕ → Option String
set_pin mode pin = if ltb pin 1 || ltb 11 pin then none else elim mode [
  | out_mode ↦ get_elem? out_pins (pin - 1)
  | in_mode ↦ get_elem? in_pins (pin - 1)
  | other_mode ↦ none
]
