-- ===== src/Config/Values.antt =====
-- The Boolean values of src/Get_Inifiles.cpp, and `GetValues`, which collects every value of a key.
use imachine_hb_f.Checksum.{Bytes}
use imachine_hb_f.Config.{
  IniItem, IniSection, Found, not_found_section, not_found_key, found, get_section, find_item,
  get_value, set_value, commented,
}
use imachine_hb_f.Config.Lookup.{get_value-set_value}
use imachine_hb_f.Prelude.{
  ℕ, ◌-◌, ◌≡◌, refl, ◌∙◌, inl, inr, Bool, true, false, Bool-cases, Option-cases, none, some, List,
  [], ◌∷◌, ◌&&◌, ◌||◌, leb, if◌then◌else◌,
}
use imachine_hb_f.Strings.{str_eq, str_eq_refl}

-- `::toupper` in the "C" locale
unfoldable pub to_upper : ℕ → ℕ
to_upper c = if leb 0x61 c && leb c 0x7A then c - 0x20 else c

unfoldable pub upper_case : Bytes → Bytes
unfolding to_upper
upper_case [] = []
upper_case (c ∷ cs) = to_upper c ∷ upper_case cs

unfoldable pub string_cmp_ignore_case : Bytes → Bytes → Bool
unfolding upper_case
string_cmp_ignore_case str1 str2 = str_eq (upper_case str1) (upper_case str2)

abbrev pub true_text : Bytes
true_text = 0x74 ∷ 0x72 ∷ 0x75 ∷ 0x65 ∷ []

abbrev pub false_text : Bytes
false_text = 0x66 ∷ 0x61 ∷ 0x6C ∷ 0x73 ∷ 0x65 ∷ []

unfoldable pub bool_of : Bytes → Bool → Bool
unfolding string_cmp_ignore_case
bool_of value default_value =
    if string_cmp_ignore_case value true_text || string_cmp_ignore_case value (0x31 ∷ [])
    then true
    else if string_cmp_ignore_case value false_text || string_cmp_ignore_case value (0x30 ∷ [])
    then false
    else default_value

unfoldable pub get_bool_value : Bytes → Bytes → Bool → List IniSection → Bool
unfolding bool_of
get_bool_value section key default_value file = elim (get_value section key file) [
  | not_found_section ↦ default_value
  | not_found_key ↦ default_value
  | found value comment ↦ bool_of value default_value
]

unfoldable pub set_bool_value : Bytes → Bytes → Bytes → Bool → List IniSection → List IniSection
set_bool_value delimiter section key true file = set_value delimiter section key true_text [] file
set_bool_value delimiter section key false file = set_value delimiter section key false_text [] file

-- What `GetValues` returns, with the pairs of the two vectors that it fills.
pub data FoundAll : Type 0 where
  no_section no_key : FoundAll
  all : List (Bytes × Bytes) → FoundAll

unfoldable pub matching : Bytes → List IniItem → List (Bytes × Bytes)
matching key [] = []
matching key (i ∷ is) =
    let rest = matching key is in if str_eq i.key key then (i.value, i.comment) ∷ rest else rest

abbrev pub some_found : List (Bytes × Bytes) → FoundAll
some_found [] = no_key
some_found (v ∷ vs) = all (v ∷ vs)

unfoldable pub get_values : Bytes → Bytes → List IniSection → FoundAll
unfolding matching
get_values section key file = elim (get_section section file) [
  | none ↦ no_section
  | some s ↦ some_found (matching key s.items)
]

set_value_found :
    (delimiter section key value : Bytes) (file : List IniSection)
    → get_value section key (set_value delimiter section key value [] file) ≡ found value []
unfolding commented
set_value_found delimiter section key value file =
    get_value-set_value delimiter section key value [] section key file
    ∙ rw (str_eq_refl section, str_eq_refl key) refl

-- After SetBoolValue, GetBoolValue of the same key and section gives the value that was set, whatever
-- its default and whatever was there before.
pub get_bool_value-set_bool_value :
    (delimiter section key : Bytes) (default_value value : Bool) (file : List IniSection)
    → get_bool_value section key default_value (set_bool_value delimiter section key value file)
      ≡ value
unfolding get_bool_value set_bool_value str_eq
get_bool_value-set_bool_value delimiter section key default_value true file =
    rw (set_value_found delimiter section key true_text file, get_bool_value) refl
get_bool_value-set_bool_value delimiter section key default_value false file =
    rw (set_value_found delimiter section key false_text file, get_bool_value) refl

-- The first of several.
abbrev pub first_of : FoundAll → Found
first_of no_section = not_found_section
first_of no_key = not_found_key
first_of (all []) = not_found_key
first_of (all (v ∷ vs)) = found v.0 v.1

first_of-matching :
    (key : Bytes) (is : List IniItem) → first_of (some_found (matching key is)) ≡ find_item key is
unfolding matching find_item
first_of-matching key [] = refl
first_of-matching key (i ∷ is) = elim (Bool-cases (str_eq i.key key)) [
  | inl e ↦ rw e refl
  | inr e ↦ rw e (first_of-matching key is)
]

-- The first of the pairs that GetValues collects is what getValue finds, and its errors are the same.
pub first_of-get_values :
    (section key : Bytes) (file : List IniSection)
    → first_of (get_values section key file) ≡ get_value section key file
unfolding get_values get_value
first_of-get_values section key file = elim (Option-cases (get_section section file)) [
  | inl e ↦ rw (e, get_values, get_value) refl
  | inr (s, e) ↦ rw (e, get_values, get_value) (first_of-matching key s.items)
]
