-- ===== src/Config.antt =====
-- The configuration in memory: the sections and items of src/Get_Inifiles.cpp, with the operations
-- that look values up and change them. The file that it comes from is in the children.
pub mod Lookup
pub mod Text
pub mod Strip
pub mod Lines
pub mod Load
pub mod Plain
pub mod Items
pub mod Saved
pub mod RoundTrip
pub mod Names
pub mod Values
pub mod Comments
pub mod RightComments
pub mod Numbers
use imachine_hb_f.Checksum.{Bytes}
use imachine_hb_f.Prelude.{
  ℕ, Bool, true, false, Option, none, some, List, [], ◌∷◌, ◌++◌, if◌then◌else◌,
}
use imachine_hb_f.Strings.{str_eq}

pub record IniItem : Type 0 where
  pub key : Bytes
  pub value : Bytes
  pub comment : Bytes
  pub right_comment : Bytes

pub record IniSection : Type 0 where
  pub name : Bytes
  pub comment : Bytes
  pub right_comment : Bytes
  pub items : List IniItem

-- What `getValue` returns, with the value and the comment where it stores them.
pub data Found : Type 0 where
  not_found_section : Found
  not_found_key : Found
  found : Bytes → Bytes → Found

unfoldable pub get_section : Bytes → List IniSection → Option IniSection
get_section section [] = none
get_section section (s ∷ ss) = if str_eq s.name section then some s else get_section section ss

unfoldable pub find_item : Bytes → List IniItem → Found
find_item key [] = not_found_key
find_item key (i ∷ is) = if str_eq i.key key then found i.value i.comment else find_item key is

abbrev pub value_in : Bytes → Option IniSection → Found
value_in key none = not_found_section
value_in key (some s) = find_item key s.items

-- `GetSections`
unfoldable pub get_sections : List IniSection → List Bytes
get_sections [] = []
get_sections (s ∷ ss) = s.name ∷ get_sections ss

unfoldable pub get_value : Bytes → Bytes → List IniSection → Found
get_value section key file = value_in key (get_section section file)

unfoldable pub get_string_value : Bytes → Bytes → Bytes → List IniSection → Bytes
get_string_value section key default_value file = elim (get_value section key file) [
  | not_found_section ↦ default_value
  | not_found_key ↦ default_value
  | found value comment ↦ value
]

unfoldable pub has_section : Bytes → List IniSection → Bool
has_section section file = elim (get_section section file) [ none ↦ false | some s ↦ true ]

unfoldable pub has_key : Bytes → Bytes → List IniSection → Bool
has_key section key file = elim (get_value section key file) [
  | not_found_section ↦ false
  | not_found_key ↦ false
  | found value comment ↦ true
]

-- `comt`: a comment that is not empty gets the delimiter before it.
unfoldable pub commented : Bytes → Bytes → Bytes
commented delimiter [] = []
commented delimiter (b ∷ bs) = delimiter ++ (b ∷ bs)

-- The loop of `setValue`, and the `push_back` behind it.
unfoldable pub put_item : Bytes → Bytes → Bytes → List IniItem → List IniItem
put_item key value comt [] =
    record { key = key; value = value; comment = comt; right_comment = [] } ∷ []
put_item key value comt (i ∷ is) =
    if str_eq i.key key
    then record i { value = value; comment = comt } ∷ is
    else i ∷ put_item key value comt is

abbrev pub new_section : Bytes → List IniItem → IniSection
new_section section items = record {
  name = section;
  comment = [];
  right_comment = [];
  items = items;
}

-- The change of the first section of this name.
unfoldable pub put_in : Bytes → Bytes → Bytes → Bytes → List IniSection → List IniSection
unfolding put_item
put_in section key value comt [] = []
put_in section key value comt (s ∷ ss) =
    if str_eq s.name section
    then record s { items = put_item key value comt s.items } ∷ ss
    else s ∷ put_in section key value comt ss

-- The section without a name goes to the front, any other new one to the end.
abbrev pub add_section : IniSection → List IniSection → List IniSection
add_section s file = if str_eq s.name [] then s ∷ file else file ++ s ∷ []

unfoldable pub set_value : Bytes → Bytes → Bytes → Bytes → Bytes → List IniSection → List IniSection
unfolding put_in
set_value delimiter section key value comment file =
    let comt = commented delimiter comment in
    if has_section section file
    then put_in section key value comt file
    else add_section (new_section section (put_item key value comt [])) file

unfoldable pub delete_section : Bytes → List IniSection → List IniSection
delete_section section [] = []
delete_section section (s ∷ ss) =
    if str_eq s.name section then ss else s ∷ delete_section section ss

erase_item : Bytes → List IniItem → List IniItem
erase_item key [] = []
erase_item key (i ∷ is) = if str_eq i.key key then is else i ∷ erase_item key is

unfoldable pub delete_key : Bytes → Bytes → List IniSection → List IniSection
unfolding erase_item
delete_key section key [] = []
delete_key section key (s ∷ ss) =
    if str_eq s.name section
    then record s { items = erase_item key s.items } ∷ ss
    else s ∷ delete_key section key ss
