-- ===== src/Config/Load.antt =====
-- `Load` of src/Get_Inifiles.cpp, over the bytes of the file, and `SaveAs`, which gives the bytes
-- that it writes. `delimiter` is `commentDelimiter`.
use imachine_hb_f.Checksum.{Bytes, byte}
use imachine_hb_f.Config.{IniItem, IniSection, has_section}
use imachine_hb_f.Config.Text.{trim, start_with, split, newline, lines}
use imachine_hb_f.Prelude.{
  ℕ, suc, ◌-◌, Bool, false, Option, none, some, List, [], ◌∷◌, ◌++◌, length, take, drop, ◌==◌,
  if◌then◌else◌,
}

-- The error codes of the file that `Load` returns.
pub data LoadError : Type 0 where
  unmatched_brackets section_empty section_already_exists : LoadError
  parse_key_value_failed open_file_failed : LoadError

-- The locals of `Load`. `currSection` is always the section pushed last, and stands apart here from
-- those before it; `rightComment` is empty at the start of every line.
pub record Loader : Type 0 where
  pub done : List IniSection
  pub current : IniSection
  pub comment : Bytes

abbrev pub sections : Loader → List IniSection
sections l = l.done ++ l.current ∷ []

-- What `Load` returns, with the sections that it leaves in memory.
pub data Loaded : Type 0 where
  loaded : List IniSection → Loaded
  failed : LoadError → List IniSection → Loaded

abbrev pub left_by : Loaded → List IniSection
left_by (loaded file) = file
left_by (failed e file) = file

-- One line: the locals after it, or an error.
pub data Read : Type 0 where
  reads : Loader → Read
  fails : LoadError → Read

-- `cleanLine.find_first_of(']')`
unfoldable pub find_bracket : Bytes → Option ℕ
find_bracket [] = none
find_bracket (c ∷ cs) =
    if c == 0x5D then some 0 else elim (find_bracket cs) [ none ↦ none | some i ↦ some (suc i) ]

unfoldable pub push_section : Bytes → Bytes → Bytes → Loader → Read
push_section name comment right_comment l =
    if has_section name (sections l)
    then fails section_already_exists
    else reads (record {
      done = sections l;
      current = record {
        name = name;
        comment = comment;
        right_comment = right_comment;
        items = [];
      };
      comment = [];
    })

-- `UpdateSection`, for the line's part before the comment.
unfoldable pub update_section : Bytes → Bytes → Loader → Read
unfolding find_bracket push_section
update_section clean right_comment l = elim (find_bracket clean) [
  | none ↦ fails unmatched_brackets
  | some index ↦
      if index - 1 == 0
      then fails section_empty
      else push_section (trim (take (index - 1) (drop 1 clean))) l.comment right_comment l
]

unfoldable pub push_item : IniItem → Loader → Loader
push_item item l = record l {
  current = record l.current { items = l.current.items ++ item ∷ [] };
  comment = [];
}

-- `AddKeyValuePair`; `parse` splits at the first "=".
unfoldable pub add_key_value_pair : Bytes → Bytes → Loader → Read
unfolding push_item split
add_key_value_pair clean right_comment l =
    let parts = split clean (0x3D ∷ []) in
    if parts.both
    then reads (
        push_item
          (record {
            key = parts.left;
            value = parts.right;
            comment = l.comment;
            right_comment = right_comment;
          })
          l)
    else fails parse_key_value_failed

-- The body of the loop, after the line is trimmed.
unfoldable pub load_trimmed : Bytes → Bytes → Loader → Read
unfolding start_with update_section add_key_value_pair
load_trimmed delimiter line l =
    if length line == 0
    then reads (record l { comment = l.comment ++ newline ∷ [] })
    else if start_with line delimiter
    then reads (record l { comment = l.comment ++ (line ++ newline ∷ []) })
    else if byte (split line delimiter).left 0 == 0x5B
    then update_section (split line delimiter).left (split line delimiter).right l
    else add_key_value_pair (split line delimiter).left (split line delimiter).right l

unfoldable pub load_lines : Bytes → List Bytes → Loader → Loaded
unfolding load_trimmed
load_lines delimiter [] l = loaded (sections l)
load_lines delimiter (line ∷ more) l = elim (load_trimmed delimiter (trim line) l) [
  | reads l' ↦ load_lines delimiter more l'
  | fails e ↦ failed e (sections l)
]

-- The section without a name, which `Load` pushes first.
abbrev pub first_loader : Loader
first_loader = record {
  done = [];
  current = record { name = []; comment = []; right_comment = []; items = [] };
  comment = [];
}

-- `none` is a file that cannot be opened.
unfoldable pub load : Bytes → Option Bytes → Loaded
unfolding load_lines
load delimiter none = failed open_file_failed []
load delimiter (some text) = load_lines delimiter (lines text) first_loader

-- The end of line that `SaveAs` adds where the text lacks one.
unfoldable pub ends_line : Bytes → Bool
ends_line [] = false
ends_line (c ∷ []) = c == newline
ends_line (c ∷ d ∷ ds) = ends_line (d ∷ ds)

unfoldable pub with_newline : Bytes → Bytes
unfolding ends_line
with_newline text = if ends_line text then text else text ++ newline ∷ []

unfoldable pub right_text : Bytes → Bytes → Bytes
right_text delimiter right_comment =
    if length right_comment == 0 then [] else 0x20 ∷ (delimiter ++ right_comment)

unfoldable pub item_text : Bytes → IniItem → Bytes
unfolding right_text with_newline
item_text delimiter i =
    (if length i.comment == 0 then [] else with_newline i.comment)
    ++ with_newline (i.key ++ (0x3D ∷ (i.value ++ right_text delimiter i.right_comment)))

unfoldable pub items_text : Bytes → List IniItem → Bytes
unfolding item_text
items_text delimiter [] = []
items_text delimiter (i ∷ is) = item_text delimiter i ++ items_text delimiter is

-- The comment on the right of a section's name goes behind the end of its line.
unfoldable pub section_text : Bytes → IniSection → Bytes
unfolding items_text
section_text delimiter s =
    s.comment
    ++ ((if length s.name == 0 then [] else (0x5B ∷ (s.name ++ (0x5D ∷ newline ∷ []))))
        ++ (right_text delimiter s.right_comment ++ items_text delimiter s.items))

-- The bytes that `SaveAs` writes.
unfoldable pub save_text : Bytes → List IniSection → Bytes
unfolding section_text
save_text delimiter [] = []
save_text delimiter (s ∷ ss) = section_text delimiter s ++ save_text delimiter ss
