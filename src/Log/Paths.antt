-- ===== src/Log/Paths.antt =====
-- The paths of src/Log_Message.cpp: `GetModuleFileName`, which splits the path of the program, and
-- `createdirectory`. What `dladdr`, `access` and `mkdir` answer is a parameter.
use imachine_hb_f.Checksum.{Bytes, byte}
use imachine_hb_f.Strings.{ascii, str_eq}
use imachine_hb_f.Prelude.{
  ℕ, ◌+◌, Bool, true, false, not, ◌||◌, ◌&&◌, Option, none, some, List, [], ◌∷◌, ◌++◌, length, take,
  drop, ltb, leb, ◌==◌, if◌then◌else◌,
}

abbrev pub slash : ℕ
slash = 0x2F

unfoldable pub log_cfg_name : Bytes
unfolding ascii
log_cfg_name = ascii "Config.ini"

-- The loop, from index `i` on: the last place of a slash, or what `pos` held.
unfoldable pub last_slash : Bytes → ℕ → ℕ → ℕ
last_slash [] i pos = pos
last_slash (c ∷ cs) i pos = last_slash cs (i + 1) (if c == slash then i else pos)

-- `cfgpath`, `path` and `name`
pub record ModuleName : Type 0 where
  pub cfgpath : Bytes
  pub path : Bytes
  pub name : Bytes

unfoldable pub split_name : Bytes → ModuleName
unfolding last_slash log_cfg_name
split_name fname =
    let pos = last_slash fname 0 0 in
    if (pos == 0) && not (byte fname 0 == slash)
    then record { cfgpath = log_cfg_name; path = []; name = fname }
    else record {
      cfgpath = take (pos + 1) fname ++ log_cfg_name;
      path = take (pos + 1) fname;
      name = drop (pos + 1) fname;
    }

-- `none` stands for `false`. `dli_fname` is `none` when `dladdr` does not find it.
unfoldable pub get_module_file_name : Option Bytes → Option ModuleName
unfolding split_name
get_module_file_name none = none
get_module_file_name (some fname) =
    if leb 256 (length fname)
    then none
    else (if length (split_name fname).name == 0 then none else some (split_name fname))

-- Whether a path exists, and whether it can be made when it does not.
pub record Tree : Type 0 where
  pub exists : Bytes → Bool
  pub mkdir : Bytes → Bool

abbrev pub is_separator : ℕ → Bool
is_separator c = (c == 0x5C) || (c == slash)

unfoldable pub is_made : Bytes → List Bytes → Bool
unfolding str_eq
is_made path [] = false
is_made path (p ∷ ps) = str_eq p path || is_made path ps

-- The loop, with what stands in `tmp_path`; `none` when no zero stands behind it in the array. The list
-- has what has been made.
unfoldable pub create_loop : Tree → Bytes → Bytes → List Bytes → Option (Bool × List Bytes)
unfolding is_made
create_loop t tmp_path [] made = some (true, made)
create_loop t tmp_path (c ∷ cs) made =
    let now = tmp_path ++ (c ∷ []) in
    let kept = create_loop t now cs made in
    let more = create_loop t now cs (now ∷ made) in
    if is_separator c
    then (if leb 256 (length now)
        then none
        else (if t.exists now || is_made now made
            then kept
            else (if t.mkdir now then more else some (false, made))))
    else kept

unfoldable pub createdirectory : Tree → Bytes → Option (Bool × List Bytes)
unfolding create_loop
createdirectory t dir_path =
    if ltb 256 (length dir_path) then some (false, []) else create_loop t [] dir_path []
