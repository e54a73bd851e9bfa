-- ===== src/Log/Folders.antt =====
-- The search for old log files in src/Log_Message.cpp: `find_directory_to_del_old_files` and `RemoveFile`.
pub mod Found
pub mod Sweep
use imachine_hb_f.Checksum.{Bytes}
use imachine_hb_f.Prelude.{
  ℕ, zero, suc, ◌+◌, ◌-◌, ◌*◌, Bool, true, false, not, ◌||◌, ◌&&◌, List, [], ◌∷◌, ◌++◌, length,
  take, ltb, ◌==◌, if◌then◌else◌,
}

-- What is in a folder, in the order of `readdir` and without "." and "..": files and links, with
-- `st_mtime`; folders, with whether `opendir` opens them; and whatever else there is.
pub data Folder : Type 0 where
  no_more : Folder
  file : Bytes → ℕ → Folder → Folder
  folder : Bytes → Bool → Folder → Folder → Folder
  other : Bytes → Folder → Folder

-- The time, `max_days` and `file_name`; and, by the path, whether `stat` finds a file, and whether `remove`
-- succeeds on a file or on an empty folder.
pub record Search : Type 0 where
  pub now : ℕ
  pub max_days : ℕ
  pub file_name : Bytes
  pub stats : Bytes → Bool
  pub remove : Bytes → Bool

unfoldable pub starts_with : Bytes → Bytes → Bool
starts_with text [] = true
starts_with [] (c ∷ cs) = false
starts_with (b ∷ bs) (c ∷ cs) = (b == c) && starts_with bs cs

-- `strstr`
unfoldable pub contains : Bytes → Bytes → Bool
unfolding starts_with
contains [] word = starts_with [] word
contains (b ∷ bs) word = starts_with (b ∷ bs) word || contains bs word

abbrev pub path_max : ℕ
path_max = 4096

-- Whether the path ends in ':', '/' or '\', or is empty.
unfoldable pub ends_open : Bytes → Bool
ends_open [] = true
ends_open (c ∷ []) = (c == 0x3A) || (c == 0x2F) || (c == 0x5C)
ends_open (c ∷ d ∷ path) = ends_open (d ∷ path)

-- The path in `buffer`.
unfoldable pub join_path : Bytes → Bytes → Bytes
unfolding ends_open
join_path dir_name name =
    let dir = take path_max dir_name in
    let start = if ends_open dir then dir else dir ++ (0x2F ∷ []) in
    start ++ take (path_max - length start) name

-- The test of `RemoveFile`.
unfoldable pub is_old : Search → ℕ → Bool
is_old s mtime = ltb (s.max_days * 60 * 60 * 24 + mtime) s.now

-- `RemoveFile`: whether the file is gone behind it.
unfoldable pub remove_file : Search → Bytes → ℕ → Bool
unfolding is_old
remove_file s path mtime =
    if s.stats path then (if is_old s mtime then s.remove path else false) else false

-- Whether an entry is gone behind its turn in the loop.
unfoldable pub removes : Search → Bytes → ℕ → Bool
unfolding contains remove_file
removes s path mtime = if contains path s.file_name then remove_file s path mtime else false

-- `file_exists`, behind the loop.
unfoldable pub file_exists : Folder → Bool
file_exists no_more = false
file_exists (file name mtime more) = true
file_exists (folder name readable inner more) = true
file_exists (other name more) = file_exists more

-- A `remove` of a folder that can be removed, which takes it away when it is empty.
unfoldable pub removed_folder : Bytes → Bool → Folder → Folder → Folder
removed_folder name readable no_more more = more
removed_folder name readable (file n t inner) more = folder name readable (file n t inner) more
removed_folder name readable (folder n r i inner) more =
    folder name readable (folder n r i inner) more
removed_folder name readable (other n inner) more = folder name readable (other n inner) more

unfoldable pub remove_folder : Search → Bytes → Bytes → Bool → Folder → Folder → Folder
unfolding removed_folder
remove_folder s path name readable left more =
    if s.remove path then removed_folder name readable left more else folder name readable left more

-- A folder is searched when its name is as long as a date and it can be opened.
unfoldable pub is_searched : Bytes → Bool → Bool
is_searched name readable = (length name == 10) && readable

-- What a search of the folder with this path leaves of its entries.
unfoldable pub sweep : Search → Bytes → Folder → Folder
unfolding join_path removes file_exists remove_folder is_searched
sweep s path no_more = no_more
sweep s path (file name mtime more) =
    let rest = sweep s path more in
    if removes s (join_path path name) mtime then rest else file name mtime rest
sweep s path (folder name readable inner more) =
    let rest = sweep s path more in
    let left = sweep s (join_path path name) inner in
    if is_searched name readable
    then (if file_exists inner
        then folder name readable left rest
        else remove_folder s (join_path path name) name readable left rest)
    else folder name readable inner rest
sweep s path (other name more) = other name (sweep s path more)
