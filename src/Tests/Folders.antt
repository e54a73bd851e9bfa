-- ===== src/Tests/Folders.antt =====
-- A folder of logs, searched, and the paths of the program.
use imachine_hb_f.Checksum.{Bytes}
use imachine_hb_f.Strings.{ascii}
use imachine_hb_f.Log.Folders.{
  Folder, no_more, file, folder, Search, starts_with, contains, ends_open, join_path, is_old,
  remove_file, removes, remove_folder, file_exists, removed_folder, is_searched, sweep,
}
use imachine_hb_f.Log.Folders.Sweep.{files, Leaves, files-sweep}
use imachine_hb_f.Log.Made.{Makes, createdirectory-Makes}
use imachine_hb_f.Log.Names.{Splits, get_module_file_name-Parts}
use imachine_hb_f.Log.Paths.{
  Tree, log_cfg_name, last_slash, split_name, get_module_file_name, create_loop, createdirectory,
}
use imachine_hb_f.Prelude.{◌≡◌, refl, Bool, List, true, false, some, [], ◌∷◌, arith}

-- Ten days after the start of time, with files of more than seven days to be removed.
abbrev week : Search
unfolding ascii
week = record {
  now = 864000;
  max_days = 7;
  file_name = ascii "dev";
  stats = λ _. true;
  remove = λ _. true;
}

-- A folder of a day with an old log and a new one, an empty folder, and one with another name.
abbrev logs : Folder
logs =
    folder (ascii "2024-06-05") true
      (file (ascii "dev-1.log") 0 (file (ascii "dev-2.log") 800000 no_more))
      (folder (ascii "2024-06-01") true no_more
        (folder (ascii "old") true (file (ascii "dev-1.log") 0 no_more) no_more))

logs_swept :
    sweep week (ascii "log/") logs
    ≡ folder
        (ascii "2024-06-05")
        true
        (file (ascii "dev-2.log") 800000 no_more)
        (folder (ascii "old") true (file (ascii "dev-1.log") 0 no_more) no_more)
unfolding sweep join_path ends_open removes remove_file remove_folder contains starts_with is_old
    file_exists removed_folder is_searched ascii
logs_swept = refl

files-sweep_example :
    Leaves week
      (files (ascii "log/") true logs)
      (files (ascii "log/") true (sweep week (ascii "log/") logs))
files-sweep_example = files-sweep week (ascii "log/") logs

abbrev program : Bytes
program = 0x2F ∷ 0x61 ∷ 0x2F ∷ 0x62 ∷ []

program_split :
    get_module_file_name (some program)
    ≡ some (record { cfgpath = ascii "/a/Config.ini"; path = ascii "/a/"; name = ascii "b" })
unfolding get_module_file_name split_name last_slash log_cfg_name ascii
program_split = refl

get_module_file_name-Parts_example : Splits program (get_module_file_name (some program))
get_module_file_name-Parts_example = get_module_file_name-Parts program (omega arith)

-- The first folder is there, and the second is made.
abbrev tree : Tree
tree = record { exists = λ _. false; mkdir = λ _. true }

two_made :
    createdirectory tree program ≡ some (true, ((0x2F ∷ 0x61 ∷ 0x2F ∷ []) ∷ (0x2F ∷ []) ∷ []))
unfolding createdirectory create_loop
two_made = refl

createdirectory-Makes_example :
    (r : Bool × List Bytes) × (createdirectory tree program ≡ some r) × Makes tree program r
createdirectory-Makes_example = createdirectory-Makes tree program (omega arith)
