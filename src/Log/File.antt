-- ===== src/Log/File.antt =====
-- The files of src/Log_Message.cpp: `write_to_file`, and the turn of the log thread that calls it. What
-- the file system answers is a parameter.
use imachine_hb_f.Checksum.{Bytes}
use imachine_hb_f.Log.{Log, take_block}
use imachine_hb_f.Prelude.{
  ℕ, zero, suc, ◌+◌, Bool, true, false, Option, none, some, List, [], ◌∷◌, ◌++◌, length, take, ltb,
  ◌==◌, if◌then◌else◌,
}

abbrev pub log_use_limit : ℕ
log_use_limit = 31457280

abbrev pub log_minimumspace : ℕ
log_minimumspace = 30

-- `year`, `mon` and `day`
pub record Stamp : Type 0 where
  pub year : ℕ
  pub mon : ℕ
  pub day : ℕ

-- What the name of a log file is printed from.
pub record LogName : Type 0 where
  pub stamp : Stamp
  pub count : ℕ

-- `log_fp`, with the position that `ftell` gives.
pub record LogFile : Type 0 where
  pub name : LogName
  pub pos : ℕ

pub data FileEffect : Type 0 where
  opened closed : LogName → FileEffect
  stored : LogName → Bytes → FileEffect
  -- A run of `find_directory_to_del_old_files`.
  swept : FileEffect

-- The file system during one call: whether a file can be opened, its folder being made where it is
-- missing; how long it is then; the free megabytes, 0 when they are not known; and how many bytes of
-- the block `fwrite` stores.
pub record Disk : Type 0 where
  pub opens : LogName → Bool
  pub size : LogName → ℕ
  pub free_space : ℕ
  pub fwrite : Bytes → ℕ

pub record Writer : Type 0 where
  pub log_fp : Option LogFile
  pub stamp : Stamp
  pub count : ℕ
  pub is_new : Bool
  pub log_write : Bool
  pub log_head_line : Bytes
  pub log_head_end : Bytes
  pub effects : List FileEffect

abbrev pub effect : FileEffect → Writer → Writer
effect e w = record w { effects = w.effects ++ e ∷ [] }

-- The call of `fopen`, under the name of this day and count.
unfoldable pub open_log : Disk → Stamp → Writer → Writer
open_log d today w =
    let name : LogName = record { stamp = today; count = w.count } in
    if d.opens name
    then effect (opened name) (record w {
      log_fp = some (record { name = name; pos = d.size name });
      stamp = today;
      is_new = true;
    })
    else record w { log_fp = none; stamp = today }

abbrev pub date_sum : Stamp → ℕ
date_sum s = s.year + s.mon + s.day

-- The two branches that open the first file of a day.
unfoldable pub day_file : Disk → Stamp → Writer → Writer
unfolding open_log
day_file d today w = elim w.log_fp [
  | none ↦ open_log d today (record w { count = 1 })
  | some f ↦
      if date_sum w.stamp == date_sum today
      then w
      else open_log d today
          (effect swept (effect (closed f.name) (record w { count = 1; is_new = true })))
]

abbrev pub next_file : Disk → Stamp → LogFile → Writer → Writer
next_file d today f w = open_log d today (effect (closed f.name) (record w { count = w.count + 1 }))

-- The loop over files that are full; `none` when the fuel is used up.
unfoldable pub small_file : ℕ → Disk → Stamp → Writer → Option Writer
unfolding open_log
small_file zero d today w = elim w.log_fp [
  | none ↦ some w
  | some f ↦ if ltb f.pos log_use_limit then some w else none
]
small_file (suc n) d today w = elim w.log_fp [
  | none ↦ some w
  | some f ↦
      let rest = small_file n d today (next_file d today f w) in
      if ltb f.pos log_use_limit then some w else rest
]

abbrev pub store : LogFile → Bytes → Writer → Writer
store f text w =
    effect (stored f.name text)
      (record w { log_fp = some (record f { pos = f.pos + length text }) })

-- The head of a new file.
unfoldable pub with_head : LogFile → Writer → LogFile × Writer
with_head f w =
    if w.is_new
    then (
      record f { pos = f.pos + length w.log_head_line },
      record (store f w.log_head_line w) { is_new = false },
    )
    else (f, w)

-- The end of `write_to_file`, with a file that is open.
unfoldable pub store_block : Disk → Bytes → LogFile → Writer → Bool × Writer
store_block d block f w =
    if ltb d.free_space log_minimumspace
    then (false, store f w.log_head_end (record w { log_write = false }))
    else (d.fwrite block == length block, store f (take (d.fwrite block) block) w)

unfoldable pub finish : Disk → Bytes → Writer → Bool × Writer
unfolding with_head store_block
finish d block w = elim w.log_fp [
  | none ↦ (false, w)
  | some f ↦ let (g, v) = with_head f w in store_block d block g v
]

unfoldable pub write_to_file : ℕ → Disk → Stamp → Bytes → Writer → Option (Bool × Writer)
unfolding day_file small_file finish
write_to_file fuel d today block w = elim (small_file fuel d today (day_file d today w)) [
  | none ↦ none
  | some v ↦ some (finish d block v)
]

-- A turn of the log thread, after it has waited: the block is written unless writing is off.
unfoldable pub log_turn : ℕ → Disk → Stamp → Log → Writer → Option (Log × Writer)
unfolding write_to_file take_block
log_turn fuel d today l w = elim (take_block l) [
  | none ↦ some (l, w)
  | some (block, l') ↦
      if w.log_write
      then elim (write_to_file fuel d today block w) [
        | none ↦ none
        | some (done, w') ↦ some (l', w')
      ]
      else some (l', w)
]
