-- ===== src/Log.antt =====
-- The buffer of src/Log_Message.cpp and the lines that callers put together for it. The formatting of
-- printf is not modelled: a formatted text is an argument, and what is followed is where the program
-- puts it.
pub mod Cells
pub mod Line
pub mod Spool
pub mod File
pub mod Paths
pub mod Names
pub mod Made
pub mod Folders
pub mod Rotation
pub mod Blocks
pub mod Clock
use imachine_hb_f.Checksum.{Bytes, byte}
use imachine_hb_f.Prelude.{
  ℕ, zero, suc, ◌+◌, ◌-◌, ◌*◌, ◌/◌, ◌%◌, ◌^◌, Bool, true, false, Option, none, some, List, [], ◌∷◌,
  ◌++◌, length, take, drop, replicate, ltb, leb, ◌==◌, if◌then◌else◌,
}

abbrev pub log_len_limit : ℕ
log_len_limit = 4096

abbrev pub log_buf_use_limit : ℕ
log_buf_use_limit = 10485760

-- The levels TRACE, INFO, WARN and ERROR are 0 to 3.
abbrev pub error : ℕ
error = 3

-- `log_level`, where 0 stands for a level below 0 as well, and the first `log_buffer_len` bytes of `log_buffer`.
pub record Log : Type 0 where
  pub level : ℕ
  pub buffer : Bytes

-- `none`: a write outside of the array.
unfoldable pub put : Bytes → ℕ → Bytes → Option Bytes
put cells pos text =
    if leb (pos + length text) (length cells)
    then some (take pos cells ++ (text ++ drop (pos + length text) cells))
    else none

-- What `snprintf(cells + pos, size, ...)` stores of the formatted text: it ends with a zero.
unfoldable pub snprintf : Bytes → ℕ → ℕ → Bytes → Option Bytes
unfolding put
snprintf cells pos zero text = some cells
snprintf cells pos (suc size) text = put cells pos (take size text ++ 0 ∷ [])

-- `log_line`, as a caller finds it
unfoldable pub log_line : Bytes
log_line = replicate (log_len_limit + 3) 0

-- `LOG_BUF_USE_LIMIT - log_len`, of type size_t
unfoldable pub room_for : ℕ → ℕ
room_for log_len = (log_buf_use_limit + 2 ^ 64 - log_len) % 2 ^ 64

-- The part of `try_append` between lock and unlock, for the bytes of the line.
unfoldable pub append_line : Bytes → Log → Log
unfolding room_for
append_line line l =
    if ltb (length l.buffer) (room_for (length line))
    then record l { buffer = l.buffer ++ line }
    else l

-- `try_append`: the end of line goes behind the text, wherever the array ends.
unfoldable pub try_append : Bytes → ℕ → Log → Option Log
unfolding append_line put
try_append cells log_len l = elim (put cells log_len (0x0A ∷ [])) [
  | none ↦ none
  | some line ↦ some (append_line (take (log_len + 1) line) l)
]

-- The level of the message is one of the four, and `log_level` lets it pass.
unfoldable pub passes_level : ℕ → Log → Bool
passes_level lvl l = if leb lvl error then leb l.level lvl else false

-- `LOG_LEN_LIMIT - log_len` as the size_t that `vsnprintf` takes.
unfoldable pub size_left : ℕ → ℕ
size_left log_len = (log_len_limit + 2 ^ 64 - log_len) % 2 ^ 64

-- The text: the head, and the message behind it, both at their formatted lengths.
unfoldable pub line_of : Bytes → Bytes → Option Bytes
unfolding snprintf size_left
line_of head main = elim (snprintf log_line 0 log_len_limit head) [
  | none ↦ none
  | some cells ↦ snprintf cells (length head) (size_left (length head)) main
]

unfoldable pub log_try_append : ℕ → Bytes → Bytes → Log → Option Log
unfolding line_of passes_level try_append
log_try_append lvl head main l =
    if passes_level lvl l
    then elim (line_of head main) [
      | none ↦ none
      | some cells ↦ try_append cells (length head + length main) l
    ]
    else some l

abbrev pub hex_digit : ℕ → ℕ
hex_digit n = if ltb n 10 then 0x30 + n else 0x37 + n

-- `" %02X"` of a byte
unfoldable pub hex_text : ℕ → Bytes
hex_text b = 0x20 ∷ hex_digit (b / 16) ∷ hex_digit (b % 16) ∷ []

-- The loop of `hex_try_append`: the array and `log_len` after it.
unfoldable pub hex_loop : Bytes → ℕ → Bytes → Option (Bytes × ℕ)
unfolding hex_text put
hex_loop cells log_len [] = some (cells, log_len)
hex_loop cells log_len (b ∷ bs) =
    if ltb log_len (log_len_limit - 4)
    then elim (put cells log_len (hex_text b ++ 0 ∷ [])) [
      | none ↦ none
      | some next ↦ hex_loop next (log_len + 3) bs
    ]
    else some (cells, log_len)

unfoldable pub hex_try_append : ℕ → Bytes → Bytes → Log → Option Log
unfolding snprintf hex_loop passes_level try_append
hex_try_append lvl head buffer l =
    if passes_level lvl l
    then elim (snprintf log_line 0 log_len_limit head) [
      | none ↦ none
      | some cells ↦ elim (hex_loop cells (length head) buffer) [
        | none ↦ none
        | some (line, log_len) ↦ try_append line log_len l
      ]
    ]
    else some l

-- What the log thread takes under the lock: the whole buffer, once there is something in it. It waits
-- otherwise.
unfoldable pub take_block : Log → Option (Bytes × Log)
take_block l = if length l.buffer == 0 then none else some (l.buffer, record l { buffer = [] })
