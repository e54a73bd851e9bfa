-- ===== src/Framer.antt =====
-- The receiving loops `ReceiveCmd1` and `ReceiveCmd2` of src/IMachine.cpp, which differ in the socket
-- and in the client's name alone. One call of `receive` is one turn of `while (1)`: a chunk of bytes
-- comes in, and the frames in it go to `CommunicationAnalysis`.
pub mod Passes
pub mod Termination
pub mod Checked
pub mod Stream
pub mod Pieces
use imachine_hb_f.Checksum.{Bytes, byte, bcc_data_check}
use imachine_hb_f.Prelude.{
  ℕ, zero, suc, ◌+◌, ◌-◌, max, Bool, true, false, ◌&&◌, Option, none, some, List, [], ◌∷◌, ◌++◌,
  length, take, drop, replicate, ltb, ◌==◌, if◌then◌else◌,
}

-- The locals that a turn leaves to the next. `index1` is `none` for -1, and `command_len` is `none`
-- before its first assignment.
pub record Framer : Type 0 where
  pub recv_data : Bytes
  pub pos : ℕ
  pub index1 : Option ℕ
  pub index2 : ℕ
  pub command_len : Option ℕ

-- What `CommunicationAnalysis` gets: the memory from the frame's first byte, and its length.
pub record Command : Type 0 where
  pub frame : Bytes
  pub len : ℕ

-- The end of one pass from `Find_Frame`: `continue`, `goto Find_Frame`, or the use of a `Command_Len`
-- that was never assigned.
pub data Pass : Type 0 where
  unset : Pass
  continues : List Command → Framer → Pass
  goes_on : List Command → Framer → Pass

-- The first header among `n` positions from `i` on.
unfoldable pub find_header : Bytes → ℕ → ℕ → Option ℕ
find_header bytes i zero = none
find_header bytes i (suc n) =
    let rest = find_header bytes (i + 1) n in
    if byte bytes i == 0xFF && byte bytes (i + 1) == 0xFF then some i else rest

-- `Command_Len`, by the bytes around the place `i` where the search ended.
unfoldable pub frame_len : Bytes → ℕ → Option ℕ → Option ℕ
frame_len bytes i old =
    if byte bytes (i + 13) == 0x44
    then some 58
    else if byte bytes (i + 13) == 0x64
    then some 87
    else if byte bytes (i + 13) == 0x07
    then some 23
    else if byte bytes (i + 8) == 0xAE
    then some 11
    else if byte bytes (i + 13) == 0x53
    then some (byte bytes (i + 6) + 9 + 10)
    else if byte bytes (i + 8) == 0xA3
    then some 11
    else if byte bytes (i + 3) == 0x90
    then some 9
    else old

abbrev pub buffer_size : ℕ
buffer_size = 2048

-- `memset`, with every index back at its start.
abbrev pub cleared : Framer → Framer
cleared f = record f { recv_data = replicate buffer_size 0; pos = 0; index1 = none; index2 = 0 }

-- The bytes after the frame, moved to the start of the buffer.
abbrev pub shifted : Framer → Framer
shifted f =
    let rest = f.pos - f.index2 in
    record f {
      recv_data = take rest (drop f.index2 f.recv_data) ++ replicate (buffer_size - rest) 0;
      pos = rest;
      index1 = none;
      index2 = 0;
    }

-- Whether the rest is too short to be looked at before more bytes come.
unfoldable pub too_short : Bytes → ℕ → Bool
too_short bytes pos =
    if ltb pos 4
    then true
    else if byte bytes 9 == 0xA0
        && byte bytes 10 == 0xB0
        && byte bytes 11 == 0xC0
        && byte bytes 12 == 0xD0
    then ltb pos (byte bytes 7 + 9)
    else if byte bytes 3 == 0x90
    then ltb pos (byte bytes 5 + 7)
    else ltb pos (byte bytes 7)

unfoldable pub accepted : Framer → ℕ → ℕ → Pass
accepted f start len =
    let command : Command = record { frame = drop start f.recv_data; len = len } in
    if f.index2 == 0
    then continues (command ∷ []) (cleared f)
    else if too_short (shifted f).recv_data (shifted f).pos
    then continues (command ∷ []) (shifted f)
    else goes_on (command ∷ []) (shifted f)

-- The frame is wrong: look for a second header.
unfoldable pub rejected : Framer → ℕ → Pass
rejected f start = elim (find_header f.recv_data (start + 1) (f.pos - 1 - (start + 1))) [
  | some i ↦ goes_on [] (record f { index1 = none; index2 = i })
  | none ↦ continues [] (record f { index2 = 0; pos = 0 })
]

-- The check of the frame at `start`, once `Index2` is behind it, or 0 where it is the last.
unfoldable pub checked : Framer → ℕ → ℕ → Pass
checked f start len =
    if bcc_data_check f.recv_data (start + 2) (len - 2) 0 == 1
    then accepted f start len
    else rejected f start

unfoldable pub sized : Framer → ℕ → Option ℕ → Pass
sized f start none = unset
sized f start (some len) =
    if ltb f.pos (start + len)
    then continues [] f
    else checked (record f { index2 = if ltb (start + len) f.pos then start + len else 0 }) start
        len

-- `i` is the place where the search ended, and `start` is `Index1`.
unfoldable pub located : Framer → ℕ → Option ℕ → Pass
located f i none = continues [] (record f { index1 = none; index2 = 0; pos = 0 })
located f i (some start) =
    if ltb f.pos (start + 7)
    then continues [] (record f { index1 = some start })
    else let len = frame_len f.recv_data i f.command_len in
      sized (record f { index1 = some start; command_len = len }) start len

unfoldable pub pass : Framer → Pass
pass f = elim (find_header f.recv_data f.index2 (f.pos - 1 - f.index2)) [
  | some i ↦ located f i (some i)
  | none ↦ located f (max f.index2 (f.pos - 1)) f.index1
]

-- The end of a turn: the commands of the turn in their order, the loss of the connection, a fault
-- (a write past the end of `Recv_Data`, or `unset`), or passes that never end.
pub data Received : Type 0 where
  closed : Received
  fault : Received
  out_of_fuel : Received
  received : List Command → Framer → Received

abbrev pub after_commands : List Command → Received → Received
after_commands cs closed = closed
after_commands cs fault = fault
after_commands cs out_of_fuel = out_of_fuel
after_commands cs (received ds f) = received (cs ++ ds) f

abbrev pub after_pass : Pass → (Framer → Received) → Received
after_pass unset next = fault
after_pass (continues cs g) next = received cs g
after_pass (goes_on cs g) next = after_commands cs (next g)

-- At most `n` passes.
unfoldable pub passes : ℕ → Framer → Received
passes zero f = out_of_fuel
passes (suc n) f = after_pass (pass f) (passes n)

abbrev pub appended : Framer → Bytes → Framer
appended f chunk = record f {
  recv_data = take f.pos f.recv_data ++ (chunk ++ drop (f.pos + length chunk) f.recv_data);
  pos = f.pos + length chunk;
}

-- `[]` stands for a result of `RecvByte` that is not positive.
unfoldable pub receive : Framer → Bytes → Received
receive f [] = closed
receive f (b ∷ bs) =
    let g = appended f (b ∷ bs) in
    if ltb buffer_size g.pos
    then fault
    else if ltb g.pos 4
    then received [] g
    else passes (g.pos + 1) g

abbrev pub next_turn : Received → (Framer → Received) → Received
next_turn closed next = closed
next_turn fault next = fault
next_turn out_of_fuel next = out_of_fuel
next_turn (received cs g) next = after_commands cs (next g)

-- `while (1)`, over the chunks as they come.
unfoldable pub receive_all : Framer → List Bytes → Received
unfolding receive
receive_all f [] = received [] f
receive_all f (chunk ∷ more) = next_turn (receive f chunk) (λ (g : Framer). receive_all g more)
