-- ===== src/Checksum.antt =====
-- The block check character of src/IMachine.cpp: `BCCDataCheck`, the exclusive or of the bytes of a
-- frame. An array is the list of its bytes; a byte read past its end reads as 0, and every statement
-- about a frame says that the array holds the frame.
pub mod Fold
pub mod Detection
use imachine_hb_f.Prelude.{ℕ, zero, suc, ◌+◌, ◌-◌, ◌%◌, bit_xor, List, get_or, ◌==◌, if◌then◌else◌}

abbrev pub Bytes : Type 0
Bytes = List ℕ

-- `data[i]`
abbrev pub byte : Bytes → ℕ → ℕ
byte bytes i = get_or bytes i 0

-- `for (i = start; i < start + n; i++) xor_checksum ^= data[i]`
unfoldable pub xor_range : Bytes → ℕ → ℕ → ℕ → ℕ
xor_range bytes i zero acc = acc
xor_range bytes i (suc n) acc = xor_range bytes (suc i) n (bit_xor acc (byte bytes i))

-- Type 0 checks the last byte of the range against the others (1 or 0); any other type gives the
-- checksum of the whole range.
unfoldable pub bcc_data_check : Bytes → ℕ → ℕ → ℕ → ℕ
unfolding xor_range
bcc_data_check bytes start_index length type =
    if type == 0
    then (if xor_range bytes start_index (length - 1) 0 % 256
          == byte bytes (start_index + length - 1)
        then 1
        else 0)
    else xor_range bytes start_index length 0 % 256
