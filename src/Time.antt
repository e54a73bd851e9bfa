-- ===== src/Time.antt =====
-- The time as bytes, of src/GetTime.cpp. What `time` returns is an argument.
use imachine_hb_f.Checksum.{Bytes, byte}
use imachine_hb_f.Prelude.{ℕ, ◌+◌, ◌*◌, ◌/◌, ◌%◌, ◌^◌, ◌<◌, ◌≡◌, [], ◌∷◌, arith}

-- `(now >> n) & 0xFF`
abbrev pub byte_of : ℕ → ℕ → ℕ
byte_of now n = now / 2 ^ n % 256

unfoldable pub get_unix_time : ℕ → Bytes
get_unix_time now = byte_of now 24 ∷ byte_of now 16 ∷ byte_of now 8 ∷ byte_of now 0 ∷ []

unfoldable pub get_unix_time8 : ℕ → Bytes
get_unix_time8 now =
    byte_of now 28
    ∷ byte_of now 24
    ∷ byte_of now 20
    ∷ byte_of now 16
    ∷ byte_of now 12
    ∷ byte_of now 8
    ∷ byte_of now 4
    ∷ byte_of now 0
    ∷ []

-- The number that four bytes stand for, the highest first.
abbrev pub from_bytes : Bytes → ℕ
from_bytes t = byte t 0 * 2 ^ 24 + byte t 1 * 2 ^ 16 + byte t 2 * 2 ^ 8 + byte t 3

-- The four bytes of GetUnixTime stand for the time, when it is less than 2 ^ 32 seconds.
pub from_bytes-get_unix_time : (now : ℕ) → now < 2 ^ 32 → from_bytes (get_unix_time now) ≡ now
unfolding get_unix_time
from_bytes-get_unix_time now h = omega arith

-- The bytes of GetUnixTime8 overlap: the lower half of the second is the upper half of the third.
pub get_unix_time8-overlap :
    (now : ℕ) → byte (get_unix_time8 now) 1 % 16 ≡ byte (get_unix_time8 now) 2 / 16
unfolding get_unix_time8
get_unix_time8-overlap now = omega arith
