-- ===== src/Config/Text.antt =====
-- The string helpers of src/Get_Inifiles.cpp, and the lines that `std::getline` reads. A string is the
-- list of its bytes; the program sets no locale, so `iswspace` is that of the "C" locale.
use imachine_hb_f.Checksum.{Bytes, byte}
use imachine_hb_f.Prelude.{
  ℕ, zero, suc, ◌+◌, Bool, true, false, ◌&&◌, ◌||◌, Option, none, some, List, [], ◌∷◌, length, take,
  drop, leb, ◌==◌, if◌then◌else◌,
}

unfoldable pub is_space : ℕ → Bool
is_space c = c == 0x20 || leb 9 c && leb c 13

-- The first loop of `trim`: how many bytes it passes.
unfoldable pub leading : Bytes → ℕ
leading [] = 0
leading (c ∷ cs) = if is_space c then suc (leading cs) else 0

-- The second loop, `for (i = n - 1; i >= 0; --i)`: its `i + 1` at the end.
unfoldable pub kept : Bytes → ℕ → ℕ
kept str zero = 0
kept str (suc i) = let rest = kept str i in if is_space (byte str i) then rest else suc i

unfoldable pub trim : Bytes → Bytes
unfolding leading kept
trim str = let left = drop (leading str) str in take (kept left (length left)) left

unfoldable pub start_with : Bytes → Bytes → Bool
start_with str [] = true
start_with [] (p ∷ ps) = false
start_with (c ∷ cs) (p ∷ ps) = (c == p) && start_with cs ps

-- `str.find(sep)`
unfoldable pub find : Bytes → Bytes → Option ℕ
unfolding start_with
find [] sep = if start_with [] sep then some 0 else none
find (c ∷ cs) sep =
    if start_with (c ∷ cs) sep
    then some 0
    else elim (find cs sep) [ none ↦ none | some i ↦ some (suc i) ]

-- What `split` returns, and the two strings that it stores.
pub record Parts : Type 0 where
  pub both : Bool
  pub left : Bytes
  pub right : Bytes

-- One byte of the separator is passed, however long it is.
unfoldable pub split : Bytes → Bytes → Parts
unfolding find trim
split str sep = elim (find str sep) [
  | some pos ↦ record { both = true; left = trim (take pos str); right = trim (drop (pos + 1) str) }
  | none ↦ record { both = false; left = trim str; right = [] }
]

-- `delim`
abbrev pub newline : ℕ
newline = 10

abbrev pub onto_first : ℕ → List Bytes → List Bytes
onto_first c [] = (c ∷ []) ∷ []
onto_first c (l ∷ ls) = (c ∷ l) ∷ ls

-- The lines of a file; a last line may lack its end.
unfoldable pub lines : Bytes → List Bytes
lines [] = []
lines (c ∷ cs) = let rest = lines cs in if c == newline then [] ∷ rest else onto_first c rest
