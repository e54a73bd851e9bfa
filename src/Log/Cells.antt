-- ===== src/Log/Cells.antt =====
-- Arrays that begin with a given text, under the writes of src/Log_Message.cpp.
use imachine_hb_f.Checksum.{Bytes}
use imachine_hb_f.Log.{Log, put, snprintf, try_append, append_line, log_line}
use imachine_hb_f.Prelude.{
  ℕ, suc, ◌+◌, ◌≤◌, ◌<◌, false, ◌≡◌, ◌≢◌, refl, sym, ap, ◌∙◌, true, false, none, some, [], ◌∷◌,
  ◌++◌, append_assoc, length, length-append, length-take, length-drop, length-replicate, take, drop,
  take-append, take-length, leb, arith,
}

-- An array of 4099 bytes, of which the first are the text.
pub record Holds (cells text : Bytes) : Type 0 where
  pub size : length cells ≡ 4099
  pub rest : Bytes
  pub split : cells ≡ text ++ rest

pub log_line-Holds : Holds log_line []
unfolding log_line
log_line-Holds = record { size = length-replicate {A = ℕ} 4099 0; rest = log_line; split = refl }

pub Holds-append : (cells s t : Bytes) → Holds cells (s ++ t) → Holds cells s
Holds-append cells s t h = record {
  size = h.size;
  rest = t ++ h.rest;
  split = h.split ∙ append_assoc s t h.rest;
}

put-size :
    (cells text : Bytes) (pos : ℕ)
    → length cells ≡ 4099
    → pos + length text ≤ 4099
    → length (take pos cells ++ (text ++ drop (pos + length text) cells)) ≡ 4099
put-size cells text pos h k =
    let a = length-append (take pos cells) (text ++ drop (pos + length text) cells) in
    let b = length-append text (drop (pos + length text) cells) in
    let c = length-take pos cells in
    let d = length-drop (pos + length text) cells in omega (arith, h, a, b, c, d)

pub put-Holds :
    (cells s text : Bytes)
    → Holds cells s
    → length s + length text ≤ 4099
    → (next : Bytes) × (put cells (length s) text ≡ some next) × Holds next (s ++ text)
unfolding put
put-Holds cells s text h k =
    let tail : Bytes = drop (length s + length text) cells in
    let next : Bytes = take (length s) cells ++ (text ++ tail) in
    let start : take (length s) cells ≡ s =
      ap (take (length s)) h.split ∙ take-append (length s) s h.rest refl in
    let e : leb (length s + length text) (length cells) ≡ true = ground (arith, h.size) in
    (
      next,
      rw (e, put) refl,
      record {
        size = put-size cells text (length s) h.size k;
        rest = tail;
        split = rw start (sym (append_assoc s text tail));
      },
    )

-- `snprintf` of a text that fits.
pub snprintf-Holds :
    (cells s text : Bytes) (size : ℕ)
    → Holds cells s
    → length text ≤ size
    → length s + length text < 4099
    → (next : Bytes) × (snprintf cells (length s) (suc size) text ≡ some next)
      × Holds next (s ++ text)
unfolding snprintf
snprintf-Holds cells s text size h k m =
    let e : length (text ++ 0 ∷ []) ≡ length text + 1 = length-append text (0 ∷ []) in
    let (next, p, held) = put-Holds cells s (text ++ 0 ∷ []) h (omega (arith, e)) in
    (
      next,
      rw (take-length size text k) p,
      Holds-append next (s ++ text) (0 ∷ []) (rw (append_assoc s text (0 ∷ [])) held),
    )

pub try_append-Holds :
    (cells s : Bytes) (l : Log)
    → Holds cells s
    → length s < 4099
    → try_append cells (length s) l ≡ some (append_line (s ++ 0x0A ∷ []) l)
unfolding try_append
try_append-Holds cells s l h k =
    let (next, p, held) = put-Holds cells s (0x0A ∷ []) h (omega arith) in
    let e : length s + 1 ≡ length (s ++ 0x0A ∷ []) = omega (arith, length-append s (0x0A ∷ [])) in
    rw (p, try_append)
      (ap (λ (line : Bytes). some (append_line line l))
        (ap (take (length s + 1)) held.split
          ∙ take-append (length s + 1) (s ++ 0x0A ∷ []) held.rest e))

pub try_append-outside :
    (cells : Bytes) (n : ℕ) (l : Log) → length cells ≡ 4099 → 4099 ≤ n → try_append cells n l ≡ none
unfolding try_append put
try_append-outside cells n l h k =
    let e : leb (n + 1) (length cells) ≡ false = ground (arith, h) in rw (e, put, try_append) refl

pub try_append-inside :
    (cells : Bytes) (n : ℕ) (l : Log) → length cells ≡ 4099 → n < 4099 → try_append cells n l ≢ none
unfolding try_append put
try_append-inside cells n l h k q =
    let e : leb (n + 1) (length cells) ≡ true = ground (arith, h) in
    let r = (rw (e, put, try_append) at q) in cc
