-- ===== src/Config/Items.antt =====
-- What `Load` of src/Get_Inifiles.cpp makes of the lines that `SaveAs` writes for an item.
use imachine_hb_f.Checksum.{Bytes, byte}
use imachine_hb_f.Config.{IniItem}
use imachine_hb_f.Config.Lines.{
  Free, StartsClean, Trimmed, Free-append, split_here, split_nowhere, Trimmed-append, trim-Trimmed,
  trim_space,
}
use imachine_hb_f.Config.Load.{
  Loader, reads, load_trimmed, add_key_value_pair, update_section, right_text, push_item,
}
use imachine_hb_f.Config.Plain.{sharp, IsPlainItem, cons_not_empty}
use imachine_hb_f.Config.Text.{is_space, trim, start_with, split}
use imachine_hb_f.Prelude.{
  ℕ, ◌≡◌, ◌≢◌, refl, sym, ◌∙◌, false, [], ◌∷◌, ◌++◌, append_assoc, append-nil, length, arith, ◌==◌,
  if◌then◌else◌,
}

-- The step of `Load` over a line that is no comment, by what `split` finds in it.
pub load_trimmed-split :
    (line left right : Bytes) (l : Loader)
    → (length line == 0) ≡ false
    → start_with line sharp ≡ false
    → (split line sharp).left ≡ left
    → (split line sharp).right ≡ right
    → load_trimmed sharp line l ≡ (
        if byte left 0 == 0x5B
        then update_section left right l
        else add_key_value_pair left right l)
unfolding load_trimmed
load_trimmed-split line left right l e h k r =
    rw (e, load_trimmed) (rw (h, load_trimmed) (rw (k, r, load_trimmed) refl))

-- The key, "=" and the value.
abbrev pub pair_text : IniItem → Bytes
pair_text i = i.key ++ 0x3D ∷ i.value

pair-Free : (i : IniItem) → IsPlainItem i → Free 0x23 (pair_text i)
pair-Free i h = Free-append 0x23 i.key (0x3D ∷ i.value) h.key_sharp (omega arith, h.value_sharp)

pair-Trimmed : (i : IniItem) → IsPlainItem i → Trimmed (pair_text i)
unfolding is_space
pair-Trimmed i h = Trimmed-append i.key i.value 0x3D refl h.key.start h.value.end

add_pair :
    (i : IniItem) (l : Loader)
    → IsPlainItem i
    → add_key_value_pair (pair_text i) i.right_comment l
      ≡ reads (push_item (record i { comment = l.comment }) l)
unfolding add_key_value_pair
add_pair i l h =
    rw (split_here 0x3D i.key i.value h.key_equals, add_key_value_pair)
      (rw (trim-Trimmed i.key h.key, trim-Trimmed i.value h.value) refl)

no_bracket :
    (key value : Bytes) → byte key 0 ≢ 0x5B → (byte (key ++ 0x3D ∷ value) 0 == 0x5B) ≡ false
no_bracket [] value h = refl
no_bracket (c ∷ key) value h = ground (arith, h)

no_sharp : (s t : Bytes) (c : ℕ) → Free 0x23 s → c ≢ 0x23 → start_with (s ++ c ∷ t) sharp ≡ false
unfolding start_with
no_sharp [] t c h k = ground (arith, k)
no_sharp (x ∷ s) t c h k = ground (arith, h.0)

pub not_empty : (s t : Bytes) (c : ℕ) → (length (s ++ c ∷ t) == 0) ≡ false
not_empty [] t c = cons_not_empty c t
not_empty (x ∷ s) t c = cons_not_empty x (s ++ c ∷ t)

clean_space :
    (key value : Bytes)
    → StartsClean (key ++ 0x3D ∷ value)
    → StartsClean ((key ++ 0x3D ∷ value) ++ 0x20 ∷ [])
clean_space [] value h = h
clean_space (x ∷ key) value h = h

-- The whole line, without its end.
abbrev pub line_text : IniItem → Bytes
line_text i = i.key ++ (0x3D ∷ (i.value ++ right_text sharp i.right_comment))

-- What `split` finds in such a line, which `trim` leaves alone.
record IsLineOf (line pair right : Bytes) : Type 0 where
  whole : Trimmed line
  left_part : (split line sharp).left ≡ pair
  right_part : (split line sharp).right ≡ right

no_right : (pair : Bytes) → Free 0x23 pair → Trimmed pair → IsLineOf pair pair []
no_right pair h k = record {
  whole = k;
  left_part = rw (split_nowhere 0x23 pair h) (trim-Trimmed pair k);
  right_part = rw (split_nowhere 0x23 pair h) refl;
}

some_right :
    (pair right : Bytes)
    → Free 0x23 pair
    → Trimmed pair
    → StartsClean (pair ++ 0x20 ∷ [])
    → Trimmed right
    → IsLineOf ((pair ++ 0x20 ∷ []) ++ 0x23 ∷ right) pair right
unfolding is_space
some_right pair right h k n r =
    let free : Free 0x23 (pair ++ 0x20 ∷ []) =
      Free-append 0x23 pair (0x20 ∷ []) h (omega arith, tt) in
    record {
      whole = Trimmed-append (pair ++ 0x20 ∷ []) right 0x23 refl n r.end;
      left_part = rw (split_here 0x23 (pair ++ 0x20 ∷ []) right free) (trim_space pair k);
      right_part = rw (split_here 0x23 (pair ++ 0x20 ∷ []) right free) (trim-Trimmed right r);
    }

line-IsLineOf :
    (key value right : Bytes)
    → Free 0x23 (key ++ 0x3D ∷ value)
    → Trimmed (key ++ 0x3D ∷ value)
    → Trimmed right
    → IsLineOf (key ++ 0x3D ∷ (value ++ right_text sharp right)) (key ++ 0x3D ∷ value) right
unfolding right_text
line-IsLineOf key value [] h k r = rw (append-nil value) (no_right (key ++ 0x3D ∷ value) h k)
line-IsLineOf key value (c ∷ right) h k r =
    let e : (length (c ∷ right) == 0) ≡ false = cons_not_empty c right in
    let pair : Bytes = key ++ 0x3D ∷ value in
    let tail : Bytes = 0x23 ∷ c ∷ right in
    let clean : StartsClean (pair ++ 0x20 ∷ []) = clean_space key value k.start in
    let t : (pair ++ 0x20 ∷ []) ++ tail ≡ key ++ 0x3D ∷ (value ++ 0x20 ∷ tail) =
      append_assoc pair (0x20 ∷ []) tail ∙ append_assoc key (0x3D ∷ value) (0x20 ∷ tail) in
    rw (e, right_text) (rw (sym t) (some_right pair (c ∷ right) h k clean r))

pub load_line :
    (i : IniItem) (l : Loader)
    → IsPlainItem i
    → load_trimmed sharp (trim (line_text i)) l
      ≡ reads (push_item (record i { comment = l.comment }) l)
load_line i l h =
    let w : IsLineOf (line_text i) (pair_text i) i.right_comment =
      line-IsLineOf i.key i.value i.right_comment (pair-Free i h) (pair-Trimmed i h) h.right in
    rw (trim-Trimmed (line_text i) w.whole) (
      load_trimmed-split (line_text i) (pair_text i) i.right_comment l
        (not_empty i.key (i.value ++ right_text sharp i.right_comment) 0x3D)
        (no_sharp i.key (i.value ++ right_text sharp i.right_comment) 0x3D h.key_sharp
          (omega arith))
        w.left_part w.right_part
      ∙ rw (no_bracket i.key i.value h.key_bracket) (add_pair i l h))
