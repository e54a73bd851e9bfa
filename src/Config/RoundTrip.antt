-- ===== src/Config/RoundTrip.antt =====
-- `Load` of src/Get_Inifiles.cpp on the text that `SaveAs` writes.
use imachine_hb_f.Checksum.{Bytes}
use imachine_hb_f.Config.{IniItem, IniSection, has_section, new_section}
use imachine_hb_f.Config.Items.{load_trimmed-split}
use imachine_hb_f.Config.Lines.{
  Free, Trimmed, Free-append, split_nowhere, Trimmed-append, trim-Trimmed,
}
use imachine_hb_f.Config.Load.{
  Loader, sections, loaded, reads, load_trimmed, load_lines, load, update_section, find_bracket,
  right_text, items_text, push_section, section_text, save_text,
}
use imachine_hb_f.Config.Plain.{
  sharp, ArePlainItems, IsPlainSection, ArePlainSections, unlines, load_lines-comment,
  cons_not_empty,
}
use imachine_hb_f.Config.Saved.{load_lines-step, at, load_items}
use imachine_hb_f.Config.Strip.{strip_end}
use imachine_hb_f.Config.Text.{is_space, trim, start_with, newline, lines}
use imachine_hb_f.Prelude.{
  suc, ◌-◌, ◌≡◌, ◌≢◌, refl, sym, ap, ◌∙◌, false, some, List, [], ◌∷◌, ◌++◌, append_assoc,
  append-nil, length, arith, ◌==◌, take-append,
}

find_bracket-name :
    (name : Bytes) → Free 0x5D name → find_bracket (name ++ 0x5D ∷ []) ≡ some (length name)
unfolding find_bracket
find_bracket-name [] h = refl
find_bracket-name (c ∷ name) h =
    let e : (c == 0x5D) ≡ false = ground (arith, h.0) in
    rw (e, find_bracket) (rw (find_bracket-name name h.1) refl)

abbrev name_line : IniSection → Bytes
name_line s = 0x5B ∷ (s.name ++ 0x5D ∷ [])

abbrev empty_section : IniSection → Bytes → IniSection
empty_section s comment = record {
  name = s.name;
  comment = comment;
  right_comment = [];
  items = [];
}

named : (name : Bytes) → name ≢ [] → (length name == 0) ≡ false
named [] h = absurd (h refl)
named (c ∷ name) h = cons_not_empty c name

update_section-name :
    (s : IniSection) (l : Loader)
    → IsPlainSection s
    → has_section s.name (sections l) ≡ false
    → update_section (name_line s) [] l ≡ reads (at (sections l) (empty_section s l.comment))
unfolding update_section find_bracket push_section
update_section-name s l h k =
    let z : suc (length s.name) - 1 ≡ length s.name = omega arith in
    rw (find_bracket-name s.name h.name_bracket, update_section, find_bracket)
      (rw z (
        rw (named s.name h.named, take-append (length s.name) s.name (0x5D ∷ []) refl)
          (rw (trim-Trimmed s.name h.name) (rw (k, push_section) refl))))

load_name :
    (s : IniSection) (l : Loader)
    → IsPlainSection s
    → has_section s.name (sections l) ≡ false
    → load_trimmed sharp (trim (name_line s)) l
      ≡ reads (at (sections l) (empty_section s l.comment))
unfolding is_space start_with strip_end
load_name s l h k =
    let whole : Trimmed (name_line s) = Trimmed-append (0x5B ∷ s.name) [] 0x5D refl refl refl in
    let free : Free 0x23 (name_line s) =
      (omega arith, Free-append 0x23 s.name (0x5D ∷ []) h.name_sharp (omega arith, tt)) in
    rw (trim-Trimmed (name_line s) whole) (
      load_trimmed-split (name_line s) (name_line s) [] l
        (cons_not_empty 0x5B (s.name ++ 0x5D ∷ [])) refl
        (rw (split_nowhere 0x23 (name_line s) free) (trim-Trimmed (name_line s) whole))
        (rw (split_nowhere 0x23 (name_line s) free) refl)
      ∙ update_section-name s l h k)

regroup :
    (name items rest : Bytes)
    → ((name ++ 0x5D ∷ newline ∷ []) ++ items) ++ rest
      ≡ (name ++ 0x5D ∷ []) ++ newline ∷ (items ++ rest)
regroup name items rest =
    append_assoc (name ++ 0x5D ∷ newline ∷ []) items rest
    ∙ append_assoc name (0x5D ∷ newline ∷ []) (items ++ rest)
    ∙ sym (append_assoc name (0x5D ∷ []) (newline ∷ (items ++ rest)))

section_text-rows :
    (s : IniSection) (h : IsPlainSection s) (rest : Bytes)
    → section_text sharp s ++ rest
      ≡ unlines h.comment.rows ++ (name_line s ++ newline ∷ (items_text sharp s.items ++ rest))
unfolding section_text right_text
section_text-rows s h rest =
    rw (named s.name h.named, h.right, h.comment.text)
      (append_assoc (unlines h.comment.rows)
          ((0x5B ∷ (s.name ++ 0x5D ∷ newline ∷ [])) ++ items_text sharp s.items) rest
        ∙ ap (λ (t : Bytes). unlines h.comment.rows ++ 0x5B ∷ t)
            (regroup s.name (items_text sharp s.items) rest))

load_section :
    (s : IniSection) (rest : Bytes) (done : List IniSection) (current : IniSection)
    → IsPlainSection s
    → has_section s.name (done ++ current ∷ []) ≡ false
    → load_lines sharp (lines (section_text sharp s ++ rest)) (at done current)
      ≡ load_lines sharp (lines rest) (at (done ++ current ∷ []) s)
load_section s rest done current h k =
    let l : Loader = record { done = done; current = current; comment = unlines h.comment.rows } in
    let free : Free newline (name_line s) =
      (omega arith, Free-append newline s.name (0x5D ∷ []) h.name_line (omega arith, tt)) in
    let later : Bytes = items_text sharp s.items ++ rest in
    ap (λ (t : Bytes). load_lines sharp (lines t) (at done current)) (section_text-rows s h rest)
    ∙ load_lines-comment h.comment.rows (name_line s ++ newline ∷ later) (at done current)
        h.comment.are
    ∙ load_lines-step (name_line s) later l (at (sections l) (empty_section s l.comment)) free
        (load_name s l h k)
    ∙ load_items s.items rest (sections l) (empty_section s l.comment) h.items
    ∙ ap
        (λ (c : Bytes).
          load_lines sharp (lines rest)
            (at (sections l) (record s { comment = c; right_comment = [] })))
        (sym h.comment.text)
    ∙ ap
        (λ (r : Bytes).
          load_lines sharp (lines rest) (at (sections l) (record s { right_comment = r })))
        (sym h.right)

load_sections :
    (ss : List IniSection) (done : List IniSection) (current : IniSection)
    → ArePlainSections (done ++ current ∷ []) ss
    → load_lines sharp (lines (save_text sharp ss)) (at done current)
      ≡ loaded ((done ++ current ∷ []) ++ ss)
unfolding save_text load_lines lines
load_sections [] done current h = ap loaded (sym (append-nil (done ++ current ∷ [])))
load_sections (s ∷ ss) done current (h, k, hs) =
    load_section s (save_text sharp ss) done current h k
    ∙ load_sections ss (done ++ current ∷ []) s hs
    ∙ ap loaded (append_assoc (done ++ current ∷ []) (s ∷ []) ss)

-- What `SaveAs` writes for a configuration that a file can hold, `Load` reads back as the same sections
-- and items, in order, with their comments: the section without a name first, without comments of its
-- own, then sections under names of their own, with no comment on the right of the name; keys, values,
-- names and the comments on the right of items without white space at the ends and without line ends; keys,
-- values and names without "#"; keys without "=" and not starting with "["; names not empty and without "]";
-- comments above made of whole lines, each empty or starting with "#" and without white space at its ends.
pub load-save_text :
    (items : List IniItem) (ss : List IniSection)
    → ArePlainItems items
    → ArePlainSections (new_section [] items ∷ []) ss
    → load sharp (some (save_text sharp (new_section [] items ∷ ss)))
      ≡ loaded (new_section [] items ∷ ss)
unfolding load save_text section_text right_text
load-save_text items ss h hs =
    load_items items (save_text sharp ss) [] (new_section [] []) h
    ∙ load_sections ss [] (new_section [] items) hs
