-- ===== src/Config/Saved.antt =====
-- `Load` of src/Get_Inifiles.cpp on the text that `SaveAs` writes for the items of a section.
use imachine_hb_f.Checksum.{Bytes}
use imachine_hb_f.Config.{IniItem, IniSection}
use imachine_hb_f.Config.Items.{line_text, load_line, not_empty}
use imachine_hb_f.Config.Lines.{Free, Free-append, lines-append}
use imachine_hb_f.Config.Load.{
  Loader, reads, load_trimmed, load_lines, ends_line, with_newline, right_text, item_text,
  items_text, push_item,
}
use imachine_hb_f.Config.Plain.{
  sharp, IsPlainItem, ArePlainItems, unlines, load_lines-comment, cons_not_empty,
}
use imachine_hb_f.Config.Text.{trim, newline, lines}
use imachine_hb_f.Prelude.{
  ℕ, ◌≡◌, refl, sym, ap, ◌∙◌, true, false, List, [], ◌∷◌, ◌++◌, append_assoc, append-nil, length,
  arith, ◌==◌, if◌then◌else◌,
}

ends_line-Free : (s : Bytes) → Free newline s → ends_line s ≡ false
unfolding ends_line
ends_line-Free [] h = refl
ends_line-Free (c ∷ []) h = ground (arith, h.0)
ends_line-Free (c ∷ d ∷ s) h = ends_line-Free (d ∷ s) h.1

with_newline-Free : (s : Bytes) → Free newline s → with_newline s ≡ s ++ newline ∷ []
unfolding with_newline
with_newline-Free s h = rw (ends_line-Free s h, with_newline) refl

ends_line-append : (s t : Bytes) (d : ℕ) → ends_line (s ++ d ∷ t) ≡ ends_line (d ∷ t)
unfolding ends_line
ends_line-append [] t d = refl
ends_line-append (c ∷ []) t d = refl
ends_line-append (c ∷ e ∷ s) t d = ends_line-append (e ∷ s) t d

ends_line-unlines : (r : Bytes) (rows : List Bytes) → ends_line (unlines (r ∷ rows)) ≡ true
unfolding ends_line
ends_line-unlines r [] = ends_line-append r [] newline
ends_line-unlines r (q ∷ rows) =
    ends_line-append r (unlines (q ∷ rows)) newline
    ∙ skip (unlines (q ∷ rows)) (unlines_cons q rows)
    ∙ ends_line-unlines q rows
  where
    unlines_cons : (q : Bytes) (rows : List Bytes) → (length (unlines (q ∷ rows)) == 0) ≡ false
    unlines_cons q rows = not_empty q (unlines rows) newline

    skip : (s : Bytes) → (length s == 0) ≡ false → ends_line (newline ∷ s) ≡ ends_line s
    skip [] h = ground (arith, h)
    skip (c ∷ s) h = refl

comment_rows :
    (rows : List Bytes)
    → (if length (unlines rows) == 0 then [] else with_newline (unlines rows)) ≡ unlines rows
unfolding with_newline
comment_rows [] = refl
comment_rows (r ∷ rows) =
    rw (not_empty r (unlines rows) newline) (rw (ends_line-unlines r rows, with_newline) refl)

right-Free : (right : Bytes) → Free newline right → Free newline (right_text sharp right)
unfolding right_text
right-Free [] h = tt
right-Free (c ∷ right) h = rw (cons_not_empty c right, right_text) (omega arith, (omega arith, h))

line-Free : (i : IniItem) → IsPlainItem i → Free newline (line_text i)
line-Free i h =
    Free-append newline i.key (0x3D ∷ (i.value ++ right_text sharp i.right_comment)) h.key_line (
      omega arith,
      Free-append newline i.value (right_text sharp i.right_comment) h.value_line
          (right-Free i.right_comment h.right_line),
    )

-- The text of an item: the rows of its comment, and one line.
item_text-rows :
    (i : IniItem) (h : IsPlainItem i)
    → item_text sharp i ≡ unlines h.comment.rows ++ (line_text i ++ newline ∷ [])
unfolding item_text
item_text-rows i h =
    rw h.comment.text
      (rw (comment_rows h.comment.rows, with_newline-Free (line_text i) (line-Free i h)) refl)

pub load_lines-step :
    (line rest : Bytes) (l after : Loader)
    → Free newline line
    → load_trimmed sharp (trim line) l ≡ reads after
    → load_lines sharp (lines (line ++ newline ∷ rest)) l ≡ load_lines sharp (lines rest) after
unfolding load_lines
load_lines-step line rest l after h k =
    ap (λ (t : List Bytes). load_lines sharp t l) (lines-append line rest h)
    ∙ rw (k, load_lines) refl

-- The locals of `Load` behind a line with a value.
abbrev pub at : List IniSection → IniSection → Loader
at done current = record { done = done; current = current; comment = [] }

abbrev pub with_items : IniSection → List IniItem → IniSection
with_items s is = record s { items = s.items ++ is }

load_item :
    (i : IniItem) (rest : Bytes) (done : List IniSection) (s : IniSection)
    → IsPlainItem i
    → load_lines sharp (lines (item_text sharp i ++ rest)) (at done s)
      ≡ load_lines sharp (lines rest) (at done (with_items s (i ∷ [])))
unfolding push_item
load_item i rest done s h =
    let c : Loader = record { done = done; current = s; comment = unlines h.comment.rows } in
    ap (λ (t : Bytes). load_lines sharp (lines t) (at done s))
      (ap (λ (t : Bytes). t ++ rest) (item_text-rows i h)
        ∙ append_assoc (unlines h.comment.rows) (line_text i ++ newline ∷ []) rest)
    ∙ load_lines-comment h.comment.rows ((line_text i ++ newline ∷ []) ++ rest) (at done s)
        h.comment.are
    ∙ ap (λ (t : Bytes). load_lines sharp (lines t) c)
        (append_assoc (line_text i) (newline ∷ []) rest)
    ∙ load_lines-step (line_text i) rest c (push_item (record i { comment = c.comment }) c)
        (line-Free i h) (load_line i c h)
    ∙ ap
        (λ (x : Bytes).
          load_lines sharp (lines rest) (
            push_item (record i { comment = x })
              (record { done = done; current = s; comment = x })))
        (sym h.comment.text)

pub load_items :
    (is : List IniItem) (rest : Bytes) (done : List IniSection) (s : IniSection)
    → ArePlainItems is
    → load_lines sharp (lines (items_text sharp is ++ rest)) (at done s)
      ≡ load_lines sharp (lines rest) (at done (with_items s is))
unfolding items_text
load_items [] rest done s h =
    ap (λ (is : List IniItem). load_lines sharp (lines rest) (at done (record s { items = is })))
      (sym (append-nil s.items))
load_items (i ∷ is) rest done s (h, hs) =
    ap (λ (t : Bytes). load_lines sharp (lines t) (at done s))
      (append_assoc (item_text sharp i) (items_text sharp is) rest)
    ∙ load_item i (items_text sharp is ++ rest) done s h
    ∙ load_items is rest done (with_items s (i ∷ [])) hs
    ∙ ap (λ (xs : List IniItem). load_lines sharp (lines rest) (at done (record s { items = xs })))
        (append_assoc s.items (i ∷ []) is)
