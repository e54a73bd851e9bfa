-- ===== src/Config/Plain.antt =====
-- Configurations that a text file can hold, for `Load` and `SaveAs` of src/Get_Inifiles.cpp with the
-- delimiter "#", and what `Load` does with the lines of one.
use imachine_hb_f.Checksum.{Bytes, byte}
use imachine_hb_f.Config.{IniItem, IniSection, has_section}
use imachine_hb_f.Config.Lines.{Free, Trimmed, lines-append, trim-Trimmed}
use imachine_hb_f.Config.Load.{Loader, reads, load_trimmed, load_lines}
use imachine_hb_f.Config.Text.{trim, start_with, newline, lines}
use imachine_hb_f.Prelude.{
  ℕ, ◌≡◌, ◌≢◌, refl, ap, ◌∙◌, ◌⊎◌, inl, inr, true, false, List, [], ◌∷◌, ◌++◌, append_assoc,
  cons≢nil, append-nil, length, arith, ◌==◌,
}

abbrev pub sharp : Bytes
sharp = 0x23 ∷ []

-- A line that `Load` takes for a comment: an empty one, or one that starts with the delimiter.
pub record IsCommentLine (line : Bytes) : Type 0 where
  pub trimmed : Trimmed line
  pub one_line : Free newline line
  pub kind : (line ≡ []) ⊎ (start_with line sharp ≡ true)

abbrev pub AreCommentLines : List Bytes → Type 0
AreCommentLines [] = Unit
AreCommentLines (l ∷ ls) = IsCommentLine l × AreCommentLines ls

abbrev pub unlines : List Bytes → Bytes
unlines [] = []
unlines (l ∷ ls) = l ++ newline ∷ unlines ls

-- A comment as `Load` collects it: whole lines.
pub record IsComment (comment : Bytes) : Type 0 where
  pub rows : List Bytes
  pub are : AreCommentLines rows
  pub text : comment ≡ unlines rows

pub record IsPlainItem (i : IniItem) : Type 0 where
  pub comment : IsComment i.comment
  pub key : Trimmed i.key
  pub key_line : Free newline i.key
  pub key_equals : Free 0x3D i.key
  pub key_sharp : Free 0x23 i.key
  pub key_bracket : byte i.key 0 ≢ 0x5B
  pub value : Trimmed i.value
  pub value_line : Free newline i.value
  pub value_sharp : Free 0x23 i.value
  pub right : Trimmed i.right_comment
  pub right_line : Free newline i.right_comment

abbrev pub ArePlainItems : List IniItem → Type 0
ArePlainItems [] = Unit
ArePlainItems (i ∷ is) = IsPlainItem i × ArePlainItems is

-- A section with a name. It has no comment on the right of the name: `SaveAs` writes that comment on
-- the line of the first item.
pub record IsPlainSection (s : IniSection) : Type 0 where
  pub comment : IsComment s.comment
  pub right : s.right_comment ≡ []
  pub named : s.name ≢ []
  pub name : Trimmed s.name
  pub name_line : Free newline s.name
  pub name_bracket : Free 0x5D s.name
  pub name_sharp : Free 0x23 s.name
  pub items : ArePlainItems s.items

-- Sections that follow those in `done`, each under a name of its own.
abbrev pub ArePlainSections : List IniSection → List IniSection → Type 0
ArePlainSections done [] = Unit
ArePlainSections done (s ∷ ss) =
    IsPlainSection s × (has_section s.name done ≡ false) × ArePlainSections (done ++ s ∷ []) ss

pub cons_not_empty : (c : ℕ) (r : Bytes) → (length (c ∷ r) == 0) ≡ false
cons_not_empty c r = ground arith

-- The step of `Load` over a line that it takes for a comment.
pub load_trimmed-comment :
    (r : Bytes) (l : Loader)
    → IsCommentLine r
    → load_trimmed sharp (trim r) l
      ≡ reads (record l { comment = l.comment ++ (r ++ newline ∷ []) })
unfolding load_trimmed
load_trimmed-comment [] l h = rw (trim-Trimmed [] h.trimmed) refl
load_trimmed-comment (c ∷ r) l h =
    let e : (length (c ∷ r) == 0) ≡ false = cons_not_empty c r in
    rw (trim-Trimmed (c ∷ r) h.trimmed, load_trimmed)
      (rw (e, load_trimmed) (elim h.kind [ inl k ↦ absurd (cons≢nil k) | inr k ↦ rw k refl ]))

-- Comment lines are collected.
pub load_lines-comment :
    (rows : List Bytes) (rest : Bytes) (l : Loader)
    → AreCommentLines rows
    → load_lines sharp (lines (unlines rows ++ rest)) l
      ≡ load_lines sharp (lines rest) (record l { comment = l.comment ++ unlines rows })
unfolding load_lines
load_lines-comment [] rest l h = rw (append-nil l.comment) refl
load_lines-comment (r ∷ rows) rest l (h, hs) =
    let after : Loader = record l { comment = l.comment ++ (r ++ newline ∷ []) } in
    ap (λ (t : Bytes). load_lines sharp (lines t) l) (append_assoc r (newline ∷ unlines rows) rest)
    ∙ ap (λ (t : List Bytes). load_lines sharp t l)
        (lines-append r (unlines rows ++ rest) h.one_line)
    ∙ rw (load_trimmed-comment r l h, load_lines) refl
    ∙ load_lines-comment rows rest after hs
    ∙ ap (λ (c : Bytes). load_lines sharp (lines rest) (record l { comment = c }))
        (append_assoc l.comment (r ++ newline ∷ []) (unlines rows)
          ∙ ap (λ (c : Bytes). l.comment ++ c) (append_assoc r (newline ∷ []) (unlines rows)))
