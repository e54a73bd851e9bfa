-- ===== src/Config/RightComments.antt =====
-- `GetRightComment` and `SetRightComment` of src/Get_Inifiles.cpp. They are the two for comments on a
-- configuration whose comments and comments on the right are exchanged.
use imachine_hb_f.Checksum.{Bytes}
use imachine_hb_f.Config.{IniItem, IniSection, get_section}
use imachine_hb_f.Config.Comments.{
  FoundComment, section_missing, key_missing, comment_is, comment_of, get_comment, put_comment,
  set_comment, replaced, get_comment-set_comment,
}
use imachine_hb_f.Prelude.{
  ◌≡◌, refl, sym, ap, ◌∙◌, inl, inr, Bool-cases, Option, none, some, List, [], ◌∷◌, map,
  if◌then◌else◌,
}
use imachine_hb_f.Strings.{str_eq}

unfoldable pub right_comment_of : Bytes → List IniItem → FoundComment
right_comment_of key [] = key_missing
right_comment_of key (i ∷ is) =
    if str_eq i.key key then comment_is i.right_comment else right_comment_of key is

abbrev pub right_comment_in : Bytes → Option IniSection → FoundComment
right_comment_in key none = section_missing
right_comment_in key (some s) =
    if str_eq key [] then comment_is s.right_comment else right_comment_of key s.items

unfoldable pub get_right_comment : Bytes → Bytes → List IniSection → FoundComment
unfolding right_comment_of
get_right_comment section key file = right_comment_in key (get_section section file)

-- The first item of this key.
unfoldable pub put_right_comment : Bytes → Bytes → List IniItem → List IniItem
put_right_comment key text [] = []
put_right_comment key text (i ∷ is) =
    if str_eq i.key key
    then record i { right_comment = text } ∷ is
    else i ∷ put_right_comment key text is

abbrev pub right_commented : Bytes → Bytes → IniSection → IniSection
right_commented key text s =
    if str_eq key []
    then record s { right_comment = text }
    else record s { items = put_right_comment key text s.items }

-- The first section of this name; without one, or without the key, nothing changes.
unfoldable pub set_right_comment : Bytes → Bytes → Bytes → List IniSection → List IniSection
unfolding put_right_comment
set_right_comment section key text [] = []
set_right_comment section key text (s ∷ ss) =
    if str_eq s.name section
    then right_commented key text s ∷ ss
    else s ∷ set_right_comment section key text ss

-- The two comments exchanged.
abbrev pub turned_item : IniItem → IniItem
turned_item i = record i { comment = i.right_comment; right_comment = i.comment }

abbrev pub turned : IniSection → IniSection
turned s = record s {
  comment = s.right_comment;
  right_comment = s.comment;
  items = map turned_item s.items;
}

right_comment_of-turned :
    (key : Bytes) (is : List IniItem)
    → right_comment_of key is ≡ comment_of key (map turned_item is)
unfolding right_comment_of comment_of
right_comment_of-turned key [] = refl
right_comment_of-turned key (i ∷ is) = elim (Bool-cases (str_eq i.key key)) [
  | inl e ↦ rw e refl
  | inr e ↦ rw e (right_comment_of-turned key is)
]

get_right_comment-turned :
    (section key : Bytes) (file : List IniSection)
    → get_right_comment section key file ≡ get_comment section key (map turned file)
unfolding get_right_comment get_comment get_section
get_right_comment-turned section key [] = refl
get_right_comment-turned section key (s ∷ ss) = elim (Bool-cases (str_eq s.name section)) [
  | inl e ↦ elim (Bool-cases (str_eq key [])) [
    | inl k ↦ rw (e, k) refl
    | inr k ↦ rw (e, k) (right_comment_of-turned key s.items)
  ]
  | inr e ↦ rw e (get_right_comment-turned section key ss)
]

put_right_comment-turned :
    (key text : Bytes) (is : List IniItem)
    → map turned_item (put_right_comment key text is) ≡ put_comment key text (map turned_item is)
unfolding put_right_comment put_comment
put_right_comment-turned key text [] = refl
put_right_comment-turned key text (i ∷ is) = elim (Bool-cases (str_eq i.key key)) [
  | inl e ↦ rw e refl
  | inr e ↦
      rw e (ap (λ (t : List IniItem). turned_item i ∷ t) (put_right_comment-turned key text is))
]

set_right_comment-turned :
    (section key text : Bytes) (file : List IniSection)
    → map turned (set_right_comment section key text file)
      ≡ set_comment section key text (map turned file)
unfolding set_right_comment set_comment
set_right_comment-turned section key text [] = refl
set_right_comment-turned section key text (s ∷ ss) = elim (Bool-cases (str_eq s.name section)) [
  | inl e ↦ elim (Bool-cases (str_eq key [])) [
    | inl k ↦ rw (e, k) refl
    | inr k ↦
        rw (e, k)
          (ap (λ (t : List IniItem). record (turned s) { items = t } ∷ map turned ss)
            (put_right_comment-turned key text s.items))
  ]
  | inr e ↦
      rw e
        (ap (λ (t : List IniSection). turned s ∷ t) (set_right_comment-turned section key text ss))
]

-- GetRightComment after SetRightComment finds the new comment, and the same error as before where there
-- was one.
pub get_right_comment-set_right_comment :
    (section key text : Bytes) (file : List IniSection)
    → get_right_comment section key (set_right_comment section key text file)
      ≡ replaced text (get_right_comment section key file)
get_right_comment-set_right_comment section key text file =
    get_right_comment-turned section key (set_right_comment section key text file)
    ∙ ap (get_comment section key) (set_right_comment-turned section key text file)
    ∙ get_comment-set_comment section key text (map turned file)
    ∙ ap (replaced text) (sym (get_right_comment-turned section key file))
