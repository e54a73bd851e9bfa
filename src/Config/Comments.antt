-- ===== src/Config/Comments.antt =====
-- `GetComment` and `SetComment` of src/Get_Inifiles.cpp: the comment of a key, or with no key that of the
-- section. `GetRightComment` and `SetRightComment` do the same to the comments on the right.
use imachine_hb_f.Checksum.{Bytes}
use imachine_hb_f.Config.{IniItem, IniSection, get_section}
use imachine_hb_f.Prelude.{
  ◌≡◌, refl, inl, inr, Bool-cases, Option, none, some, List, [], ◌∷◌, if◌then◌else◌,
}
use imachine_hb_f.Strings.{str_eq}

pub data FoundComment : Type 0 where
  section_missing key_missing : FoundComment
  comment_is : Bytes → FoundComment

unfoldable pub comment_of : Bytes → List IniItem → FoundComment
comment_of key [] = key_missing
comment_of key (i ∷ is) = if str_eq i.key key then comment_is i.comment else comment_of key is

abbrev pub comment_in : Bytes → Option IniSection → FoundComment
comment_in key none = section_missing
comment_in key (some s) = if str_eq key [] then comment_is s.comment else comment_of key s.items

unfoldable pub get_comment : Bytes → Bytes → List IniSection → FoundComment
unfolding comment_of
get_comment section key file = comment_in key (get_section section file)

-- The first item of this key.
unfoldable pub put_comment : Bytes → Bytes → List IniItem → List IniItem
put_comment key comment [] = []
put_comment key comment (i ∷ is) =
    if str_eq i.key key then record i { comment = comment } ∷ is else i ∷ put_comment key comment is

abbrev pub commented_section : Bytes → Bytes → IniSection → IniSection
commented_section key comment s =
    if str_eq key []
    then record s { comment = comment }
    else record s { items = put_comment key comment s.items }

-- The first section of this name; without one, or without the key, nothing changes.
unfoldable pub set_comment : Bytes → Bytes → Bytes → List IniSection → List IniSection
unfolding put_comment
set_comment section key comment [] = []
set_comment section key comment (s ∷ ss) =
    if str_eq s.name section
    then commented_section key comment s ∷ ss
    else s ∷ set_comment section key comment ss

-- What is found after a change: the new comment, where there was one before.
abbrev pub replaced : Bytes → FoundComment → FoundComment
replaced comment section_missing = section_missing
replaced comment key_missing = key_missing
replaced comment (comment_is c) = comment_is comment

comment_of-put_comment :
    (key comment : Bytes) (is : List IniItem)
    → comment_of key (put_comment key comment is) ≡ replaced comment (comment_of key is)
unfolding comment_of put_comment
comment_of-put_comment key comment [] = refl
comment_of-put_comment key comment (i ∷ is) = elim (Bool-cases (str_eq i.key key)) [
  | inl e ↦ rw e (rw e refl)
  | inr e ↦ rw e (rw e (comment_of-put_comment key comment is))
]

-- GetComment after SetComment finds the new comment, and the same error as before where there was one.
pub get_comment-set_comment :
    (section key comment : Bytes) (file : List IniSection)
    → get_comment section key (set_comment section key comment file)
      ≡ replaced comment (get_comment section key file)
unfolding get_comment set_comment get_section
get_comment-set_comment section key comment [] = refl
get_comment-set_comment section key comment (s ∷ ss) = elim (Bool-cases (str_eq s.name section)) [
  | inl e ↦ elim (Bool-cases (str_eq key [])) [
    | inl k ↦ rw (e, k) (rw e (rw k refl))
    | inr k ↦ rw (e, k) (rw e (rw k (comment_of-put_comment key comment s.items)))
  ]
  | inr e ↦ rw e (rw e (get_comment-set_comment section key comment ss))
]
