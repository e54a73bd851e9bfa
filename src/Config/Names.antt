-- ===== src/Config/Names.antt =====
-- The names of the sections that `Load` of src/Get_Inifiles.cpp leaves in memory.
use imachine_hb_f.Checksum.{Bytes, byte}
use imachine_hb_f.Config.{IniItem, IniSection, has_section, get_section, get_sections}
use imachine_hb_f.Config.Load.{
  Loader, Read, sections, failed, left_by, reads, fails, load_trimmed, load_lines, load,
  first_loader, add_key_value_pair, update_section, find_bracket, push_item, push_section,
}
use imachine_hb_f.Config.Text.{start_with, Parts, split, lines, trim}
use imachine_hb_f.Prelude.{
  ◌-◌, ◌≡◌, refl, sym, ap, ◌∙◌, inl, inr, false, Bool-cases, Option-cases, Option, none, some, List,
  [], ◌∷◌, ◌++◌, length, ◌==◌, take, drop,
}
use imachine_hb_f.Strings.{str_eq, str_eq_sound, str_eq_refl}

abbrev pub AllOther : Bytes → List Bytes → Type 0
AllOther name [] = Unit
AllOther name (n ∷ ns) = (str_eq n name ≡ false) × AllOther name ns

-- No name stands twice.
abbrev pub AreDistinct : List Bytes → Type 0
AreDistinct [] = Unit
AreDistinct (n ∷ ns) = AllOther n ns × AreDistinct ns

str_eq_sym : (s t : Bytes) → str_eq s t ≡ false → str_eq t s ≡ false
str_eq_sym s t h = elim (Bool-cases (str_eq t s)) [
  | inl e ↦ let p = str_eq_refl s in let q = str_eq_sound t s e in cc
  | inr e ↦ e
]

AllOther-append :
    (name n : Bytes) (ns : List Bytes)
    → AllOther name ns
    → str_eq n name ≡ false
    → AllOther name (ns ++ n ∷ [])
AllOther-append name n [] h k = (k, tt)
AllOther-append name n (m ∷ ns) h k = (h.0, AllOther-append name n ns h.1 k)

AreDistinct-append :
    (n : Bytes) (ns : List Bytes) → AreDistinct ns → AllOther n ns → AreDistinct (ns ++ n ∷ [])
AreDistinct-append n [] h k = (tt, tt)
AreDistinct-append n (m ∷ ns) h k =
    (AllOther-append m n ns h.0 (str_eq_sym m n k.0), AreDistinct-append n ns h.1 k.1)

has_section-AllOther :
    (name : Bytes) (file : List IniSection)
    → has_section name file ≡ false
    → AllOther name (get_sections file)
unfolding has_section get_section get_sections
has_section-AllOther name [] h = tt
has_section-AllOther name (s ∷ ss) h = elim (Bool-cases (str_eq s.name name)) [
  | inl e ↦ let g = (rw (e, has_section) at h) in cc
  | inr e ↦ (e, has_section-AllOther name ss (rw (e, has_section) at h))
]

get_sections-append :
    (done : List IniSection) (s : IniSection)
    → get_sections (done ++ s ∷ []) ≡ get_sections done ++ s.name ∷ []
unfolding get_sections
get_sections-append [] s = refl
get_sections-append (t ∷ done) s =
    ap (λ (ns : List Bytes). t.name ∷ ns) (get_sections-append done s)

abbrev AfterRead : Read → Type 0
AfterRead (reads l) = AreDistinct (get_sections (sections l))
AfterRead (fails e) = Unit

push_item-sections :
    (i : IniItem) (l : Loader) → get_sections (sections (push_item i l)) ≡ get_sections (sections l)
unfolding push_item
push_item-sections i l =
    get_sections-append l.done (record l.current { items = l.current.items ++ i ∷ [] })
    ∙ sym (get_sections-append l.done l.current)

push_section-AfterRead :
    (name comment right_comment : Bytes) (l : Loader)
    → AreDistinct (get_sections (sections l))
    → AfterRead (push_section name comment right_comment l)
unfolding push_section
push_section-AfterRead name comment right_comment l h =
    let s : IniSection = record {
      name = name;
      comment = comment;
      right_comment = right_comment;
      items = [];
    } in
    elim (Bool-cases (has_section name (sections l))) [
      | inl e ↦ rw (e, push_section) tt
      | inr e ↦
          rw (e, push_section)
            (rw (get_sections-append (sections l) s) (
              AreDistinct-append name (get_sections (sections l)) h
                (has_section-AllOther name (sections l) e)))
    ]

update_section-AfterRead :
    (clean right_comment : Bytes) (l : Loader)
    → AreDistinct (get_sections (sections l))
    → AfterRead (update_section clean right_comment l)
unfolding update_section
update_section-AfterRead clean right_comment l h = elim (Option-cases (find_bracket clean)) [
  | inl e ↦ rw (e, update_section) tt
  | inr (index, e) ↦ elim (Bool-cases (index - 1 == 0)) [
    | inl f ↦ rw (e, update_section) (rw f tt)
    | inr f ↦
        rw (e, update_section)
          (rw f (
            push_section-AfterRead (trim (take (index - 1) (drop 1 clean))) l.comment right_comment
              l h))
  ]
]

add_key_value_pair-AfterRead :
    (clean right_comment : Bytes) (l : Loader)
    → AreDistinct (get_sections (sections l))
    → AfterRead (add_key_value_pair clean right_comment l)
unfolding add_key_value_pair
add_key_value_pair-AfterRead clean right_comment l h =
    let parts : Parts = split clean (0x3D ∷ []) in
    let item : IniItem = record {
      key = parts.left;
      value = parts.right;
      comment = l.comment;
      right_comment = right_comment;
    } in
    elim (Bool-cases parts.both) [
      | inl e ↦ rw (e, add_key_value_pair) (rw (push_item-sections item l) h)
      | inr e ↦ rw (e, add_key_value_pair) tt
    ]

load_trimmed-AfterRead :
    (delimiter line : Bytes) (l : Loader)
    → AreDistinct (get_sections (sections l))
    → AfterRead (load_trimmed delimiter line l)
unfolding load_trimmed
load_trimmed-AfterRead delimiter line l h =
    let parts : Parts = split line delimiter in
    elim (Bool-cases (length line == 0)) [
      | inl e ↦ rw (e, load_trimmed) h
      | inr e ↦ elim (Bool-cases (start_with line delimiter)) [
        | inl f ↦ rw (e, f, load_trimmed) h
        | inr f ↦ elim (Bool-cases (byte parts.left 0 == 0x5B)) [
          | inl g ↦ rw (e, f, g, load_trimmed) (update_section-AfterRead parts.left parts.right l h)
          | inr g ↦
              rw (e, f, g, load_trimmed) (add_key_value_pair-AfterRead parts.left parts.right l h)
        ]
      ]
    ]

load_lines-AreDistinct :
    (delimiter : Bytes) (rows : List Bytes) (l : Loader)
    → AreDistinct (get_sections (sections l))
    → AreDistinct (get_sections (left_by (load_lines delimiter rows l)))
unfolding load_lines
load_lines-AreDistinct delimiter [] l h = h
load_lines-AreDistinct delimiter (line ∷ more) l h =
    step (λ l'. load_lines-AreDistinct delimiter more l') (load_trimmed delimiter (trim line) l)
      (load_trimmed-AfterRead delimiter (trim line) l h)
  where
    step :
        ((l' : Loader)
          → AreDistinct (get_sections (sections l'))
          → AreDistinct (get_sections (left_by (load_lines delimiter more l'))))
        → (r : Read) → AfterRead r
        → AreDistinct (
            get_sections (
              left_by (elim r [
                | reads l' ↦ load_lines delimiter more l'
                | fails e ↦ failed e (sections l)
              ])))
    step later (reads l') k = later l' k
    step later (fails e) k = h

-- Whatever the file holds, and whether it can be read to the end, to an error or not at all, no two
-- sections that `Load` leaves in memory have the same name.
pub load-AreDistinct :
    (delimiter : Bytes) (file : Option Bytes)
    → AreDistinct (get_sections (left_by (load delimiter file)))
unfolding load get_sections
load-AreDistinct delimiter none = tt
load-AreDistinct delimiter (some text) =
    load_lines-AreDistinct delimiter (lines text) first_loader (tt, tt)
