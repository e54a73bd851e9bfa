-- ===== src/Config/Lookup.antt =====
-- What `getValue` finds after `setValue`, in src/Get_Inifiles.cpp.
use imachine_hb_f.Checksum.{Bytes}
use imachine_hb_f.Config.{
  IniItem, IniSection, Found, not_found_section, not_found_key, found, get_section, find_item,
  get_value, has_section, commented, put_item, new_section, put_in, add_section, set_value,
}
use imachine_hb_f.Prelude.{
  ◌≡◌, refl, sym, ap, ◌∙◌, inl, inr, true, false, Bool-cases, Option-cases, none, some, List, [],
  ◌∷◌, ◌++◌, if◌then◌else◌,
}
use imachine_hb_f.Strings.{str_eq, str_eq_sound}

-- Two strings that are not the same do not both equal a third.
apart : (a b c : Bytes) → str_eq a b ≡ false → str_eq b c ≡ true → str_eq a c ≡ false
apart a b c p q = rw (← str_eq_sound b c q) p

apart_left : (a b c : Bytes) → str_eq a c ≡ true → str_eq a b ≡ false → str_eq b c ≡ false
apart_left a b c p q = elim (Bool-cases (str_eq b c)) [
  | inl e ↦ let d = apart a b c q e in cc
  | inr e ↦ e
]

find_item-put_item :
    (key key' value comt : Bytes) (is : List IniItem)
    → find_item key' (put_item key value comt is)
      ≡ (if str_eq key key' then found value comt else find_item key' is)
unfolding find_item put_item
find_item-put_item key key' value comt [] = refl
find_item-put_item key key' value comt (i ∷ is) = elim (Bool-cases (str_eq i.key key)) [
  | inl e ↦
      let same : str_eq i.key key' ≡ str_eq key key' =
        ap (λ (t : Bytes). str_eq t key') (str_eq_sound i.key key e) in
      elim (Bool-cases (str_eq key key')) [
        | inl f ↦ rw (e, same, f) refl
        | inr f ↦ rw (e, same, f) refl
      ]
  | inr e ↦ elim (Bool-cases (str_eq key key')) [
    | inl f ↦ rw (e, apart i.key key key' e f, find_item-put_item key key' value comt is, f) refl
    | inr f ↦ rw (e, find_item-put_item key key' value comt is, f) refl
  ]
]

-- A section that was looked for is there.
abbrev pub opened : Found → Found
opened not_found_section = not_found_key
opened not_found_key = not_found_key
opened (found value comment) = found value comment

opened-find_item : (key : Bytes) (is : List IniItem) → opened (find_item key is) ≡ find_item key is
unfolding find_item
opened-find_item key [] = refl
opened-find_item key (i ∷ is) = elim (Bool-cases (str_eq i.key key)) [
  | inl e ↦ rw e refl
  | inr e ↦ rw e (opened-find_item key is)
]

-- What a look-up gives after a store in the section: `old` is what it gave before.
abbrev pub after_store : Bytes → Bytes → Bytes → Bytes → Bytes → Bytes → Found → Found
after_store section key value comt section' key' old =
    if str_eq section section'
    then (if str_eq key key' then found value comt else opened old)
    else old

put_item-after_store :
    (key key' value comt : Bytes) (is : List IniItem)
    → find_item key' (put_item key value comt is)
      ≡ (if str_eq key key' then found value comt else opened (find_item key' is))
put_item-after_store key key' value comt is =
    find_item-put_item key key' value comt is
    ∙ ap (λ (t : Found). if str_eq key key' then found value comt else t)
        (sym (opened-find_item key' is))

get_value-put_in :
    (section key value comt section' key' : Bytes) (file : List IniSection)
    → has_section section file ≡ true
    → get_value section' key' (put_in section key value comt file)
      ≡ after_store section key value comt section' key' (get_value section' key' file)
unfolding has_section get_value get_section put_in
get_value-put_in section key value comt section' key' [] h = cc
get_value-put_in section key value comt section' key' (s ∷ ss) h =
    elim (Bool-cases (str_eq s.name section)) [
      | inl e ↦
          let same : str_eq s.name section' ≡ str_eq section section' =
            ap (λ (t : Bytes). str_eq t section') (str_eq_sound s.name section e) in
          elim (Bool-cases (str_eq section section')) [
            | inl f ↦ rw (e, same, f) (put_item-after_store key key' value comt s.items)
            | inr f ↦ rw (e, same, f) refl
          ]
      | inr e ↦
          let rest =
            get_value-put_in section key value comt section' key' ss (rw (e, has_section) at h) in
          elim (Bool-cases (str_eq s.name section')) [
            | inl g ↦
                let f : str_eq section section' ≡ false = apart_left s.name section section' g e in
                rw (e, g, f) refl
            | inr g ↦ rw (e, g) rest
          ]
    ]

get_section-append :
    (section : Bytes) (file : List IniSection) (s : IniSection)
    → get_section section (file ++ s ∷ []) ≡ elim (get_section section file) [
      | none ↦ if str_eq s.name section then some s else none
      | some t ↦ some t
    ]
unfolding get_section
get_section-append section [] s = refl
get_section-append section (t ∷ ts) s = elim (Bool-cases (str_eq t.name section)) [
  | inl e ↦ rw (e, get_section) refl
  | inr e ↦ rw (e, get_section) (get_section-append section ts s)
]

get_value-add_section :
    (section key value comt section' key' : Bytes) (file : List IniSection)
    → get_section section file ≡ none
    → get_value section' key' (add_section (new_section section (put_item key value comt [])) file)
      ≡ after_store section key value comt section' key' (get_value section' key' file)
unfolding get_value get_section find_item
get_value-add_section section key value comt section' key' file h =
    let n : IniSection = new_section section (put_item key value comt []) in
    let first = put_item-after_store key key' value comt [] in
    elim (Bool-cases (str_eq section section')) [
      | inl f ↦
          let g : get_section section' file ≡ none = rw (← str_eq_sound section section' f) h in
          elim (Bool-cases (str_eq section [])) [
            | inl e ↦ rw (e, f, g) first
            | inr e ↦ rw (e, get_section-append section' file n, g, f) first
          ]
      | inr f ↦ elim (Bool-cases (str_eq section [])) [
        | inl e ↦ rw (e, f) refl
        | inr e ↦ elim (Option-cases (get_section section' file)) [
          | inl q ↦ rw (e, get_section-append section' file n, q, f) refl
          | inr (t, q) ↦ rw (e, get_section-append section' file n, q, f) refl
        ]
      ]
    ]

-- A look-up after `setValue` gives the new value, with the comment behind its delimiter, for the key
-- that was set, and what it gave before for any other key or section; but the section that was set
-- is there afterwards, so a missing key of it is a missing key.
pub get_value-set_value :
    (delimiter section key value comment section' key' : Bytes) (file : List IniSection)
    → get_value section' key' (set_value delimiter section key value comment file)
      ≡ after_store section key value
          (commented delimiter comment)
          section'
          key'
          (get_value section' key' file)
unfolding set_value has_section
get_value-set_value delimiter section key value comment section' key' file =
    elim (Option-cases (get_section section file)) [
      | inl e ↦
          rw (e, has_section)
            (get_value-add_section section key value (commented delimiter comment) section' key'
              file e)
      | inr (s, e) ↦
          rw (e, has_section)
            (get_value-put_in section key value (commented delimiter comment) section' key' file
              (rw (e, has_section) refl))
    ]
