-- ===== src/Tests/Config.antt =====
-- The configuration with one section and two keys.
use imachine_hb_f.Checksum.{Bytes}
use imachine_hb_f.Config.{
  IniItem, IniSection, new_section, has_section, get_sections, found, get_value, set_value,
  get_section, find_item, delete_key, get_string_value, commented,
}
use imachine_hb_f.Config.Numbers.{
  atoi, print_int, print_nat, print_digits, set_int_value, get_int_value-set_int_value,
}
use imachine_hb_f.Prelude.Int.{ℤ, pos, negsuc}
use imachine_hb_f.Startup.{get_int_value}
use imachine_hb_f.Config.Lookup.{get_value-set_value}
use imachine_hb_f.Config.Comments.{set_comment}
use imachine_hb_f.Config.Lines.{Trimmed}
use imachine_hb_f.Config.Load.{
  load, Loaded, LoadError, loaded, failed, parse_key_value_failed, left_by, save_text,
}
use imachine_hb_f.Config.Names.{AreDistinct, load-AreDistinct}
use imachine_hb_f.Config.Plain.{sharp, unlines, IsCommentLine, IsPlainItem, IsPlainSection}
use imachine_hb_f.Config.RoundTrip.{load-save_text}
use imachine_hb_f.Config.Strip.{strip_end}
use imachine_hb_f.Config.Text.{is_space, start_with, lines}
use imachine_hb_f.Strings.{str_eq}
use imachine_hb_f.Prelude.{
  ℕ, ◌≡◌, refl, inr, false, Option, none, some, List, [], ◌∷◌, cons≢nil, arith,
}

abbrev serial : Bytes
serial = 0x53 ∷ []

abbrev led : Bytes
led = 0x4C ∷ []

abbrev rate : Bytes
rate = 0x52 ∷ []

abbrev file : List IniSection
file =
    record {
      name = serial;
      comment = [];
      right_comment = [];
      items =
          record { key = led; value = 0x30 ∷ []; comment = []; right_comment = [] }
          ∷ record { key = rate; value = 0x31 ∷ []; comment = []; right_comment = [] }
          ∷ [];
    }
    ∷ []

get_value-set_value_example :
    get_value serial rate (set_value (0x23 ∷ []) serial rate (0x39 ∷ []) [] file)
    ≡ found (0x39 ∷ []) []
unfolding str_eq commented
get_value-set_value_example =
    get_value-set_value (0x23 ∷ []) serial rate (0x39 ∷ []) [] serial rate file

-- After the key is gone the default is given.
deleted : get_string_value serial led (0x37 ∷ []) (delete_key serial led file) ≡ 0x37 ∷ []
unfolding get_string_value get_value get_section find_item delete_key str_eq
deleted = refl

load-AreDistinct_example : AreDistinct (get_sections (left_by (load sharp (some serial))))
load-AreDistinct_example = load-AreDistinct sharp (some serial)

-- "#c" above the key R with the value 1 and "x" on its right
abbrev row : Bytes
row = 0x23 ∷ 0x63 ∷ []

row-IsCommentLine : IsCommentLine row
unfolding is_space strip_end start_with
row-IsCommentLine = record {
  trimmed = record { start = refl; end = refl };
  one_line = (omega arith, (omega arith, tt));
  kind = inr refl;
}

abbrev noted : IniItem
noted = record {
  key = rate;
  value = 0x31 ∷ [];
  comment = unlines (row ∷ []);
  right_comment = 0x78 ∷ [];
}

one-Trimmed : (c : ℕ) → is_space c ≡ false → Trimmed (c ∷ [])
unfolding strip_end
one-Trimmed c h = record { start = h; end = rw h refl }

noted-IsPlainItem : IsPlainItem noted
unfolding is_space
noted-IsPlainItem = record {
  comment = record { rows = row ∷ []; are = (row-IsCommentLine, tt); text = refl };
  key = one-Trimmed 0x52 refl;
  key_line = (omega arith, tt);
  key_equals = (omega arith, tt);
  key_sharp = (omega arith, tt);
  key_bracket = omega arith;
  value = one-Trimmed 0x31 refl;
  value_line = (omega arith, tt);
  value_sharp = (omega arith, tt);
  right = one-Trimmed 0x78 refl;
  right_line = (omega arith, tt);
}

abbrev plain : IniSection
plain = record { name = serial; comment = []; right_comment = []; items = noted ∷ [] }

plain-IsPlainSection : IsPlainSection plain
unfolding is_space
plain-IsPlainSection = record {
  comment = record { rows = []; are = tt; text = refl };
  right = refl;
  named = cons≢nil;
  name = one-Trimmed 0x53 refl;
  name_line = (omega arith, tt);
  name_bracket = (omega arith, tt);
  name_sharp = (omega arith, tt);
  items = (noted-IsPlainItem, tt);
}

load-save_text_example :
    load sharp (some (save_text sharp (new_section [] (noted ∷ []) ∷ plain ∷ [])))
    ≡ loaded (new_section [] (noted ∷ []) ∷ plain ∷ [])
unfolding has_section get_section str_eq
load-save_text_example =
    load-save_text (noted ∷ []) (plain ∷ []) (noted-IsPlainItem, tt)
      (plain-IsPlainSection, refl, tt)

-- A comment that `SetComment` stores without the delimiter makes the saved file unreadable.
abbrev failed_with : Loaded → Option LoadError
failed_with (loaded s) = none
failed_with (failed e s) = some e

unreadable :
    failed_with (load sharp (some (save_text sharp (set_comment serial rate (0x41 ∷ []) file))))
    ≡ some parse_key_value_failed
unfolding load save_text set_comment start_with str_eq is_space has_section get_section lines
unreadable = refl

abbrev minus_42 : ℤ
minus_42 = negsuc 41

printed : print_int minus_42 ≡ 0x2D ∷ 0x34 ∷ 0x32 ∷ []
unfolding print_int print_nat print_digits
printed = refl

get_int_value-set_int_value_example :
    get_int_value atoi serial rate (pos 0) (set_int_value (0x23 ∷ []) serial rate minus_42 file)
    ≡ minus_42
get_int_value-set_int_value_example =
    get_int_value-set_int_value (0x23 ∷ []) serial rate minus_42 (pos 0) file (omega arith)
