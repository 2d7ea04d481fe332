-- ===== src/Catalog/Text.antt =====
-- `strings.TrimSpace(s) == ""`: every rune of the UTF-8 text is white space, as `unicode.IsSpace` has
-- it. The bytes are read by a small automaton; a byte that fits no space ends the run.
use gopher_db.Base.{ℕ, Bool, true, false, ◌&&◌, ◌||◌, [], ◌∷◌, leb, ◌==◌, if◌then◌else◌}
use gopher_db.Bytes.Copy.{Bytes}

-- what has been read of the present rune: nothing, or the bytes that the name spells
pub data Blank : Type 0 where
  between after_c2 after_e1 after_e1_9a after_e2 after_e2_80 after_e2_81 after_e3 after_e3_80 :
      Blank
  other : Blank

abbrev expect : ℕ → ℕ → Blank → Blank
expect want c next = if c == want then next else other

unfoldable pub blank_step : Blank → ℕ → Blank
-- U+0009 to U+000D, U+0020
blank_step between c =
    if leb 0x09 c && leb c 0x0d || c == 0x20
    then between
    else if c == 0xc2
    then after_c2
    else if c == 0xe1
    then after_e1
    else if c == 0xe2
    then after_e2
    else if c == 0xe3
    then after_e3
    else other
-- U+0085, U+00A0
blank_step after_c2 c = if c == 0x85 || c == 0xa0 then between else other
-- U+1680
blank_step after_e1 c = expect 0x9a c after_e1_9a
blank_step after_e1_9a c = expect 0x80 c between
-- U+2000 to U+200A, U+2028, U+2029, U+202F
blank_step after_e2 c = if c == 0x80 then after_e2_80 else if c == 0x81 then after_e2_81 else other
blank_step after_e2_80 c =
    if leb 0x80 c && leb c 0x8a || c == 0xa8 || c == 0xa9 || c == 0xaf then between else other
-- U+205F
blank_step after_e2_81 c = expect 0x9f c between
-- U+3000
blank_step after_e3 c = expect 0x80 c after_e3_80
blank_step after_e3_80 c = expect 0x80 c between
blank_step other c = other

blank_run : Blank → Bytes → Blank
blank_run s [] = s
blank_run s (c ∷ cs) = blank_run (blank_step s c) cs

unfoldable pub is_blank : Bytes → Bool
unfolding blank_run blank_step
is_blank s = elim (blank_run between s) [ between ↦ true | _ ↦ false ]
