-- ===== src/Bytes/Utf8.antt =====
-- `utf8.Valid`, as the automaton over bytes that the encoding's definition gives: no overlong form,
-- no surrogate, nothing above U+10FFFF.
use gopher_db.Base.{ℕ, Bool, true, false, ◌&&◌, [], ◌∷◌, ltb, leb, ◌==◌, if◌then◌else◌}
use gopher_db.Bytes.Copy.{Bytes}

-- how many continuation bytes are due, or which lead byte narrows the next one
pub data Due : Type 0 where
  ready due_one due_two due_three after_e0 after_ed after_f0 after_f4 bad : Due

abbrev within : ℕ → ℕ → ℕ → Due → Due
within lo hi c next = if leb lo c && leb c hi then next else bad

unfoldable pub utf8_step : Due → ℕ → Due
utf8_step ready c =
    if ltb c 0x80
    then ready
    else if leb 0xc2 c && leb c 0xdf
    then due_one
    else if c == 0xe0
    then after_e0
    else if c == 0xed
    then after_ed
    else if leb 0xe1 c && leb c 0xef
    then due_two
    else if c == 0xf0
    then after_f0
    else if leb 0xf1 c && leb c 0xf3
    then due_three
    else if c == 0xf4
    then after_f4
    else bad
utf8_step due_one c = within 0x80 0xbf c ready
utf8_step due_two c = within 0x80 0xbf c due_one
utf8_step due_three c = within 0x80 0xbf c due_two
utf8_step after_e0 c = within 0xa0 0xbf c due_one
utf8_step after_ed c = within 0x80 0x9f c due_one
utf8_step after_f0 c = within 0x90 0xbf c due_two
utf8_step after_f4 c = within 0x80 0x8f c due_two
utf8_step bad c = bad

utf8_run : Due → Bytes → Due
utf8_run s [] = s
utf8_run s (c ∷ cs) = utf8_run (utf8_step s c) cs

unfoldable pub utf8_valid : Bytes → Bool
unfolding utf8_run utf8_step
utf8_valid s = elim (utf8_run ready s) [ ready ↦ true | _ ↦ false ]
