-- ===== src/Base/Text.antt =====
-- String literals of the source, which are ASCII, as their bytes, and `strings.ToUpper`.
use Prim.Native.Char.{code}
use Prim.Native.Nat.{ℕ, ◌-◌}
use Prim.Native.String.{String}
use mathlib.Core.List.{List, [], ◌∷◌, map}
use mathlib.Core.Bool.{◌&&◌}
use gopher_db.Base.Tests.{leb, if◌then◌else◌}

abbrev pub codes : String → List ℕ
codes String.[] = []
codes (String.◌∷◌ c s) = code c ∷ codes s

-- `strings.ToUpper` on ASCII text
abbrev pub upper_rune : ℕ → ℕ
upper_rune c = if leb b'a' c && leb c b'z' then c - 32 else c

abbrev pub upper : List ℕ → List ℕ
upper s = map upper_rune s
