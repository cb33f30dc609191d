-- ===== src/Prelude/Ascii.antt =====
-- Byte strings, and the "C" locale's character classes from <cctype> that the sources call.
use Prim.Native.Nat.{ℕ, ◌+◌}
use Prim.Native.Char.{code}
use Prim.Native.String.{String}
use mathlib.Core.Bool.{Bool, ◌&&◌, ◌||◌}
use mathlib.Core.List.{List, [], ◌∷◌}
use vericonnect_agent.Prelude.Tests.{leb, ◌==◌, if◌then◌else◌}

-- std::string, std::string_view, vc::Bytes and spans of bytes: a list of values below 256.
abbrev pub Bytes : Type 0
Bytes = List ℕ

-- The bytes of an ASCII literal.
abbrev pub codes : String → Bytes
codes String.[] = []
codes (String.◌∷◌ c s) = code c ∷ codes s

abbrev pub within : ℕ → ℕ → ℕ → Bool
within lo hi c = leb lo c && leb c hi

-- std::tolower
abbrev pub to_lower : ℕ → ℕ
to_lower c = if within b'A' b'Z' c then c + 32 else c

-- std::isspace: space, \t, \n, \v, \f, \r
abbrev pub is_space : ℕ → Bool
is_space c = c == b' ' || within 9 13 c

abbrev pub is_digit : ℕ → Bool
is_digit c = within b'0' b'9' c

-- std::isxdigit
abbrev pub is_xdigit : ℕ → Bool
is_xdigit c = is_digit c || within b'a' b'f' c || within b'A' b'F' c
