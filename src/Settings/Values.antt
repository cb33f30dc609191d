-- ===== src/Settings/Values.antt =====
-- core/src/vc_settings.cpp: the texts that save writes stand for themselves in a file.
use vericonnect_agent.Common.{int_to_string, to_string}
use vericonnect_agent.Common.Decimal.{AllDigits, to_string-AllDigits}
use vericonnect_agent.Ini.{trim_left, trim_right, is_comment, is_header}
use vericonnect_agent.Ini.Text.{
  IsSection, IsKey, IsValue, Without, trim_left_solid, trim_right-cons,
}
use vericonnect_agent.Log.{Level, trace, debug, info, succ, warn, error as error_level}
use vericonnect_agent.Settings.{level_name}
use vericonnect_agent.Prelude.Ascii.{is_space, is_digit}
use vericonnect_agent.Prelude.Search.{span}
use vericonnect_agent.Prelude.{
  ℕ, suc, ◌≡◌, refl, Bool, true, false, not, ◌&&◌, [], ◌∷◌, arith, Bytes, codes, ◌==◌, ℤ, pos,
  negsuc,
}

-- A test of a byte that does not occur, for the names of the program.
abbrev pub lacks : ℕ → Bytes → Bool
lacks c [] = true
lacks c (x ∷ s) = not (c == x) && lacks c s

pub lacks-Without : (c : ℕ) (s : Bytes) → lacks c s ≡ true → Without c s
lacks-Without c [] h = tt
lacks-Without c (x ∷ s) h = (ground (arith, h), lacks-Without c s (ground (arith, h)))

pub lacks-IsSection :
    (s : Bytes)
    → trim_left s ≡ s
    → trim_right s ≡ s
    → lacks b']' s ≡ true
    → lacks b'\n' s ≡ true
    → IsSection s
lacks-IsSection s l r b n = ((l, r), lacks-Without b']' s b, lacks-Without b'\n' s n)

pub lacks-IsKey :
    (s : Bytes)
    → trim_left s ≡ s
    → trim_right s ≡ s
    → lacks b'=' s ≡ true
    → lacks b'\n' s ≡ true
    → is_comment s ≡ false
    → is_header s ≡ false
    → IsKey s
lacks-IsKey s l r e n c h = ((l, r), lacks-Without b'=' s e, lacks-Without b'\n' s n, c, h)

pub lacks-IsValue :
    (s : Bytes) → trim_left s ≡ s → trim_right s ≡ s → lacks b'\n' s ≡ true → IsValue s
lacks-IsValue s l r n = ((l, r), lacks-Without b'\n' s n)

pub digit-solid : (c : ℕ) → is_digit c ≡ true → is_space c ≡ false
digit-solid c h = ground (arith, h)

pub digits-IsValue : (s : Bytes) → AllDigits s → IsValue s
unfolding trim_left trim_right span
digits-IsValue [] h = ((refl, refl), tt)
digits-IsValue (c ∷ s) h =
    let rest = digits-IsValue s h.1 in
    let solid = digit-solid c h.0 in
    ((trim_left_solid c s solid, trim_right-cons c s solid rest.0.1), (ground (arith, h.0), rest.1))

pub int-IsValue : (n : ℤ) → IsValue (int_to_string n)
unfolding int_to_string
int-IsValue (pos n) = digits-IsValue (to_string n) (to_string-AllDigits n)
int-IsValue (negsuc n) =
    let rest = digits-IsValue (to_string (suc n)) (to_string-AllDigits (suc n)) in
    (
      (
        trim_left_solid b'-' (to_string (suc n)) refl,
        trim_right-cons b'-' (to_string (suc n)) refl rest.0.1,
      ),
      (refl, rest.1),
    )

pub level-IsValue : (l : Level) → IsValue (level_name l)
unfolding trim_left trim_right span
level-IsValue trace = lacks-IsValue (codes "LOG_TRACE") refl refl refl
level-IsValue debug = lacks-IsValue (codes "LOG_DEBUG") refl refl refl
level-IsValue info = lacks-IsValue (codes "LOG_INFO") refl refl refl
level-IsValue succ = lacks-IsValue (codes "LOG_INFO") refl refl refl
level-IsValue warn = lacks-IsValue (codes "LOG_WARN") refl refl refl
level-IsValue error_level = lacks-IsValue (codes "LOG_ERROR") refl refl refl
