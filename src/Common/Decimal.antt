-- ===== src/Common/Decimal.antt =====
-- Runs of decimal digits: what scanning them gives, and that printing produces them.
use mathlib.Core.List.{concat-ne-nil}
use vericonnect_agent.Common.{digit_value, scan_digits, print_digits, to_string}
use vericonnect_agent.Prelude.Ascii.{is_digit}
use vericonnect_agent.Prelude.{
  ℕ, zero, suc, ◌+◌, ◌-◌, ◌*◌, ◌/◌, ◌%◌, ◌<◌, none, some, [], ◌∷◌, ◌++◌, ◌≡◌, ◌≢◌, refl, ◌∙◌, true,
  false, inl, inr, Bytes, ltb, Bool-cases, All, All-append, arith,
}

abbrev pub AllDigits : Bytes → Type 0
AllDigits = All (λ c. is_digit c ≡ true)

-- The number that a run of decimal digits writes, in front of an accumulator.
abbrev pub decimal : ℕ → Bytes → ℕ
decimal acc [] = acc
decimal acc (c ∷ cs) = decimal (acc * 10 + (c - b'0')) cs

pub digit_value_digit : (c : ℕ) → is_digit c ≡ true → digit_value 10 c ≡ some (c - b'0')
unfolding digit_value
digit_value_digit c h = ground arith

pub digit_value_other : (c : ℕ) → is_digit c ≡ false → digit_value 10 c ≡ none
unfolding digit_value
digit_value_other c h = ground arith

pub scan-AllDigits :
    (cs : Bytes) (acc : ℕ) → AllDigits cs → scan_digits 10 acc cs ≡ (decimal acc cs, [])
unfolding scan_digits
scan-AllDigits [] acc h = refl
scan-AllDigits (c ∷ cs) acc h =
    rw (digit_value_digit c h.0, scan_digits) (scan-AllDigits cs (acc * 10 + (c - b'0')) h.1)

-- A scan that leaves nothing has read digits only.
pub AllDigits-of_scan : (cs : Bytes) (acc : ℕ) → (scan_digits 10 acc cs).1 ≡ [] → AllDigits cs
unfolding scan_digits
AllDigits-of_scan [] acc h = tt
AllDigits-of_scan (c ∷ cs) acc h = elim (Bool-cases (is_digit c)) [
  | inl d ↦ (
    d,
    AllDigits-of_scan cs (acc * 10 + (c - b'0')) (rw (digit_value_digit c d, scan_digits) at h),
  )
  | inr o ↦ ground (arith, digit_value_other c o)
]

decimal-append :
    (cs : Bytes) (acc c : ℕ) → decimal acc (cs ++ c ∷ []) ≡ decimal acc cs * 10 + (c - b'0')
decimal-append [] acc c = refl
decimal-append (d ∷ cs) acc c = decimal-append cs (acc * 10 + (d - b'0')) c

print-AllDigits : (f n : ℕ) → AllDigits (print_digits f n)
unfolding print_digits
print-AllDigits zero n = tt
print-AllDigits (suc f) n = elim (Bool-cases (ltb n 10)) [
  | inl small ↦ rw small (ground arith, tt)
  | inr big ↦
      rw big
        (All-append _ (print_digits f (n / 10)) _ (print-AllDigits f (n / 10)) (ground arith, tt))
]

decimal-print : (f n : ℕ) → n < f → decimal 0 (print_digits f n) ≡ n
unfolding print_digits
decimal-print zero n h = absurd (omega arith)
decimal-print (suc f) n h = elim (Bool-cases (ltb n 10)) [
  | inl small ↦ rw small (omega arith)
  | inr big ↦ rw big (
      decimal-append (print_digits f (n / 10)) 0 (n % 10 + b'0')
      ∙ ground (arith, decimal-print f (n / 10)))
]

pub to_string-AllDigits : (n : ℕ) → AllDigits (to_string n)
unfolding to_string
to_string-AllDigits n = print-AllDigits (suc n) n

pub decimal-to_string : (n : ℕ) → decimal 0 (to_string n) ≡ n
unfolding to_string
decimal-to_string n = decimal-print (suc n) n (omega arith)

pub to_string-ne-nil : (n : ℕ) → to_string n ≢ []
unfolding to_string print_digits
to_string-ne-nil n h = ground (arith, concat-ne-nil (n % 10 + b'0') (print_digits n (n / 10)))
