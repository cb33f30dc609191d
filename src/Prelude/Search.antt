-- ===== src/Prelude/Search.antt =====
-- Searching byte strings: string_view::find, the scanning loops, and comparison without case.
use vericonnect_agent.Prelude.Ascii.{Bytes, to_lower}
use vericonnect_agent.Prelude.Lists.{length, take, drop, All, length-append}
use vericonnect_agent.Prelude.Tests.{◌==◌, if◌then◌else◌, Bool-cases, Option-cases, ==_refl}
use Prim.Native.Nat.{ℕ, zero, suc, ◌+◌, ◌≤◌}
use mathlib.Core.Path.{◌≡◌, refl, sym, ap, ap₂, ◌∙◌}
use mathlib.Core.Logic.{inl, inr}
use mathlib.Core.Bool.{Bool, true, false, ◌&&◌}
use mathlib.Core.Option
use mathlib.Core.Option.{Option, none, some}
use mathlib.Core.List.{[], ◌∷◌, ◌++◌, append-nil, append_assoc}
use native.Mathlib.Omega.{arith}

-- memcmp of the front of the text with `needle`, where it is long enough.
unfoldable pub is_prefix : Bytes → Bytes → Bool
is_prefix [] text = true
is_prefix (c ∷ cs) [] = false
is_prefix (c ∷ cs) (d ∷ ds) = c == d && is_prefix cs ds

-- The first position of `needle`; `none` is npos.
unfoldable pub find : Bytes → Bytes → Option ℕ
unfolding is_prefix
find needle [] = if is_prefix needle [] then some 0 else none
find needle (c ∷ cs) =
    let rest = Option.map suc (find needle cs) in if is_prefix needle (c ∷ cs) then some 0 else rest

-- `while (i < size && test(s[i])) i++`: what is passed over, and the rest.
unfoldable pub span : (ℕ → Bool) → Bytes → Bytes × Bytes
span test [] = ([], [])
span test (c ∷ cs) = if test c then (c ∷ (span test cs).0, (span test cs).1) else ([], c ∷ cs)

-- iequals, which several files of the repository define alike.
unfoldable pub iequals : Bytes → Bytes → Bool
iequals [] [] = true
iequals (a ∷ as_) (b ∷ bs) = to_lower a == to_lower b && iequals as_ bs
iequals _ _ = false

-- istarts_with, which two files of the repository define alike.
unfoldable pub istarts_with : Bytes → Bytes → Bool
istarts_with s [] = true
istarts_with [] (p ∷ prefix) = false
istarts_with (c ∷ s) (p ∷ prefix) = to_lower c == to_lower p && istarts_with s prefix

-- `p` holds nowhere at the front of a text.
abbrev pub Stops : (ℕ → Bool) → Bytes → Type 0
Stops test [] = Unit
Stops test (c ∷ cs) = test c ≡ false

pub span-append :
    (test : ℕ → Bool) (xs rest : Bytes)
    → All (λ c. test c ≡ true) xs
    → Stops test rest
    → span test (xs ++ rest) ≡ (xs, rest)
unfolding span
span-append test [] [] h s = refl
span-append test [] (c ∷ cs) h s = rw s refl
span-append test (x ∷ xs) rest h s = rw (h.0, span-append test xs rest h.1 s) refl

pub span-All : (test : ℕ → Bool) (s : Bytes) → All (λ c. test c ≡ true) (span test s).0
unfolding span
span-All test [] = tt
span-All test (c ∷ cs) = elim (Bool-cases (test c)) [
  | inl y ↦ rw y (y, span-All test cs)
  | inr n ↦ rw n tt
]

pub span-Stops : (test : ℕ → Bool) (s : Bytes) → Stops test (span test s).1
unfolding span
span-Stops test [] = tt
span-Stops test (c ∷ cs) = elim (Bool-cases (test c)) [
  | inl y ↦ rw y (span-Stops test cs)
  | inr n ↦ rw n n
]

pub span_parts : (test : ℕ → Bool) (s : Bytes) → (span test s).0 ++ (span test s).1 ≡ s
unfolding span
span_parts test [] = refl
span_parts test (c ∷ cs) = elim (Bool-cases (test c)) [
  | inl y ↦ rw y (ap (◌∷◌ c) (span_parts test cs))
  | inr n ↦ rw n refl
]

pub iequals_refl : (s : Bytes) → iequals s s ≡ true
unfolding iequals
iequals_refl [] = refl
iequals_refl (a ∷ s) = rw (==_refl, iequals_refl s) refl

pub iequals_sym : (s t : Bytes) → iequals s t ≡ iequals t s
unfolding iequals
iequals_sym [] [] = refl
iequals_sym (a ∷ s) (b ∷ t) = ground (arith, iequals_sym s t)
iequals_sym [] (b ∷ t) = refl
iequals_sym (a ∷ s) [] = refl

-- Texts that compare equal compare alike with every other.
pub iequals_trans : (s t u : Bytes) → iequals s t ≡ true → iequals s u ≡ iequals t u
unfolding iequals
iequals_trans [] [] u h = refl
iequals_trans [] (b ∷ t) u h = cc
iequals_trans (a ∷ s) [] u h = cc
iequals_trans (a ∷ s) (b ∷ t) [] h = refl
iequals_trans (a ∷ s) (b ∷ t) (c ∷ u) h = ground (arith, iequals_trans s t u)

is_prefix-append :
    (needle text more : Bytes)
    → length needle ≤ length text
    → is_prefix needle (text ++ more) ≡ is_prefix needle text
unfolding is_prefix
is_prefix-append [] text more h = refl
is_prefix-append (c ∷ cs) [] more h = absurd (omega arith)
is_prefix-append (c ∷ cs) (d ∷ ds) more h =
    ap (λ b. c == d && b) (is_prefix-append cs ds more (omega arith))

is_prefix-le : (needle text : Bytes) → is_prefix needle text ≡ true → length needle ≤ length text
unfolding is_prefix
is_prefix-le [] text h = omega arith
is_prefix-le (c ∷ cs) [] h = absurd (cc)
is_prefix-le (c ∷ cs) (d ∷ ds) h = ground (arith, is_prefix-le cs ds)

find_nil : (text : Bytes) → find [] text ≡ some 0
unfolding find
find_nil [] = refl
find_nil (c ∷ cs) = refl

pub find-le :
    (needle text : Bytes) (i : ℕ) → find needle text ≡ some i → i + length needle ≤ length text
unfolding find
find-le needle [] i h = ground (arith, is_prefix-le needle [])
find-le needle (c ∷ cs) i h = elim (Option-cases (find needle cs)) [
  | inl no_more ↦ ground (arith, no_more, is_prefix-le needle (c ∷ cs))
  | inr (j, later) ↦ ground (arith, later, find-le needle cs j later, is_prefix-le needle (c ∷ cs))
]

-- A first position stays the first one when the text goes on.
pub find-append :
    (needle text more : Bytes) (i : ℕ)
    → find needle text ≡ some i
    → find needle (text ++ more) ≡ some i
unfolding find
find-append [] [] more i h = find_nil more ∙ h
find-append (d ∷ ds) [] more i h = absurd (cc)
find-append needle (c ∷ cs) more i h = elim (Option-cases (find needle cs)) [
  | inl no_more ↦
      ground (arith, no_more, is_prefix-le needle (c ∷ cs), is_prefix-append needle (c ∷ cs) more)
  | inr (j, later) ↦ ground (
    arith,
    later,
    find-le needle cs j later,
    is_prefix-append needle (c ∷ cs) more,
    find-append needle cs more j later,
  )
]

is_prefix_parts :
    (needle text : Bytes)
    → is_prefix needle text ≡ true
    → text ≡ needle ++ drop (length needle) text
unfolding is_prefix
is_prefix_parts [] text h = refl
is_prefix_parts (c ∷ cs) [] h = cc
is_prefix_parts (c ∷ cs) (d ∷ ds) h =
    let head : d ≡ c = ground arith in
    let tail : is_prefix cs ds ≡ true = ground arith in ap₂ ◌∷◌ head (is_prefix_parts cs ds tail)

at_front :
    (needle text : Bytes)
    → is_prefix needle text ≡ true
    → text ≡ needle ++ drop (0 + length needle) text
at_front needle text h =
    is_prefix_parts needle text h ∙ ap (λ k. needle ++ drop k text) (omega arith)

-- What stands at a found position is the needle.
pub find_parts :
    (needle text : Bytes) (i : ℕ)
    → find needle text ≡ some i
    → text ≡ take i text ++ (needle ++ drop (i + length needle) text)
unfolding find
find_parts needle [] i h = elim (Bool-cases (is_prefix needle [])) [
  | inl here ↦ let e : 0 ≡ i = ground (arith, here) in rw (← e) (at_front needle [] here)
  | inr not_here ↦ absurd (ground (arith, not_here))
]
find_parts needle (c ∷ cs) i h = elim (Bool-cases (is_prefix needle (c ∷ cs))) [
  | inl here ↦ let e : 0 ≡ i = ground (arith, here) in rw (← e) (at_front needle (c ∷ cs) here)
  | inr not_here ↦ elim (Option-cases (find needle cs)) [
    | inl no_more ↦ absurd (ground (arith, not_here, no_more))
    | inr (j, later) ↦
        let e : suc j ≡ i = ground (arith, not_here, later) in
        let f : suc j + length needle ≡ suc (j + length needle) = omega arith in
        rw (← e) (rw f (ap (◌∷◌ c) (find_parts needle cs j later)))
  ]
]

is_prefix_refl : (needle : Bytes) → is_prefix needle needle ≡ true
unfolding is_prefix
is_prefix_refl [] = refl
is_prefix_refl (c ∷ cs) = rw (==_refl, is_prefix_refl cs) refl

find_front : (c : ℕ) (cs more : Bytes) → find (c ∷ cs) ((c ∷ cs) ++ more) ≡ some 0
unfolding find
find_front c cs more =
    let e : is_prefix (c ∷ cs) ((c ∷ cs) ++ more) ≡ true =
      is_prefix-append (c ∷ cs) (c ∷ cs) more (omega arith) ∙ is_prefix_refl (c ∷ cs) in
    ground (arith, e)

-- No match at a text's front, none at the front of the text cut behind a later match.
still_absent :
    (d : ℕ) (ds : Bytes) (c : ℕ) (cs : Bytes) (j : ℕ)
    → find (d ∷ ds) cs ≡ some j
    → is_prefix (d ∷ ds) (c ∷ cs) ≡ false
    → is_prefix (d ∷ ds) (c ∷ (take j cs ++ (d ∷ ds))) ≡ false
still_absent d ds c cs j later here =
    sym (
      is_prefix-append (d ∷ ds) (c ∷ (take j cs ++ (d ∷ ds))) behind
        (omega (arith, length-append (take j cs) (d ∷ ds))))
    ∙ ap (is_prefix (d ∷ ds)) (sym cut)
    ∙ here
  where
    behind : Bytes
    behind = drop (j + length (d ∷ ds)) cs

    cut : c ∷ cs ≡ (c ∷ (take j cs ++ (d ∷ ds))) ++ behind
    cut =
        ap (◌∷◌ c) (find_parts (d ∷ ds) cs j later ∙ sym (append_assoc (take j cs) (d ∷ ds) behind))

-- Cut off behind the needle, the text still has it there for the first time.
pub find-take :
    (d : ℕ) (ds text : Bytes) (i : ℕ)
    → find (d ∷ ds) text ≡ some i
    → find (d ∷ ds) (take i text ++ (d ∷ ds)) ≡ some (length (take i text))
unfolding find
find-take d ds text zero h = ap (find (d ∷ ds)) (sym (append-nil (d ∷ ds))) ∙ find_front d ds []
find-take d ds [] (suc j) h = absurd (cc)
find-take d ds (c ∷ cs) (suc j) h =
    let later : find (d ∷ ds) cs ≡ some j = ground arith in
    let here : is_prefix (d ∷ ds) (c ∷ cs) ≡ false = ground arith in
    ground (arith, still_absent d ds c cs j later here, find-take d ds cs j later)

-- A byte is found at its first place.
pub find_byte :
    (c : ℕ) (xs ys : Bytes)
    → All (λ x. (c == x) ≡ false) xs
    → find (c ∷ []) (xs ++ c ∷ ys) ≡ some (length xs)
unfolding find is_prefix
find_byte c [] ys h = rw ==_refl refl
find_byte c (x ∷ xs) ys h = rw (h.0, find_byte c xs ys h.1) refl

-- A text starts with a prefix where its first bytes compare equal to it.
pub istarts_with-append :
    (w rest prefix : Bytes) → iequals w prefix ≡ true → istarts_with (w ++ rest) prefix ≡ true
unfolding istarts_with iequals
istarts_with-append [] [] [] h = refl
istarts_with-append [] (c ∷ rest) [] h = refl
istarts_with-append [] rest (d ∷ prefix) h = cc
istarts_with-append (c ∷ w) rest [] h = cc
istarts_with-append (c ∷ w) rest (d ∷ prefix) h =
    ground (arith, h, istarts_with-append w rest prefix)

pub istarts_with-take :
    (s prefix : Bytes)
    → istarts_with s prefix ≡ true
    → iequals (take (length prefix) s) prefix ≡ true
unfolding istarts_with iequals
istarts_with-take [] [] h = refl
istarts_with-take (c ∷ s) [] h = refl
istarts_with-take [] (d ∷ prefix) h = cc
istarts_with-take (c ∷ s) (d ∷ prefix) h = ground (arith, h, istarts_with-take s prefix)
