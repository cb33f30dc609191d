-- ===== src/Json/Text/Shorter.antt =====
-- core/src/vc_json.cpp: what parse_string_raw takes, and that the fuel of its loop is enough.
use vericonnect_agent.Json.Text.{
  with_rest, parse_hex4, low_half, second_half, unicode, simple_escape, escaped, appended,
  string_round, string_loop, parse_string_raw,
}
use vericonnect_agent.Prelude.{
  ℕ, zero, suc, ◌≤◌, ◌≡◌, refl, ap, inl, inr, ◌&&◌, Option, none, some, [], ◌∷◌, ◌++◌, arith, Bytes,
  ltb, leb, ◌==◌, if◌then◌else◌, Bool-cases, Option-cases, length,
}

-- What is left of the text is no longer than `n`.
abbrev pub Leaves {ℓ} : {A : Type ℓ} → ℕ → Option (A × Bytes) → Type 0
Leaves n none = Unit {0}
Leaves n (some (a, rest)) = length rest ≤ n

Leaves-le {ℓ} : {A : Type ℓ} (m n : ℕ) (o : Option (A × Bytes)) → m ≤ n → Leaves m o → Leaves n o
Leaves-le m n none h k = tt
Leaves-le m n (some (a, rest)) h k = omega arith

with_rest-Leaves {ℓ} :
    {A : Type ℓ} (o : Option A) (rest : Bytes) → Leaves (length rest) (with_rest o rest)
with_rest-Leaves none rest = tt
with_rest-Leaves (some a) rest = omega arith

parse_hex4-Leaves : (s : Bytes) → Leaves (length s) (parse_hex4 s)
unfolding parse_hex4
parse_hex4-Leaves (a ∷ b ∷ c ∷ d ∷ rest) =
    Leaves-le (length rest) _ (parse_hex4 (a ∷ b ∷ c ∷ d ∷ rest)) (omega arith)
      (with_rest-Leaves _ rest)
parse_hex4-Leaves [] = tt
parse_hex4-Leaves (a ∷ []) = tt
parse_hex4-Leaves (a ∷ b ∷ []) = tt
parse_hex4-Leaves (a ∷ b ∷ c ∷ []) = tt

low_half-Leaves : (hi n : ℕ) (o : Option (ℕ × Bytes)) → Leaves n o → Leaves n (low_half hi o)
low_half-Leaves hi n none h = tt
low_half-Leaves hi n (some (lo, rest)) h = ground arith

second_half-Leaves : (hi : ℕ) (s : Bytes) → Leaves (length s) (second_half hi s)
second_half-Leaves hi [] = tt
second_half-Leaves hi (b ∷ []) = tt
second_half-Leaves hi (b ∷ u ∷ rest) =
    let low =
      Leaves-le (length rest) (suc (suc (length rest))) _ (omega arith)
        (low_half-Leaves hi (length rest) (parse_hex4 rest) (parse_hex4-Leaves rest)) in
    elim (Bool-cases (leb 4 (length rest) && b == b'\\' && u == b'u')) [
      | inl e ↦ rw (second_half, e) low
      | inr e ↦ rw (second_half, e) tt
    ]

unicode-Leaves : (n : ℕ) (o : Option (ℕ × Bytes)) → Leaves n o → Leaves n (unicode o)
unicode-Leaves n none h = tt
unicode-Leaves n (some (cp, rest)) h =
    let low = Leaves-le (length rest) n _ h (second_half-Leaves cp rest) in
    elim (Bool-cases (leb 0xD800 cp && leb cp 0xDBFF)) [
      | inl e ↦ rw (unicode, e) low
      | inr e ↦
          rw (unicode, e)
            (elim (Bool-cases (leb 0xDC00 cp && leb cp 0xDFFF)) [
              | inl f ↦ rw f tt
              | inr f ↦ rw f h
            ])
    ]

escaped-Leaves : (s : Bytes) → Leaves (length s) (escaped s)
unfolding escaped
escaped-Leaves [] = tt
escaped-Leaves (e ∷ rest) =
    let u =
      Leaves-le (length rest) (suc (length rest)) _ (omega arith)
        (unicode-Leaves (length rest) (parse_hex4 rest) (parse_hex4-Leaves rest)) in
    elim (Bool-cases (e == b'u')) [
      | inl y ↦ rw (escaped, y) u
      | inr n ↦
          rw (escaped, n)
            (elim (Option-cases (simple_escape e)) [
              | inl none_ ↦ rw none_ tt
              | inr (b, some_) ↦ rw some_ (omega arith)
            ])
    ]

appended-Leaves :
    (n : ℕ) (out : Bytes) (o : Option (Bytes × Bytes))
    (loop : Bytes → Bytes → Option (Bytes × Bytes))
    → ((rest out' : Bytes) → length rest ≤ n → Leaves n (loop rest out'))
    → Leaves n o
    → Leaves n (appended out o loop)
appended-Leaves n out none loop h k = tt
appended-Leaves n out (some (bs, rest)) loop h k = h rest (out ++ bs) k

string_round-Leaves :
    (c : ℕ) (cs out : Bytes) (loop : Bytes → Bytes → Option (Bytes × Bytes))
    → ((rest out' : Bytes) → length rest ≤ length cs → Leaves (length cs) (loop rest out'))
    → Leaves (length cs) (string_round c cs out loop)
string_round-Leaves c cs out loop h = elim (Bool-cases (c == b'"')) [
  | inl y ↦ rw (string_round, y) (omega arith)
  | inr n ↦
      rw (string_round, n)
        (elim (Bool-cases (c == b'\\')) [
          | inl y ↦ rw y (appended-Leaves (length cs) out (escaped cs) loop h (escaped-Leaves cs))
          | inr m ↦ rw m (elim (Bool-cases (ltb c 0x20)) [
            | inl y ↦ rw y tt
            | inr l ↦ rw l (h cs (out ++ c ∷ []) (omega arith))
          ])
        ])
]

string_loop-Leaves : (fuel : ℕ) (s out : Bytes) → Leaves (length s) (string_loop fuel s out)
unfolding string_loop
string_loop-Leaves zero s out = tt
string_loop-Leaves (suc fuel) [] out = tt
string_loop-Leaves (suc fuel) (c ∷ cs) out =
    Leaves-le (length cs) (suc (length cs)) _ (omega arith) (
      string_round-Leaves c cs out (λ rest out'. string_loop fuel rest out')
        (λ rest out' h.
          Leaves-le (length rest) (length cs) _ h (string_loop-Leaves fuel rest out')))

-- parse_string_raw takes at least the opening quote.
pub parse_string_raw-Leaves : (c : ℕ) (cs : Bytes) → Leaves (length cs) (parse_string_raw (c ∷ cs))
unfolding parse_string_raw
parse_string_raw-Leaves c cs = elim (Bool-cases (c == b'"')) [
  | inl y ↦ rw (parse_string_raw, y) (string_loop-Leaves (length cs) cs [])
  | inr n ↦ rw (parse_string_raw, n) tt
]

appended-same :
    (n : ℕ) (out : Bytes) (o : Option (Bytes × Bytes))
    (loop loop' : Bytes → Bytes → Option (Bytes × Bytes))
    → ((rest out' : Bytes) → length rest ≤ n → loop rest out' ≡ loop' rest out')
    → Leaves n o
    → appended out o loop ≡ appended out o loop'
appended-same n out none loop loop' h k = refl
appended-same n out (some (bs, rest)) loop loop' h k = h rest (out ++ bs) k

-- With fuel for every byte left, more fuel changes nothing.
pub string_loop-enough :
    (f g : ℕ) (s out : Bytes)
    → length s ≤ f
    → length s ≤ g
    → string_loop f s out ≡ string_loop g s out
unfolding string_loop
string_loop-enough zero zero s out hf hg = refl
string_loop-enough zero (suc g) [] out hf hg = refl
string_loop-enough (suc f) zero [] out hf hg = refl
string_loop-enough zero (suc g) (c ∷ cs) out hf hg = absurd (omega arith)
string_loop-enough (suc f) zero (c ∷ cs) out hf hg = absurd (omega arith)
string_loop-enough (suc f) (suc g) [] out hf hg = refl
string_loop-enough (suc f) (suc g) (c ∷ cs) out hf hg =
    let same = λ (rest out' : Bytes) (h : length rest ≤ length cs).
      string_loop-enough f g rest out' (omega arith) (omega arith) in
    elim (Bool-cases (c == b'"')) [
      | inl y ↦ rw (string_round, y) refl
      | inr n ↦
          rw (string_round, n)
            (elim (Bool-cases (c == b'\\')) [
              | inl y ↦
                  rw y (appended-same (length cs) out (escaped cs) _ _ same (escaped-Leaves cs))
              | inr m ↦
                  rw m (
                    ap (λ t. if ltb c 0x20 then none else t)
                      (same cs (out ++ c ∷ []) (omega arith)))
            ])
    ]

pub parse_string_raw-le : (n : ℕ) (s : Bytes) → length s ≤ n → Leaves n (parse_string_raw s)
unfolding parse_string_raw
parse_string_raw-le n [] h = tt
parse_string_raw-le n (c ∷ cs) h =
    Leaves-le (length cs) n (parse_string_raw (c ∷ cs)) (omega arith) (parse_string_raw-Leaves c cs)
