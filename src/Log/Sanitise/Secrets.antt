-- ===== src/Log/Sanitise/Secrets.antt =====
-- core/src/vc_log.cpp: what mask_secrets leaves of the value of a secret key.
use vericonnect_agent.Log.Sanitise.Keys.{
  IsSecretKey, NoKeyBefore, mask_secrets_at, mask_secrets-before,
}
use vericonnect_agent.Prelude.Search.{span, span-append, Stops}
use vericonnect_agent.Log.Sanitise.{
  is_blank, in_value, in_quotes, skip_quote, at_separator, after_key, mask_quoted, mask_plain,
  mask_at, mask_value, mask_secrets,
}
use vericonnect_agent.Prelude.{
  ℕ, ◌≡◌, ◌≢◌, refl, ap, ◌∙◌, ◌⊎◌, inl, inr, true, false, some, [], ◌∷◌, ◌++◌, append_assoc, arith,
  Bytes, codes, ◌==◌, All,
}

abbrev pub IsBlank : ℕ → Type 0
IsBlank b = (b ≡ b' ') ⊎ (b ≡ b'\t')

-- What may stand between a key and its value: a closing quote or none, blanks, and `=` or `:`.
abbrev pub IsSeparator : Bytes → Type 0
IsSeparator sep =
    (quote : Bytes) × (blanks : Bytes) × (c : ℕ) × ((quote ≡ []) ⊎ (quote ≡ codes "\""))
    × All IsBlank blanks
    × ((c ≡ b'=') ⊎ (c ≡ b':'))
    × (sep ≡ quote ++ (blanks ++ c ∷ []))

-- A byte that does not end a value without quotes.
abbrev pub IsPlain : ℕ → Type 0
IsPlain b = (b ≢ b'&') × (b ≢ b',') × (b ≢ b'}') × (b ≢ b' ')

-- The text ends, or a byte that ends such a value is in front.
abbrev pub Delimits : Bytes → Type 0
Delimits [] = Unit
Delimits (c ∷ cs) = (c ≡ b'&') ⊎ (c ≡ b',') ⊎ (c ≡ b'}') ⊎ (c ≡ b' ')

differs : (a b : ℕ) → a ≢ b → (a == b) ≡ false
differs a b h = ground arith

blank_test : (b : ℕ) → IsBlank b → is_blank b ≡ true
blank_test b h = ground arith

plain_test : (b : ℕ) → IsPlain b → in_value b ≡ true
plain_test b h =
    rw (differs b b'&' h.0, differs b b',' h.1, differs b b'}' h.2, differs b b' ' h.3) refl

quotes_test : (b : ℕ) → b ≢ b'"' → in_quotes b ≡ true
quotes_test b h = rw (differs b b'"' h) refl

All-map : {P Q : ℕ → Type 0} → ((b : ℕ) → P b → Q b) → (bs : Bytes) → All P bs → All Q bs
All-map f [] h = tt
All-map f (b ∷ bs) h = (f b h.0, All-map f bs h.1)

Delimits-Stops : (rest : Bytes) → Delimits rest → Stops in_value rest
Delimits-Stops [] h = tt
Delimits-Stops (c ∷ cs) h = ground arith

-- Blanks and then a byte that is none.
blanks_passed :
    (blanks : Bytes) (c : ℕ) (s : Bytes)
    → All IsBlank blanks
    → is_blank c ≡ false
    → (span is_blank (blanks ++ c ∷ s)).1 ≡ c ∷ s
blanks_passed blanks c s h e =
    ap (λ r. r.1) (span-append is_blank blanks (c ∷ s) (All-map blank_test blanks h) e)

unquoted :
    (blanks : Bytes) (c : ℕ) (t : Bytes)
    → All IsBlank blanks
    → (c == b'"') ≡ false
    → skip_quote (blanks ++ c ∷ t) ≡ blanks ++ c ∷ t
unquoted [] c t h e = rw e refl
unquoted (b ∷ bs) c t h e = let n : (b == b'"') ≡ false = ground (arith, h.0) in rw n refl

-- The separator ends in `=` or `:`, behind which the value is looked for.
at_sign :
    (blanks : Bytes) (c : ℕ) (t : Bytes)
    → All IsBlank blanks
    → (c ≡ b'=') ⊎ (c ≡ b':')
    → at_separator (span is_blank (blanks ++ c ∷ t)).1 ≡ some t
at_sign blanks c t hb (inl e) = rw (e, blanks_passed blanks b'=' t hb refl) refl
at_sign blanks c t hb (inr e) = rw (e, blanks_passed blanks b':' t hb refl) refl

after_separator : (sep t : Bytes) → IsSeparator sep → after_key (sep ++ t) ≡ some t
unfolding after_key
after_separator sep t (q, blanks, c, hq, hb, hc, e) =
    ap (λ s. after_key (s ++ t)) e
    ∙ ap after_key (append_assoc q (blanks ++ c ∷ []) t)
    ∙ ap (λ s. after_key (q ++ s)) (append_assoc blanks (c ∷ []) t)
    ∙ elim hq [
      | inl bare ↦ rw (bare, unquoted blanks c t hb (ground arith)) (at_sign blanks c t hb hc)
      | inr closed ↦ rw closed (at_sign blanks c t hb hc)
    ]

plain_value :
    (blanks : Bytes) (c : ℕ) (v rest : Bytes)
    → All IsBlank blanks
    → All IsPlain (c ∷ v)
    → c ≢ b'\t'
    → c ≢ b'"'
    → Delimits rest
    → mask_value (blanks ++ (c ∷ v ++ rest)) ≡ (codes "***", rest)
unfolding mask_value span
plain_value blanks c v rest hb plain tab quote ends =
    ap mask_at (
      blanks_passed blanks c (v ++ rest) hb
        (rw (differs c b' ' plain.0.3, differs c b'\t' tab) refl))
    ∙ rw (differs c b'"' quote) (
        ap mask_plain (
          span-append in_value (c ∷ v) rest (All-map plain_test (c ∷ v) plain)
            (Delimits-Stops rest ends)))

quoted_value :
    (blanks : Bytes) (c : ℕ) (v rest : Bytes)
    → All IsBlank blanks
    → All (λ b. b ≢ b'"') (c ∷ v)
    → mask_value (blanks ++ (b'"' ∷ c ∷ v ++ b'"' ∷ rest)) ≡ (codes "\"***\"", rest)
unfolding mask_value span
quoted_value blanks c v rest hb h =
    ap mask_at (blanks_passed blanks b'"' (c ∷ v ++ b'"' ∷ rest) hb refl)
    ∙ ap mask_quoted
        (span-append in_quotes (c ∷ v) (b'"' ∷ rest) (All-map quotes_test (c ∷ v) h) refl)

-- What is written for a key behind other text, once its value is known to be masked.
masked_behind :
    (before key sep t shown rest : Bytes)
    → IsSecretKey key
    → IsSeparator sep
    → NoKeyBefore (key ++ (sep ++ t)) before
    → mask_value t ≡ (shown, rest)
    → mask_secrets (before ++ (key ++ (sep ++ t)))
      ≡ before ++ (key ++ (sep ++ (shown ++ mask_secrets rest)))
masked_behind before key sep t shown rest hk hs hn e =
    mask_secrets-before before (key ++ (sep ++ t)) hn
    ∙ ap (◌++◌ before) (
        mask_secrets_at key sep t hk (after_separator sep t hs)
        ∙ ap (λ r. (key ++ sep) ++ (r.0 ++ mask_secrets r.1)) e
        ∙ append_assoc key sep (shown ++ mask_secrets rest))

-- The value of the first secret key of a text, in any case, is written as three stars: behind a
-- closing quote or none, blanks, `=` or `:` and blanks again (these last ones are dropped), a value
-- that is not empty and starts with neither a tab nor a quote is masked up to the next `&`, `,`,
-- `}` or space, or to the end. What stands before it is passed on as it is, and what follows it
-- is masked in the same way.
pub mask_secrets_plain :
    (before key sep blanks : Bytes) (c : ℕ) (v rest : Bytes)
    → IsSecretKey key
    → IsSeparator sep
    → All IsBlank blanks
    → All IsPlain (c ∷ v)
    → c ≢ b'\t'
    → c ≢ b'"'
    → Delimits rest
    → NoKeyBefore (key ++ (sep ++ (blanks ++ (c ∷ v ++ rest)))) before
    → mask_secrets (before ++ (key ++ (sep ++ (blanks ++ (c ∷ v ++ rest)))))
      ≡ before ++ (key ++ (sep ++ (codes "***" ++ mask_secrets rest)))
mask_secrets_plain before key sep blanks c v rest hk hs hb plain tab quote ends hn =
    masked_behind before key sep (blanks ++ (c ∷ v ++ rest)) (codes "***") rest hk hs hn
      (plain_value blanks c v rest hb plain tab quote ends)

-- A quoted value of the first secret key of a text, in any case, is written as three stars in
-- quotes, up to the first quote behind the opening one; this holds for any bytes before that
-- quote, so also for a backslash right in front of it, and what follows that quote is masked as
-- new text, not as a part of the value. The value is not empty; between the key and
-- its opening quote stand a closing quote or none, blanks, `=` or `:`, and blanks that are
-- dropped. What stands before the key is passed on as it is.
pub mask_secrets_quoted :
    (before key sep blanks : Bytes) (c : ℕ) (v rest : Bytes)
    → IsSecretKey key
    → IsSeparator sep
    → All IsBlank blanks
    → All (λ b. b ≢ b'"') (c ∷ v)
    → NoKeyBefore (key ++ (sep ++ (blanks ++ (b'"' ∷ c ∷ v ++ b'"' ∷ rest)))) before
    → mask_secrets (before ++ (key ++ (sep ++ (blanks ++ (b'"' ∷ c ∷ v ++ b'"' ∷ rest)))))
      ≡ before ++ (key ++ (sep ++ (codes "\"***\"" ++ mask_secrets rest)))
mask_secrets_quoted before key sep blanks c v rest hk hs hb h hn =
    masked_behind before key sep (blanks ++ (b'"' ∷ c ∷ v ++ b'"' ∷ rest)) (codes "\"***\"") rest hk
      hs hn (quoted_value blanks c v rest hb h)
