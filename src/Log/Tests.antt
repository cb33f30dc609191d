-- ===== src/Log/Tests.antt =====
-- core/src/vc_log.cpp: concrete texts.
use vericonnect_agent.Prelude.Search.{iequals, istarts_with}
use vericonnect_agent.Log.Sanitise.{in_value, k_max_message_bytes, escaped, mask_secrets, sanitise}
use vericonnect_agent.Log.Sanitise.Clean.{IsPrinted, sanitise_line}
use vericonnect_agent.Log.Sanitise.Secrets.{IsPlain, mask_secrets_plain, mask_secrets_quoted}
use vericonnect_agent.Prelude.{
  ℕ, true, false, ◌==◌, ◌≡◌, ◌≢◌, refl, inl, inr, [], ◌∷◌, ◌++◌, arith, Bytes, codes, take, All,
}

abbrev two_lines : Bytes
two_lines = b'a' ∷ b'\n' ∷ b'b' ∷ []

sanitise_line_example :
    All IsPrinted (sanitise two_lines)
    × (take k_max_message_bytes (sanitise two_lines)
        ≡ take k_max_message_bytes (mask_secrets (escaped two_lines)))
sanitise_line_example = sanitise_line two_lines (omega arith, (omega arith, (omega arith, tt)))

differ : (a b : ℕ) → (a == b) ≡ false → a ≢ b
differ a b h e = absurd (ground arith)

plain : (b : ℕ) → in_value b ≡ true → IsPlain b
plain b h = (
  λ e. absurd (ground arith),
  λ e. absurd (ground arith),
  λ e. absurd (ground arith),
  λ e. absurd (ground arith),
)

-- A query parameter behind other text.
mask_secrets_plain_example :
    mask_secrets
      (codes "?a=1&" ++ (codes "SIG" ++ (codes "=" ++ ([] ++ (b'a' ∷ codes "b%3D" ++ codes "&x")))))
    ≡ codes "?a=1&" ++ (codes "SIG" ++ (codes "=" ++ (codes "***" ++ mask_secrets (codes "&x"))))
unfolding iequals istarts_with
mask_secrets_plain_example =
    mask_secrets_plain (codes "?a=1&") (codes "SIG") (codes "=") [] b'a' (codes "b%3D") (codes "&x")
      (inr (inl refl)) ([], [], b'=', inl refl, tt, inl refl, refl) tt
      (
        plain b'a' refl,
        (plain b'b' refl, (plain b'%' refl, (plain b'3' refl, (plain b'D' refl, tt)))),
      )
      (differ _ _ refl) (differ _ _ refl) (inl refl)
      (
        (refl, refl, refl, refl, refl),
        (
          (refl, refl, refl, refl, refl),
          (
            (refl, refl, refl, refl, refl),
            ((refl, refl, refl, refl, refl), ((refl, refl, refl, refl, refl), tt)),
          ),
        ),
      )

-- A member of a JSON text whose value holds an escaped quote, and the tail of the value.
mask_secrets_quoted_example :
    mask_secrets (
      codes "{\""
      ++ (codes "password"
          ++ (codes "\" :" ++ (codes " " ++ (b'"' ∷ b'p' ∷ codes "w\\" ++ b'"' ∷ codes "tail\"")))))
    ≡ codes "{\""
      ++ (codes "password" ++ (codes "\" :" ++ (codes "\"***\"" ++ mask_secrets (codes "tail\""))))
unfolding iequals istarts_with
mask_secrets_quoted_example =
    mask_secrets_quoted (codes "{\"") (codes "password") (codes "\" :") (codes " ") b'p'
      (codes "w\\") (codes "tail\"") (inr (inr (inl refl)))
      (codes "\"", codes " ", b':', inr refl, (inl refl, tt), inr refl, refl) (inl refl, tt)
      (differ b'p' b'"' refl, (differ b'w' b'"' refl, (differ b'\\' b'"' refl, tt)))
      ((refl, refl, refl, refl, refl), ((refl, refl, refl, refl, refl), tt))
