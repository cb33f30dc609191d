-- ===== src/Base64/Reference.antt =====
-- What the decoder means, with no accumulator: whitespace dropped, sextets read up to the first
-- padding character, and every four of them split into three bytes.
use mathlib.Core.Option
use vericonnect_agent.Base64.{b64_val, is_blank}
use vericonnect_agent.Prelude.{
  ℕ, ◌+◌, ◌*◌, ◌/◌, ◌%◌, Bool, true, ◌&&◌, Option, none, some, List, [], ◌∷◌, Bytes, ◌==◌,
  if◌then◌else◌,
}

unfoldable pub strip : Bytes → Bytes
strip [] = []
strip (c ∷ cs) = if is_blank c then strip cs else c ∷ strip cs

unfoldable pub all_padding : Bytes → Bool
all_padding [] = true
all_padding (c ∷ cs) = c == b'=' && all_padding cs

-- The sextets of a text without whitespace; nothing but padding may follow padding.
unfoldable pub sextets : Bytes → Option (List ℕ)
unfolding all_padding
sextets [] = some []
sextets (c ∷ cs) =
    if c == b'='
    then if all_padding cs then some [] else none
    else elim (b64_val c) [ none ↦ none | some v ↦ Option.map (◌∷◌ v) (sextets cs) ]

-- Four sextets are three bytes, three are two, two are one; a single one is no whole byte.
unfoldable pub quads : List ℕ → Option Bytes
quads [] = some []
quads (a ∷ []) = none
quads (a ∷ b ∷ []) = some ((a * 4 + b / 16) ∷ [])
quads (a ∷ b ∷ c ∷ []) = some ((a * 4 + b / 16) ∷ (b % 16 * 16 + c / 4) ∷ [])
quads (a ∷ b ∷ c ∷ d ∷ rest) =
    Option.map (λ bs. (a * 4 + b / 16) ∷ (b % 16 * 16 + c / 4) ∷ (c % 4 * 64 + d) ∷ bs) (quads rest)

abbrev pub bind_quads : Option (List ℕ) → Option Bytes
bind_quads none = none
bind_quads (some vs) = quads vs

unfoldable pub reference : Bytes → Option Bytes
unfolding strip sextets quads
reference text = bind_quads (sextets (strip text))
