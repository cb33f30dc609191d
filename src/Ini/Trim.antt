-- ===== src/Ini/Trim.antt =====
-- core/src/vc_ini.cpp: what trim and the cuts at a byte keep of a text.
use vericonnect_agent.Prelude.Ascii.{is_space}
use vericonnect_agent.Prelude.Search.{find, is_prefix, span, span-Stops, Stops}
use vericonnect_agent.Prelude.{
  ℕ, zero, suc, ◌≡◌, refl, inl, inr, false, ◌&&◌, some, [], ◌∷◌, arith, Bytes, Bool-cases, take,
  is_nil,
}
use vericonnect_agent.Ini.{trim, trim_left, trim_right}
use vericonnect_agent.Ini.Text.{Without, IsTrimmed, trim_left_solid}

trim_right_idem : (s : Bytes) → trim_right (trim_right s) ≡ trim_right s
unfolding trim_right
trim_right_idem [] = refl
trim_right_idem (c ∷ cs) = elim (Bool-cases (is_nil (trim_right cs) && is_space c)) [
  | inl gone ↦ rw gone refl
  | inr stays ↦ rw (stays, trim_right_idem cs, stays) refl
]

-- Cutting blanks at the end leaves no blank in front where there was none.
pub trim_right-Stops : (s : Bytes) → Stops is_space s → Stops is_space (trim_right s)
unfolding trim_right
trim_right-Stops [] h = tt
trim_right-Stops (c ∷ cs) h = elim (Bool-cases (is_nil (trim_right cs) && is_space c)) [
  | inl gone ↦ rw gone tt
  | inr stays ↦ rw stays h
]

trim_left-Stops : (s : Bytes) → Stops is_space s → trim_left s ≡ s
unfolding trim_left span
trim_left-Stops [] h = refl
trim_left-Stops (c ∷ cs) h = trim_left_solid c cs h

pub trim-IsTrimmed : (s : Bytes) → IsTrimmed (trim s)
unfolding trim trim_left
trim-IsTrimmed s = (
  trim_left-Stops (trim s) (trim_right-Stops (trim_left s) (span-Stops is_space s)),
  trim_right_idem (trim_left s),
)

pub trim_right-Without : (b : ℕ) (s : Bytes) → Without b s → Without b (trim_right s)
unfolding trim_right
trim_right-Without b [] h = tt
trim_right-Without b (c ∷ cs) h = elim (Bool-cases (is_nil (trim_right cs) && is_space c)) [
  | inl gone ↦ rw gone tt
  | inr stays ↦ rw stays (h.0, trim_right-Without b cs h.1)
]

pub trim_left-Without : (b : ℕ) (s : Bytes) → Without b s → Without b (trim_left s)
unfolding trim_left span
trim_left-Without b [] h = tt
trim_left-Without b (c ∷ cs) h = elim (Bool-cases (is_space c)) [
  | inl blank ↦ rw (blank, trim_left) (trim_left-Without b cs h.1)
  | inr solid ↦ rw (solid, trim_left) h
]

pub trim-Without : (b : ℕ) (s : Bytes) → Without b s → Without b (trim s)
unfolding trim
trim-Without b s h = trim_right-Without b (trim_left s) (trim_left-Without b s h)

-- Before a byte's first position the byte does not occur.
pub find_byte-Without :
    (b : ℕ) (s : Bytes) (i : ℕ) → find (b ∷ []) s ≡ some i → Without b (take i s)
unfolding find is_prefix
find_byte-Without b s zero h = tt
find_byte-Without b [] (suc i) h = tt
find_byte-Without b (c ∷ cs) (suc i) h =
    let later : find (b ∷ []) cs ≡ some i = ground arith in
    (ground arith, find_byte-Without b cs i later)

-- A text with a first byte that is not blank keeps that byte.
pub trim-front : (c : ℕ) (cs : Bytes) → is_space c ≡ false → trim (c ∷ cs) ≡ c ∷ trim_right cs
unfolding trim trim_right
trim-front c cs h = rw (trim_left_solid c cs h) (ground arith)
