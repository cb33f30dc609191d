-- ===== src/Base64/Decode.antt =====
-- The decoder's loop computes the reference meaning.
use mathlib.Core.Option
use vericonnect_agent.Base64.{
  b64_val, Decoder, push_sextet, decode_step, decode_loop, decoder, decode,
}
use vericonnect_agent.Base64.Reference.{strip, all_padding, sextets, quads, bind_quads, reference}
use vericonnect_agent.Prelude.Bits.{bit_or_sum}
use vericonnect_agent.Prelude.{
  ℕ, ◌+◌, ◌-◌, ◌*◌, ◌/◌, ◌%◌, ◌^◌, ◌<◌, true, false, Option, none, some, List, [], ◌∷◌, ◌++◌, ◌≡◌,
  refl, ap, ◌∙◌, inl, inr, Bytes, ◌==◌, leb, if◌then◌else◌, Bool-cases, Option-cases, All,
  append-nil, append_assoc, arith, bit_or, u8, u32, ◌<<<◌, ◌>>>◌,
}

-- A character's value is a sextet.
pub b64_val-lt : (c v : ℕ) → b64_val c ≡ some v → v < 64
unfolding b64_val
b64_val-lt c v h = ground arith

-- After padding only padding and whitespace may follow.
loop_padding :
    (cs : Bytes) (s : Decoder)
    → s.done ≡ true
    → decode_loop s cs
      ≡ (if all_padding (strip cs) then (if s.bits == 6 then none else some s.out) else none)
unfolding decode_loop decode_step strip all_padding
loop_padding [] s h = refl
loop_padding (c ∷ cs) s h =
    ground (arith, loop_padding cs s h, loop_padding cs (record s { done = true }) refl)

-- The loop over sextets alone: what it still appends, and whether it ends well.
collect : ℕ → ℕ → List ℕ → Option Bytes
collect acc bits [] = if bits == 6 then none else some []
collect acc bits (v ∷ vs) =
    let acc' = bit_or (u32 (acc <<< 6)) v in
    if leb 8 (bits + 6)
    then Option.map (◌∷◌ (u8 (acc' >>> (bits + 6 - 8)))) (collect acc' (bits + 6 - 8) vs)
    else collect acc' (bits + 6) vs

bind_collect : ℕ → ℕ → Option (List ℕ) → Option Bytes
bind_collect acc bits none = none
bind_collect acc bits (some vs) = collect acc bits vs

append_to : Bytes → Option Bytes → Option Bytes
append_to out = Option.map (λ bs. out ++ bs)

append_to-map :
    (out : Bytes) (b : ℕ) (r : Option Bytes)
    → append_to (out ++ b ∷ []) r ≡ append_to out (Option.map (◌∷◌ b) r)
unfolding append_to
append_to-map out b none = refl
append_to-map out b (some bs) = ap some (append_assoc out (b ∷ []) bs)

push-collect :
    (s : Decoder) (v : ℕ) (vs : Option (List ℕ))
    → append_to (push_sextet s v).out (bind_collect (push_sextet s v).acc (push_sextet s v).bits vs)
      ≡ append_to s.out (bind_collect s.acc s.bits (Option.map (◌∷◌ v) vs))
unfolding push_sextet bind_collect collect
push-collect s v none = unfold append_to in refl
push-collect s v (some vs) = elim (Bool-cases (leb 8 (s.bits + 6))) [
  | inl full ↦ rw full (append_to-map s.out _ _)
  | inr short ↦ rw short refl
]

push-done : (s : Decoder) (v : ℕ) → (push_sextet s v).done ≡ s.done
unfolding push_sextet
push-done s v = ground arith

-- A clean stop: what is left in the accumulator decides.
stop-collect :
    (s : Decoder)
    → (if s.bits == 6 then none else some s.out)
      ≡ append_to s.out (bind_collect s.acc s.bits (some []))
unfolding append_to bind_collect collect
stop-collect s = ground (arith, append-nil s.out)

loop-collect :
    (cs : Bytes) (s : Decoder)
    → s.done ≡ false
    → decode_loop s cs ≡ append_to s.out (bind_collect s.acc s.bits (sextets (strip cs)))
unfolding decode_loop decode_step append_to bind_collect strip sextets
loop-collect [] s h = stop-collect s
loop-collect (c ∷ cs) s h = elim (Option-cases (b64_val c)) [
  | inl bad ↦ ground (
    arith,
    bad,
    stop-collect s,
    loop-collect cs s h,
    loop_padding cs (record s { done = true }) refl,
  )
  | inr (v, good) ↦ ground (
    arith,
    good,
    stop-collect s,
    loop-collect cs s h,
    loop_padding cs (record s { done = true }) refl,
    loop-collect cs (push_sextet s v) (push-done s v ∙ h),
    push-collect s v (sextets (strip cs)),
  )
]

-- Four sextets from an empty accumulator push three bytes and leave it empty.
or_sextet : (acc v : ℕ) → v < 64 → bit_or (u32 (acc <<< 6)) v ≡ acc * 64 % 2 ^ 32 + v
or_sextet acc v h =
    let low : u32 (acc <<< 6) ≡ acc % 2 ^ 26 * 2 ^ 6 = omega arith in
    rw low (omega (arith, bit_or_sum 6 (acc % 2 ^ 26) v h))

module _ (acc a b c d : ℕ) (ha : a < 64) (hb : b < 64) (hc : c < 64) (hd : d < 64) where
  abbrev acc1 : ℕ
  acc1 = bit_or (u32 (acc <<< 6)) a

  abbrev acc2 : ℕ
  acc2 = bit_or (u32 (acc1 <<< 6)) b

  abbrev acc3 : ℕ
  acc3 = bit_or (u32 (acc2 <<< 6)) c

  abbrev acc4 : ℕ
  acc4 = bit_or (u32 (acc3 <<< 6)) d

  first_byte : u8 (acc2 >>> 4) ≡ a * 4 + b / 16
  first_byte = omega (arith, or_sextet acc a ha, or_sextet acc1 b hb)

  second_byte : u8 (acc3 >>> 2) ≡ b % 16 * 16 + c / 4
  second_byte = omega (arith, or_sextet acc1 b hb, or_sextet acc2 c hc)

  third_byte : u8 (acc4 >>> 0) ≡ c % 4 * 64 + d
  third_byte = omega (arith, or_sextet acc2 c hc, or_sextet acc3 d hd)

map_three :
    (x y z : ℕ) (o : Option Bytes)
    → Option.map (◌∷◌ x) (Option.map (◌∷◌ y) (Option.map (◌∷◌ z) o))
      ≡ Option.map (λ bs. x ∷ y ∷ z ∷ bs) o
map_three x y z none = refl
map_three x y z (some bs) = refl

collect-quads : (vs : List ℕ) (acc : ℕ) → All (λ v. v < 64) vs → collect acc 0 vs ≡ quads vs
unfolding collect quads
collect-quads [] acc h = refl
collect-quads (a ∷ []) acc h = refl
collect-quads (a ∷ b ∷ []) acc h = rw (first_byte acc a b 0 0 h.0 h.1.0 (omega arith) (omega arith))
collect-quads (a ∷ b ∷ c ∷ []) acc h = rw (
  first_byte acc a b c 0 h.0 h.1.0 h.1.1.0 (omega arith),
  second_byte acc a b c 0 h.0 h.1.0 h.1.1.0 (omega arith),
)
collect-quads (a ∷ b ∷ c ∷ d ∷ rest) acc h =
    rw
      (
        first_byte acc a b c d h.0 h.1.0 h.1.1.0 h.1.1.1.0,
        second_byte acc a b c d h.0 h.1.0 h.1.1.0 h.1.1.1.0,
        third_byte acc a b c d h.0 h.1.0 h.1.1.0 h.1.1.1.0,
        collect-quads rest _ h.1.1.1.1,
      )
      (map_three _ _ _ (quads rest))

Fit : Option (List ℕ) → Type 0
Fit none = Unit
Fit (some vs) = All (λ v. v < 64) vs

sextets-Fit : (cs : Bytes) → Fit (sextets cs)
unfolding Fit sextets
sextets-Fit [] = tt
sextets-Fit (c ∷ cs) = elim (Option-cases (b64_val c)) [
  | inl bad ↦ rw bad (ground arith)
  | inr (v, good) ↦ rw good (ground (arith, b64_val-lt c v good, sextets-Fit cs))
]

collect-bind : (o : Option (List ℕ)) → Fit o → append_to [] (bind_collect 0 0 o) ≡ bind_quads o
unfolding Fit append_to bind_collect
collect-bind none h = refl
collect-bind (some vs) h = rw (collect-quads vs 0 h) (map_id (quads vs))
  where
    map_id : (o : Option Bytes) → Option.map (λ bs. [] ++ bs) o ≡ o
    map_id none = refl
    map_id (some bs) = refl

-- The decoder returns exactly what the reference gives, on every text: whitespace is skipped
-- wherever it stands, anything but padding and whitespace after padding is refused, as is a
-- character outside the alphabet and a text whose last group holds a single character; in all
-- other cases each four characters give three bytes and a short last group one or two.
pub decode-reference : (text : Bytes) → decode text ≡ reference text
unfolding decode reference
decode-reference text =
    loop-collect text decoder refl ∙ collect-bind (sextets (strip text)) (sextets-Fit (strip text))
