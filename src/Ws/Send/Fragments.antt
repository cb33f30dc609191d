-- ===== src/Ws/Send/Fragments.antt =====
-- The frames that one message is sent as.
use vericonnect_agent.Prelude.{
  ℕ, zero, suc, ◌≤◌, ◌<◌, Bool, true, false, List, [], ◌∷◌, ◌++◌, ◌≡◌, refl, sym, inl, inr, Bytes,
  ◌==◌, leb, leb→le, if◌then◌else◌, Bool-cases, length, take, drop, min, length-take, length-drop,
  take-append-drop, take-all, drop-all, All, ==_iff, arith,
}
use vericonnect_agent.Ws.{WsFrame, k_frag_size}

abbrev pub frame : ℕ → Bool → Bytes → WsFrame
frame op fin payload = record { opcode = op; fin = fin; payload = payload }

-- RFC 6455, section 5.4: the frames carry one message. The first has the message's opcode, all
-- others are continuations, and only the last is final.
pub data Carries : ℕ → List WsFrame → Bytes → Type 0 where
  last : {op : ℕ} {payload : Bytes} → Carries op (frame op true payload ∷ []) payload
  more :
      {op : ℕ} {fs : List WsFrame} {payload part rest : Bytes}
      → Carries 0 fs rest
      → payload ≡ part ++ rest
      → Carries op (frame op false part ∷ fs) payload

-- The frames of send_fragments.
unfoldable pub fragments : ℕ → ℕ → Bool → Bytes → List WsFrame
fragments zero op first rest = []
fragments (suc f) op first [] = []
fragments (suc f) op first (b ∷ bs) =
    let k = min k_frag_size (length (b ∷ bs)) in
    frame (if first then op else 0x0) (k == length (b ∷ bs)) (take k (b ∷ bs))
    ∷ fragments f op false (drop k (b ∷ bs))

-- The frames of send.
unfoldable pub message_frames : ℕ → Bytes → List WsFrame
message_frames op payload =
    if leb (length payload) k_frag_size
    then frame op true payload ∷ []
    else fragments (length payload) op true payload

abbrev pub Fits : List WsFrame → Type 0
Fits = All (λ f. length f.payload ≤ k_frag_size)

fragments_nil : (f op : ℕ) (first : Bool) → fragments f op first [] ≡ []
unfolding fragments
fragments_nil zero op first = refl
fragments_nil (suc f) op first = refl

-- One round that takes everything, and one that leaves a rest.
module _ (op op' f k : ℕ) (l : Bytes) where
  abbrev round : List WsFrame
  round = frame op (k == length l) (take k l) ∷ fragments f op' false (drop k l)

  round_whole : k ≡ length l → Carries op round l
  round_whole e =
      rw
        (
          (==_iff k (length l)).1 e,
          take-all k l (omega arith),
          drop-all k l (omega arith),
          fragments_nil f op' false,
        )
        last

  round_part :
      k < length l → Carries 0 (fragments f op' false (drop k l)) (drop k l) → Carries op round l
  round_part h rest =
      let e : (k == length l) ≡ false = ground arith in
      rw e (more rest (sym (take-append-drop k l)))

fragments-Carries :
    (f op : ℕ) (first : Bool) (bs : Bytes)
    → length bs ≤ f
    → 0 < length bs
    → Carries (if first then op else 0x0) (fragments f op first bs) bs
unfolding fragments
fragments-Carries f op first [] h ne = absurd (omega arith)
fragments-Carries zero op first (b ∷ bs) h ne = absurd (omega arith)
fragments-Carries (suc f) op first (b ∷ bs) h ne =
    let l : Bytes = b ∷ bs in
    let k : ℕ = min k_frag_size (length l) in
    elim (Bool-cases (leb (length l) k_frag_size)) [
      | inl whole ↦
          round_whole (if first then op else 0x0) op f k l (omega (arith, leb→le _ _ whole))
      | inr part ↦
          let long : k_frag_size < length l = ground arith in
          round_part (if first then op else 0x0) op f k l (omega arith) (
            fragments-Carries f op false (drop k l) (omega (arith, length-drop k l))
              (omega (arith, length-drop k l)))
    ]

fragments-Fits : (f op : ℕ) (first : Bool) (bs : Bytes) → Fits (fragments f op first bs)
unfolding fragments
fragments-Fits zero op first bs = tt
fragments-Fits (suc f) op first [] = tt
fragments-Fits (suc f) op first (b ∷ bs) = (
  omega (arith, length-take (min k_frag_size (length (b ∷ bs))) (b ∷ bs)),
  fragments-Fits f op false _,
)

-- A message is sent as one well-formed sequence of frames: the first has the message's opcode,
-- the others are continuations, only the last is final, the payloads in order make up the
-- message, and none is larger than kFragSize.
pub message_frames-Carries :
    (op : ℕ) (payload : Bytes)
    → Carries op (message_frames op payload) payload × Fits (message_frames op payload)
unfolding message_frames
message_frames-Carries op payload = elim (Bool-cases (leb (length payload) k_frag_size)) [
  | inl small ↦ rw small (last, (leb→le _ _ small, tt))
  | inr large ↦ rw large (
    fragments-Carries (length payload) op true payload (omega arith) (ground arith),
    fragments-Fits (length payload) op true payload,
  )
]
