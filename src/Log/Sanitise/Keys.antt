-- ===== src/Log/Sanitise/Keys.antt =====
-- core/src/vc_log.cpp: the rounds of mask_secrets at a secret key and at any other text.
use vericonnect_agent.Log.Sanitise.Rounds.{mask_secrets-round}
use vericonnect_agent.Prelude.Ascii.{to_lower}
use vericonnect_agent.Prelude.Search.{istarts_with, iequals}
use vericonnect_agent.Log.Sanitise.{
  secret_keys, key_length, after_key, mask_value, mask_key, mask_found, mask_round, mask_secrets,
}
use vericonnect_agent.Prelude.{
  ℕ, suc, ◌-◌, ◌≡◌, refl, sym, ap, ap₂, ◌∙◌, ◌⊎◌, inl, inr, Bool, true, false, ◌&&◌, some, List, [],
  ◌∷◌, ◌++◌, append_assoc, arith, Bytes, codes, ◌==◌, if◌then◌else◌, ==_iff, length, take, drop,
  length-append, take-append_left, drop-append_left,
}

-- A secret key, in any case.
abbrev pub IsSecretKey : Bytes → Type 0
IsSecretKey key =
    (iequals key (codes "sb-hc-token") ≡ true)
    ⊎ (iequals key (codes "sig") ≡ true)
    ⊎ (iequals key (codes "password") ≡ true)
    ⊎ (iequals key (codes "accesskey") ≡ true)
    ⊎ (iequals key (codes "sharedaccesssignature") ≡ true)

-- No secret key stands at the front of a text.
abbrev pub NoKeyIn : Bytes → Type 0
NoKeyIn text =
    (istarts_with text (codes "sb-hc-token") ≡ false)
    × (istarts_with text (codes "sig") ≡ false)
    × (istarts_with text (codes "password") ≡ false)
    × (istarts_with text (codes "accesskey") ≡ false)
    × (istarts_with text (codes "sharedaccesssignature") ≡ false)

-- In `before ++ text`, no secret key starts before `text`.
abbrev pub NoKeyBefore : Bytes → Bytes → Type 0
NoKeyBefore text [] = Unit
NoKeyBefore text (c ∷ before) = NoKeyIn (c ∷ before ++ text) × NoKeyBefore text before

and_left : (a b : Bool) → (a && b) ≡ true → a ≡ true
and_left true b h = refl
and_left false b h = cc

and_right : (a b : Bool) → (a && b) ≡ true → b ≡ true
and_right true b h = h
and_right false b h = cc

istarts_with-same :
    (a b t p : Bytes) → iequals a b ≡ true → istarts_with (a ++ t) p ≡ istarts_with (b ++ t) p
unfolding istarts_with iequals
istarts_with-same [] [] t p h = refl
istarts_with-same [] (y ∷ b) t p h = cc
istarts_with-same (x ∷ a) [] t p h = cc
istarts_with-same (x ∷ a) (y ∷ b) t [] h = refl
istarts_with-same (x ∷ a) (y ∷ b) t (c ∷ p) h =
    let e : to_lower x ≡ to_lower y = (==_iff _ _).0 (and_left _ _ h) in
    ap₂ ◌&&◌ (ap (λ z. z == to_lower c) e) (istarts_with-same a b t p (and_right _ _ h))

key_length-same :
    (ks : List Bytes) (a b t : Bytes)
    → iequals a b ≡ true
    → key_length ks (a ++ t) ≡ key_length ks (b ++ t)
unfolding key_length
key_length-same [] a b t h = refl
key_length-same (k ∷ ks) a b t h = rw (istarts_with-same a b t k h, key_length-same ks a b t h) refl

length-same : (a b : Bytes) → iequals a b ≡ true → length a ≡ length b
unfolding iequals
length-same [] [] h = refl
length-same [] (y ∷ b) h = cc
length-same (x ∷ a) [] h = cc
length-same (x ∷ a) (y ∷ b) h = ap suc (length-same a b (and_right _ _ h))

-- A key is found as a whole, whatever is behind it.
found_as :
    (key k t : Bytes)
    → iequals key k ≡ true
    → key_length secret_keys (k ++ t) ≡ length k
    → key_length secret_keys (key ++ t) ≡ length key
found_as key k t h e = key_length-same secret_keys key k t h ∙ e ∙ sym (length-same key k h)

key_found : (key t : Bytes) → IsSecretKey key → key_length secret_keys (key ++ t) ≡ length key
unfolding key_length istarts_with
key_found key t (inl h) = found_as key (codes "sb-hc-token") t h refl
key_found key t (inr (inl h)) = found_as key (codes "sig") t h refl
key_found key t (inr (inr (inl h))) = found_as key (codes "password") t h refl
key_found key t (inr (inr (inr (inl h)))) = found_as key (codes "accesskey") t h refl
key_found key t (inr (inr (inr (inr h)))) = found_as key (codes "sharedaccesssignature") t h refl

key-pos : (key : Bytes) → IsSecretKey key → (length key == 0) ≡ false
key-pos key (inl h) = rw (length-same key (codes "sb-hc-token") h) refl
key-pos key (inr (inl h)) = rw (length-same key (codes "sig") h) refl
key-pos key (inr (inr (inl h))) = rw (length-same key (codes "password") h) refl
key-pos key (inr (inr (inr (inl h)))) = rw (length-same key (codes "accesskey") h) refl
key-pos key (inr (inr (inr (inr h)))) = rw (length-same key (codes "sharedaccesssignature") h) refl

-- A round at a key that has a separator.
round_at_key :
    (c : ℕ) (k t value : Bytes)
    → IsSecretKey (c ∷ k)
    → after_key t ≡ some value
    → mask_round c (k ++ t) ≡ (
      take (length (c ∷ k ++ t) - length value) (c ∷ k ++ t) ++ (mask_value value).0,
      (mask_value value).1,
    )
unfolding mask_round
round_at_key c k t value h sep =
    ap (λ n. mask_found n c (k ++ t)) (key_found (c ∷ k) t h)
    ∙ ap
        (λ b.
          if b
          then (c ∷ [], k ++ t)
          else mask_key c (k ++ t) (after_key (drop (length (c ∷ k)) (c ∷ k ++ t))))
        (key-pos (c ∷ k) h)
    ∙ ap (λ u. mask_key c (k ++ t) (after_key u)) (drop-append_left (c ∷ k) t)
    ∙ ap (mask_key c (k ++ t)) sep

-- What stands in front of `t`.
front-append : (a t : Bytes) → take (length (a ++ t) - length t) (a ++ t) ≡ a
front-append a t =
    let front : length (a ++ t) - length t ≡ length a = omega (arith, length-append a t) in
    ap (λ n. take n (a ++ t)) front ∙ take-append_left a t

-- Where a value is masked behind a key and its separator.
pub mask_secrets_at :
    (key sep t : Bytes)
    → IsSecretKey key
    → after_key (sep ++ t) ≡ some t
    → mask_secrets (key ++ (sep ++ t))
      ≡ (key ++ sep) ++ ((mask_value t).0 ++ mask_secrets (mask_value t).1)
mask_secrets_at [] sep t h a = absurd (cc (key-pos [] h))
mask_secrets_at (c ∷ k) sep t h a =
    let value = (mask_value t).0 in
    let rest = mask_secrets (mask_value t).1 in
    let key = c ∷ k in
    mask_secrets-round c (k ++ (sep ++ t))
    ∙ ap (λ r. r.0 ++ mask_secrets r.1) (round_at_key c k (sep ++ t) t h a)
    ∙ ap (λ u. (take (length u - length t) u ++ value) ++ rest) (sym (append_assoc key sep t))
    ∙ ap (λ u. (u ++ value) ++ rest) (front-append (key ++ sep) t)
    ∙ append_assoc (key ++ sep) value rest

no_key : (text : Bytes) → NoKeyIn text → key_length secret_keys text ≡ 0
unfolding key_length
no_key text h = rw (h.0, h.1, h.2, h.3, h.4) refl

-- Text in which no key starts is passed on as it is.
pub mask_secrets-before :
    (before text : Bytes)
    → NoKeyBefore text before
    → mask_secrets (before ++ text) ≡ before ++ mask_secrets text
mask_secrets-before [] text h = refl
mask_secrets-before (c ∷ before) text h =
    mask_secrets-round c (before ++ text)
    ∙ ap (λ r. r.0 ++ mask_secrets r.1) round
    ∙ ap (◌∷◌ c) (mask_secrets-before before text h.1)
  where
    round : mask_round c (before ++ text) ≡ (c ∷ [], before ++ text)
    round =
        unfold mask_round in
        ap (λ n. mask_found n c (before ++ text)) (no_key (c ∷ before ++ text) h.0)
