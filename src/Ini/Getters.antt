-- ===== src/Ini/Getters.antt =====
-- core/src/vc_ini.cpp: get_int, get_bool and set_int.
use vericonnect_agent.Prelude.{
  ℕ, suc, ◌≤◌, ◌≡◌, refl, ◌≢◌, true, false, none, some, [], ◌∷◌, arith, Bytes, is_nil, ℤ, pos,
  negsuc,
}
use vericonnect_agent.Common.{int_to_string, parse_uint, to_string}
use vericonnect_agent.Common.Decimal.{to_string-ne-nil}
use vericonnect_agent.Common.ParseUint.{parse_uint-to_string}
use vericonnect_agent.Ini.{Ini, get, set, present, get_int, set_int}
use vericonnect_agent.Ini.Lookup.{get-set, same_key}

get_int-some :
    (s k v : Bytes) (n : ℕ) (def_ : ℤ) (ini : Ini)
    → get s k ini ≡ some v
    → is_nil v ≡ false
    → parse_uint v 0x7FFFFFFF 10 ≡ some n
    → get_int s k def_ ini ≡ pos n
unfolding get_int present
get_int-some s k v n def_ ini found full parsed = rw (found, get_int, present, full, parsed) refl

get_int-default :
    (s k v : Bytes) (def_ : ℤ) (ini : Ini)
    → get s k ini ≡ some v
    → is_nil v ≡ false
    → parse_uint v 0x7FFFFFFF 10 ≡ none
    → get_int s k def_ ini ≡ def_
unfolding get_int present
get_int-default s k v def_ ini found full parsed = rw (found, get_int, present, full, parsed) refl

get-set_same :
    (s k v s' k' : Bytes) (ini : Ini)
    → same_key s k s' k' ≡ true
    → get s' k' (set s k v ini) ≡ some v
get-set_same s k v s' k' ini same = rw (get-set s k v s' k' ini, same) refl

not_nil : (v : Bytes) → v ≢ [] → is_nil v ≡ false
not_nil [] h = absurd (h refl)
not_nil (c ∷ v) h = refl

signed_refused : (v : Bytes) → parse_uint (b'-' ∷ v) 0x7FFFFFFF 10 ≡ none
unfolding parse_uint
signed_refused v = refl

-- What get_int makes of an int that is stored as a text.
pub get_int-stored :
    (s k : Bytes) (n : ℕ) (def_ : ℤ) (ini : Ini)
    → (get s k ini ≡ some (int_to_string (pos n)) → n ≤ 0x7FFFFFFF → get_int s k def_ ini ≡ pos n)
      × (get s k ini ≡ some (int_to_string (negsuc n)) → get_int s k def_ ini ≡ def_)
unfolding int_to_string
get_int-stored s k n def_ ini = (
  λ found small.
      get_int-some s k (to_string n) n def_ ini found (not_nil (to_string n) (to_string-ne-nil n))
        (parse_uint-to_string n 0x7FFFFFFF small (omega arith)),
  λ found.
      get_int-default s k (b'-' ∷ to_string (suc n)) def_ ini found refl
        (signed_refused (to_string (suc n))),
)

-- An int that set_int stores is what get_int gives at every spelling of the key, when it is not
-- negative; a negative one is stored as a text that get_int answers with the default.
pub get_int-set_int :
    (s k s' k' : Bytes) (n : ℕ) (def_ : ℤ) (ini : Ini)
    → same_key s k s' k' ≡ true
    → n ≤ 0x7FFFFFFF
    → (get_int s' k' def_ (set_int s k (pos n) ini) ≡ pos n)
      × (get_int s' k' def_ (set_int s k (negsuc n) ini) ≡ def_)
unfolding set_int int_to_string
get_int-set_int s k s' k' n def_ ini same small = (
  (get_int-stored s' k' n def_ (set s k (to_string n) ini)).0
      (get-set_same s k (to_string n) s' k' ini same) small,
  (get_int-stored s' k' n def_ (set s k (b'-' ∷ to_string (suc n)) ini)).1
      (get-set_same s k (b'-' ∷ to_string (suc n)) s' k' ini same),
)
