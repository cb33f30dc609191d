-- ===== src/Ini/Lookup.antt =====
-- core/src/vc_ini.cpp: find, get and set as a map whose keys compare without case.
use vericonnect_agent.Prelude.Search.{iequals, iequals_sym, iequals_trans}
use vericonnect_agent.Prelude.{
  ◌≡◌, refl, sym, ◌∙◌, ◌≢◌, inl, inr, Bool, true, false, ◌&&◌, none, some, [], ◌∷◌, ◌++◌, arith,
  Bytes, if◌then◌else◌, Bool-cases, Option-cases,
}
use vericonnect_agent.Ini.{Entry, Ini, is_at, find_entry, assign, get, set}

-- Two keys of the store name the same entry.
unfoldable pub same_key : Bytes → Bytes → Bytes → Bytes → Bool
same_key s k s' k' = iequals s s' && iequals k k'

-- Entries that stand at the same key are found by the same lookups.
is_at-same :
    (s k s' k' : Bytes) (e : Entry) → is_at s k e ≡ true → is_at s' k' e ≡ same_key s k s' k'
unfolding is_at same_key
is_at-same s k s' k' e h = ground (arith, iequals_trans e.section s s', iequals_trans e.key k k')

is_at-differ :
    (s k s' k' : Bytes) (e : Entry)
    → is_at s k e ≡ false
    → same_key s k s' k' ≡ true
    → is_at s' k' e ≡ false
unfolding is_at same_key
is_at-differ s k s' k' e h same = ground (
  arith,
  iequals_sym s' e.section,
  iequals_sym k' e.key,
  iequals_sym s e.section,
  iequals_sym k e.key,
  iequals_trans s s' e.section,
  iequals_trans k k' e.key,
)

pub get-cons :
    (s k : Bytes) (e : Entry) (es : Ini)
    → get s k (e ∷ es) ≡ (if is_at s k e then some e.value else get s k es)
unfolding get find_entry
get-cons s k e es = elim (Bool-cases (is_at s k e)) [
  | inl here ↦ rw here refl
  | inr away ↦ rw away refl
]

find-skip :
    (s k : Bytes) (e : Entry) (es : Ini)
    → is_at s k e ≡ false
    → find_entry s k (e ∷ es) ≡ find_entry s k es
unfolding find_entry
find-skip s k e es away = rw away refl

abbrev with_value : Entry → Bytes → Entry
with_value e v = record { section = e.section; key = e.key; value = v }

is_at-with_value : (s k v : Bytes) (e : Entry) → is_at s k (with_value e v) ≡ is_at s k e
unfolding is_at
is_at-with_value s k v e = refl

pub is_at-new :
    (s k v s' k' : Bytes)
    → is_at s' k' (record { section = s; key = k; value = v }) ≡ same_key s k s' k'
unfolding is_at same_key
is_at-new s k v s' k' = refl

get-assign :
    (s k v s' k' : Bytes) (es : Ini)
    → find_entry s k es ≢ none
    → get s' k' (assign s k v es) ≡ (if same_key s k s' k' then some v else get s' k' es)
unfolding find_entry assign
get-assign s k v s' k' [] h = absurd (h refl)
get-assign s k v s' k' (e ∷ es) h = elim (Bool-cases (is_at s k e)) [
  | inl here ↦
      let there = is_at-same s k s' k' e here in
      rw (here, get-cons, get-cons s' k' e es, is_at-with_value, there) (ground arith)
  | inr away ↦
      let later = get-assign s k v s' k' es (λ no. h (find-skip s k e es away ∙ no)) in
      rw (away, get-cons, get-cons s' k' e es, later)
        (ground (arith, is_at-differ s k s' k' e away))
]

-- The entry that set adds where there was none.
get-add :
    (s k v s' k' : Bytes) (es : Ini)
    → find_entry s k es ≡ none
    → get s' k' (es ++ record { section = s; key = k; value = v } ∷ [])
      ≡ (if same_key s k s' k' then some v else get s' k' es)
unfolding find_entry
get-add s k v s' k' [] h = rw (get-cons, is_at-new) refl
get-add s k v s' k' (e ∷ es) h = elim (Bool-cases (is_at s k e)) [
  | inl here ↦ absurd (ground (arith, here))
  | inr away ↦
      let later = get-add s k v s' k' es (sym (find-skip s k e es away) ∙ h) in
      rw (get-cons, get-cons s' k' e es, later) (ground (arith, is_at-differ s k s' k' e away))
]

pub set_there :
    (s k v : Bytes) (ini : Ini) (e : Entry)
    → find_entry s k ini ≡ some e
    → set s k v ini ≡ assign s k v ini
unfolding set
set_there s k v ini e there = rw (there, set) refl

pub set_new :
    (s k v : Bytes) (ini : Ini)
    → find_entry s k ini ≡ none
    → set s k v ini ≡ ini ++ record { section = s; key = k; value = v } ∷ []
unfolding set
set_new s k v ini none_there = rw (none_there, set) refl

-- A lookup after set: the new value at every spelling of the key, else what the lookup gave before.
pub get-set :
    (s k v s' k' : Bytes) (ini : Ini)
    → get s' k' (set s k v ini) ≡ (if same_key s k s' k' then some v else get s' k' ini)
get-set s k v s' k' ini = elim (Option-cases (find_entry s k ini)) [
  | inl none_there ↦ rw (set_new s k v ini none_there) (get-add s k v s' k' ini none_there)
  | inr (e, there) ↦
      rw (set_there s k v ini e there)
        (get-assign s k v s' k' ini (λ no. ground (arith, there, no)))
]
