-- ===== src/Ini/Unique.antt =====
-- core/src/vc_ini.cpp: no two entries of a store that set and load build name the same key.
use vericonnect_agent.Prelude.Search.{find, iequals_sym}
use vericonnect_agent.Prelude.{
  ◌+◌, ◌≡◌, refl, sym, ap₂, ◌∙◌, subst, inl, inr, false, ◌&&◌, none, List, [], ◌∷◌, ◌++◌, arith,
  Bytes, Bool-cases, Option-cases, take, drop, is_nil,
}
use vericonnect_agent.Ini.Lookup.{set_new, set_there}
use vericonnect_agent.Ini.{
  is_comment, is_header, trim, Entry, Ini, Loader, is_at, find_entry, assign, set, load_text,
  load_lines, load_line, lines, header_line, value_line,
}

-- No entry is found by the key of an earlier one.
unfoldable pub IsUnique : Ini → Type 0
IsUnique [] = Unit
IsUnique (e ∷ es) = (find_entry e.section e.key es ≡ none) × IsUnique es

find-assign-none :
    (s k v s' k' : Bytes) (es : Ini)
    → find_entry s' k' es ≡ none
    → find_entry s' k' (assign s k v es) ≡ none
unfolding find_entry assign is_at
find-assign-none s k v s' k' [] h = refl
find-assign-none s k v s' k' (e ∷ es) h = ground (arith, find-assign-none s k v s' k' es)

find-add_none :
    (e : Entry) (s' k' : Bytes) (es : Ini)
    → find_entry s' k' es ≡ none
    → is_at s' k' e ≡ false
    → find_entry s' k' (es ++ e ∷ []) ≡ none
unfolding find_entry
find-add_none e s' k' [] h away = rw away refl
find-add_none e s' k' (d ∷ es) h away = ground (arith, find-add_none e s' k' es)

is_at_sym : (d e : Entry) → is_at d.section d.key e ≡ is_at e.section e.key d
unfolding is_at
is_at_sym d e = ap₂ ◌&&◌ (iequals_sym e.section d.section) (iequals_sym e.key d.key)

add-IsUnique :
    (e : Entry) (es : Ini)
    → find_entry e.section e.key es ≡ none
    → IsUnique es
    → IsUnique (es ++ e ∷ [])
unfolding IsUnique find_entry
add-IsUnique e [] h u = (refl, tt)
add-IsUnique e (d ∷ es) h u = elim (Bool-cases (is_at e.section e.key d)) [
  | inl here ↦ absurd (ground (arith, here))
  | inr away ↦ (
    find-add_none e d.section d.key es u.0 (is_at_sym d e ∙ away),
    add-IsUnique e es (ground (arith, away)) u.1,
  )
]

assign-IsUnique : (s k v : Bytes) (es : Ini) → IsUnique es → IsUnique (assign s k v es)
unfolding IsUnique assign
assign-IsUnique s k v [] u = tt
assign-IsUnique s k v (e ∷ es) u = elim (Bool-cases (is_at s k e)) [
  | inl here ↦ rw here u
  | inr away ↦ rw away (find-assign-none s k v e.section e.key es u.0, assign-IsUnique s k v es u.1)
]

-- set keeps it that no two entries of a store name the same key.
pub set-IsUnique : (s k v : Bytes) (ini : Ini) → IsUnique ini → IsUnique (set s k v ini)
set-IsUnique s k v ini u = elim (Option-cases (find_entry s k ini)) [
  | inl none_there ↦
      rw (set_new s k v ini none_there)
        (add-IsUnique (record { section = s; key = k; value = v }) ini none_there u)
  | inr (e, there) ↦ rw (set_there s k v ini e there) (assign-IsUnique s k v ini u)
]

header_line-ini : (s : Bytes) (st : Loader) → (header_line s st).ini ≡ st.ini
unfolding header_line
header_line-ini s st = elim (Option-cases (find (b']' ∷ []) s)) [
  | inl open_ ↦ rw (open_, header_line) refl
  | inr (close, found) ↦ rw (found, header_line) refl
]

value_line-IsUnique : (s : Bytes) (st : Loader) → IsUnique st.ini → IsUnique (value_line s st).ini
unfolding value_line
value_line-IsUnique s st u = elim (Option-cases (find (b'=' ∷ []) s)) [
  | inl no_eq ↦ rw (no_eq, value_line) u
  | inr (eq, found) ↦ elim (Bool-cases (is_nil (trim (take eq s)))) [
    | inl no_key ↦ rw (found, value_line, no_key) u
    | inr key ↦
        rw (found, value_line, key)
          (set-IsUnique st.section (trim (take eq s)) (trim (drop (eq + 1) s)) st.ini u)
  ]
]

load_line-IsUnique : (raw : Bytes) (st : Loader) → IsUnique st.ini → IsUnique (load_line raw st).ini
unfolding load_line
load_line-IsUnique raw st u = elim (Bool-cases (is_comment (trim raw))) [
  | inl comment ↦ rw (comment, load_line) u
  | inr c ↦ elim (Bool-cases (is_header (trim raw))) [
    | inl header ↦
        rw (c, load_line, header) (subst IsUnique (sym (header_line-ini (trim raw) st)) u)
    | inr h ↦ rw (c, load_line, h) (value_line-IsUnique (trim raw) st u)
  ]
]

load_lines-IsUnique :
    (ls : List Bytes) (st : Loader) → IsUnique st.ini → IsUnique (load_lines ls st).ini
unfolding load_lines
load_lines-IsUnique [] st u = u
load_lines-IsUnique (l ∷ ls) st u =
    load_lines-IsUnique ls (load_line l st) (load_line-IsUnique l st u)

-- Whatever the file holds, load builds a store in which no two entries name the same key.
pub load_text-IsUnique : (text : Bytes) → IsUnique (load_text text)
unfolding load_text IsUnique
load_text-IsUnique text = load_lines-IsUnique (lines text) (record { section = []; ini = [] }) tt
