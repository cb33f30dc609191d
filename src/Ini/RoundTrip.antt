-- ===== src/Ini/RoundTrip.antt =====
-- core/src/vc_ini.cpp: what lookups find in a store that was saved and loaded.
use vericonnect_agent.Prelude.Search.{iequals, iequals_sym, iequals_trans}
use vericonnect_agent.Prelude.{
  or_else_none, ◌or_else◌, ◌≡◌, refl, sym, ap, ◌∙◌, inl, inr, Bool, true, false, ◌||◌, Option, none,
  some, [], ◌∷◌, ◌++◌, arith, Bytes, if◌then◌else◌, Bool-cases, All,
}
use vericonnect_agent.Ini.{Entry, Ini, is_at, find_entry, get, set, load_text, seen, save_text}
use vericonnect_agent.Ini.Lookup.{get-cons, get-set, same_key}
use vericonnect_agent.Ini.Unique.{IsUnique}
use vericonnect_agent.Ini.Text.{IsPlain}
use vericonnect_agent.Ini.SaveLoad.{add_entries, add_blocks, load_text-save_text}

-- The value of the last entry that a key finds.
unfoldable pub last_get : Bytes → Bytes → Ini → Option Bytes
last_get s k [] = none
last_get s k (e ∷ es) = last_get s k es or_else (if is_at s k e then some e.value else none)

-- What the calls of set for a section change of a lookup.
get-add_entries :
    (es : Ini) (section : Bytes) (ini : Ini) (s k : Bytes)
    → get s k (add_entries es section ini)
      ≡ (if iequals section s then last_get s k es or_else get s k ini else get s k ini)
unfolding add_entries last_get is_at same_key
get-add_entries [] section ini s k = ground arith
get-add_entries (e ∷ es) section ini s k = elim (Bool-cases (iequals e.section section)) [
  | inl same ↦
      rw
        (
          same,
          get-add_entries es section (set section e.key e.value ini) s k,
          get-set section e.key e.value s k ini,
        )
        (ground (arith, iequals_trans e.section section s same))
  | inr other ↦
      rw (other, get-add_entries es section ini s k)
        (ground (
          arith,
          iequals_sym section s,
          iequals_sym e.section s,
          iequals_trans section s e.section,
          iequals_sym section e.section,
        ))
]

seen-add :
    (before : Ini) (e : Entry) (s : Bytes)
    → seen (before ++ e ∷ []) s ≡ (seen before s || iequals e.section s)
unfolding seen
seen-add [] e s = ground arith
seen-add (d ∷ before) e s = ground (arith, seen-add before e s)

seen-same : (before : Ini) (s t : Bytes) → iequals s t ≡ true → seen before s ≡ seen before t
unfolding seen
seen-same [] s t h = refl
seen-same (d ∷ before) s t h = ground (
  arith,
  seen-same before s t h,
  iequals_sym d.section s,
  iequals_sym d.section t,
  iequals_trans s t d.section h,
)

get-add_blocks :
    (entries before es ini : Ini) (s k : Bytes)
    → get s k (add_blocks entries before es ini) ≡ (
        if seen before s
        then get s k ini
        else if seen es s
        then last_get s k entries or_else get s k ini
        else get s k ini)
unfolding add_blocks seen
get-add_blocks entries before [] ini s k = ground arith
get-add_blocks entries before (e ∷ es) ini s k = elim (Bool-cases (seen before e.section)) [
  | inl again ↦
      rw (again, get-add_blocks entries (before ++ e ∷ []) es ini s k, seen-add)
        (ground (arith, seen-same before e.section s))
  | inr first ↦
      rw
        (
          first,
          get-add_blocks entries (before ++ e ∷ []) es (add_entries entries e.section ini) s k,
          seen-add,
          get-add_entries,
        )
        (ground (arith, seen-same before e.section s))
]

last_get-unseen : (s k : Bytes) (es : Ini) → seen es s ≡ false → last_get s k es ≡ none
unfolding last_get seen is_at
last_get-unseen s k [] h = refl
last_get-unseen s k (e ∷ es) h = ground (arith, last_get-unseen s k es)

-- A lookup by a key that names an entry finds what the entry's own key finds.
find_entry-same :
    (s k : Bytes) (e : Entry) (es : Ini)
    → is_at s k e ≡ true
    → find_entry s k es ≡ find_entry e.section e.key es
unfolding find_entry is_at
find_entry-same s k e [] h = refl
find_entry-same s k e (d ∷ es) h = ground (
  arith,
  find_entry-same s k e es h,
  iequals_sym d.section s,
  iequals_sym d.key k,
  iequals_sym d.section e.section,
  iequals_sym d.key e.key,
  iequals_trans e.section s d.section,
  iequals_trans e.key k d.key,
)

get-of_none : (s k : Bytes) (es : Ini) → find_entry s k es ≡ none → get s k es ≡ none
unfolding get
get-of_none s k es h = rw (h, get) refl

-- Where no two entries name the same key, the last entry found is the first one.
last_get-get : (s k : Bytes) (es : Ini) → IsUnique es → last_get s k es ≡ get s k es
unfolding last_get IsUnique find_entry
last_get-get s k [] u = sym (get-of_none s k [] refl)
last_get-get s k (e ∷ es) u = elim (Bool-cases (is_at s k e)) [
  | inl here ↦
      let gone = get-of_none s k es (find_entry-same s k e es here ∙ u.0) in
      rw (here, last_get-get s k es u.1, gone, get-cons, here) refl
  | inr away ↦ rw (away, last_get-get s k es u.1, get-cons, away) (ground arith)
]

get_nil : (s k : Bytes) → get s k [] ≡ none
unfolding get find_entry
get_nil s k = refl

-- For a store in which no two entries name the same key and whose sections, keys and values stand
-- for themselves in a file: every lookup in what load reads back from the text of save gives what
-- it gave before.
pub load_text-save_text-get :
    (ini : Ini) (s k : Bytes)
    → IsUnique ini
    → All IsPlain ini
    → get s k (load_text (save_text ini)) ≡ get s k ini
unfolding seen
load_text-save_text-get ini s k u h =
    ap (get s k) (load_text-save_text ini h)
    ∙ get-add_blocks ini [] ini [] s k
    ∙ chosen (seen ini s) refl
  where
    nothing : get s k [] ≡ none
    nothing = get_nil s k

    chosen :
        (b : Bool)
        → seen ini s ≡ b
        → (if seen [] s
            then get s k []
            else if b
            then last_get s k ini or_else get s k []
            else get s k [])
          ≡ get s k ini
    chosen true h = rw (nothing, last_get-get s k ini u) (or_else_none (get s k ini))
    chosen false h = rw nothing (sym (last_get-unseen s k ini h) ∙ last_get-get s k ini u)
