-- ===== src/Ini.antt =====
-- core/include/vc/vc_ini.h and core/src/vc_ini.cpp: the INI store behind Settings.ini. Entries
-- are kept in insertion order; sections and keys compare without case.
mod Lookup
pub mod Unique
pub mod Text
mod SaveLoad
mod RoundTrip
mod Trim
pub mod Plain
pub mod Files
pub mod Getters
mod Tests
use mathlib.Core.Option
use vericonnect_agent.Prelude.Ascii.{is_space}
use vericonnect_agent.Prelude.Search.{find, span, iequals}
use vericonnect_agent.Common.{int_to_string, Result, Status, ok, ◌>>=◌, parse_uint, to_string}
use vericonnect_agent.Prelude.{
  ℕ, suc, ◌+◌, ◌-◌, inl, inr, Bool, true, false, not, ◌&&◌, ◌||◌, Option, none, some, List, [], ◌∷◌,
  ◌++◌, map, arith, Bytes, codes, ◌==◌, if◌then◌else◌, tests, take, drop, is_nil, ℤ, pos, negsuc,
}

-- Ini::Entry
pub record Entry : Type 0 where
  pub section : Bytes
  pub key : Bytes
  pub value : Bytes

-- The member entries_ of an Ini.
abbrev pub Ini : Type 0
Ini = List Entry

-- The condition of both overloads of Ini::find.
unfoldable pub is_at : Bytes → Bytes → Entry → Bool
is_at section key e = iequals e.section section && iequals e.key key

-- Ini::find, the const overload: the first entry that matches.
unfoldable pub find_entry : Bytes → Bytes → Ini → Option Entry
find_entry section key [] = none
find_entry section key (e ∷ es) =
    let rest = find_entry section key es in if is_at section key e then some e else rest

-- `e->value.assign(value)` on the entry that Ini::find points to.
unfoldable pub assign : Bytes → Bytes → Bytes → Ini → Ini
assign section key value [] = []
assign section key value (e ∷ es) =
    let rest = assign section key value es in
    if is_at section key e
    then record { section = e.section; key = e.key; value = value } ∷ es
    else e ∷ rest

unfoldable pub get : Bytes → Bytes → Ini → Option Bytes
unfolding find_entry
get section key ini = Option.map (λ e. e.value) (find_entry section key ini)

unfoldable pub set : Bytes → Bytes → Bytes → Ini → Ini
unfolding find_entry assign
set section key value ini = elim (find_entry section key ini) [
  | some e ↦ assign section key value ini
  | none ↦ ini ++ record { section = section; key = key; value = value } ∷ []
]

-- The value that get_int and get_bool look at: none where they return the default.
unfoldable pub present : Bytes → Bytes → Ini → Option Bytes
unfolding get
present section key ini = elim (get section key ini) [
  | none ↦ none
  | some v ↦ if is_nil v then none else some v
]

unfoldable pub get_int : Bytes → Bytes → ℤ → Ini → ℤ
unfolding present parse_uint
get_int section key def_ ini = elim (present section key ini) [
  | none ↦ def_
  | some v ↦ elim (parse_uint v 0x7FFFFFFF 10) [ none ↦ def_ | some n ↦ pos n ]
]

abbrev pub is_yes : Bytes → Bool
is_yes v =
    iequals v (codes "1")
    || iequals v (codes "true")
    || iequals v (codes "yes")
    || iequals v (codes "on")

unfoldable pub get_bool : Bytes → Bytes → Bool → Ini → Bool
unfolding present
get_bool section key def_ ini = elim (present section key ini) [ none ↦ def_ | some v ↦ is_yes v ]

unfoldable pub set_int : Bytes → Bytes → ℤ → Ini → Ini
unfolding set int_to_string
set_int section key value ini = set section key (int_to_string value) ini

-- The two loops of trim.
unfoldable pub trim_left : Bytes → Bytes
trim_left s = (span is_space s).1

unfoldable pub trim_right : Bytes → Bytes
trim_right [] = []
trim_right (c ∷ cs) = let rest = trim_right cs in if is_nil rest && is_space c then [] else c ∷ rest

unfoldable pub trim : Bytes → Bytes
unfolding trim_left trim_right
trim s = trim_right (trim_left s)

-- The texts between newlines, as the loop of load cuts them: a newline at the end starts no line.
abbrev pub push_line : ℕ → List Bytes → List Bytes
push_line c [] = (c ∷ []) ∷ []
push_line c (l ∷ ls) = (c ∷ l) ∷ ls

unfoldable pub lines : Bytes → List Bytes
lines [] = []
lines (c ∷ cs) = let rest = lines cs in if c == b'\n' then [] ∷ rest else push_line c rest

-- The locals of load: `section` and `ini`.
pub record Loader : Type 0 where
  pub section : Bytes
  pub ini : Ini

abbrev pub is_comment : Bytes → Bool
is_comment [] = true
is_comment (c ∷ cs) = c == b';' || c == b'#'

abbrev pub is_header : Bytes → Bool
is_header [] = false
is_header (c ∷ cs) = c == b'['

-- `[section]`; without a closing bracket the line is passed over.
unfoldable pub header_line : Bytes → Loader → Loader
unfolding trim find
header_line s st = elim (find (b']' ∷ []) s) [
  | none ↦ st
  | some close ↦ record { section = trim (take (close - 1) (drop 1 s)); ini = st.ini }
]

-- `key = value`; without an equals sign or a key the line is passed over.
unfoldable pub value_line : Bytes → Loader → Loader
unfolding trim find set
value_line s st = elim (find (b'=' ∷ []) s) [
  | none ↦ st
  | some eq ↦
      if not (is_nil (trim (take eq s)))
      then record {
        section = st.section;
        ini = set st.section (trim (take eq s)) (trim (drop (eq + 1) s)) st.ini;
      }
      else st
]

-- One round of the loop of load.
unfoldable pub load_line : Bytes → Loader → Loader
unfolding trim header_line value_line
load_line raw st =
    if is_comment (trim raw)
    then st
    else if is_header (trim raw)
    then header_line (trim raw) st
    else value_line (trim raw) st

unfoldable pub load_lines : List Bytes → Loader → Loader
unfolding load_line
load_lines [] st = st
load_lines (l ∷ ls) st = load_lines ls (load_line l st)

unfoldable pub load_text : Bytes → Ini
unfolding load_lines lines
load_text text = (load_lines (lines text) (record { section = []; ini = [] })).ini

-- Ini::load over fs::read_all.
unfoldable pub load : (Bytes → Result Bytes) → Bytes → Result Ini
unfolding load_text
load read_all path = read_all path >>= λ data_. ok (load_text data_)

-- The loop over `j` of save.
unfoldable pub seen : Ini → Bytes → Bool
seen [] section = false
seen (e ∷ es) section = iequals e.section section || seen es section

-- The lines of one section.
unfoldable pub save_entries : Ini → Bytes → Bytes
save_entries [] section = []
save_entries (e ∷ es) section =
    let rest = save_entries es section in
    if iequals e.section section then e.key ++ b'=' ∷ (e.value ++ b'\n' ∷ rest) else rest

-- The loop over `i` of save: `before` are the entries it has passed.
unfoldable pub save_loop : Ini → Ini → Ini → Bytes
unfolding seen save_entries
save_loop entries before [] = []
save_loop entries before (e ∷ es) =
    let rest = save_loop entries (before ++ e ∷ []) es in
    if seen before e.section
    then rest
    else b'[' ∷ (e.section ++ b']' ∷ b'\n' ∷ (save_entries entries e.section ++ b'\n' ∷ rest))

unfoldable pub save_text : Ini → Bytes
unfolding save_loop
save_text ini = save_loop ini [] ini

-- Ini::save over fs::write_all, which changes the world.
unfoldable pub save {ℓ} :
    {W : Type ℓ} → (Bytes → Bytes → W → Status × W) → Bytes → Ini → W → Status × W
unfolding save_text
save write_all path ini w = write_all path (save_text ini) w
