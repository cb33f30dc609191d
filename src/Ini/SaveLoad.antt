-- ===== src/Ini/SaveLoad.antt =====
-- core/src/vc_ini.cpp: what load makes of the text that save writes, as calls of set.
use vericonnect_agent.Prelude.Search.{iequals}
use vericonnect_agent.Prelude.{
  ◌≡◌, refl, sym, ap, ◌∙◌, inl, inr, false, [], ◌∷◌, ◌++◌, append_assoc, Bytes, ◌==◌, if◌then◌else◌,
  Bool-cases, All, All-append,
}
use vericonnect_agent.Ini.{
  Entry, Ini, Loader, set, lines, load_lines, load_text, seen, save_entries, save_loop, save_text,
}
use vericonnect_agent.Ini.Text.{
  Without, IsSection, IsPlain, load-line, load_blank, load_header, load_value,
}

-- The calls of set that the lines of one section amount to.
unfoldable pub add_entries : Ini → Bytes → Ini → Ini
add_entries [] section ini = ini
add_entries (e ∷ es) section ini =
    add_entries es section
      (if iequals e.section section then set section e.key e.value ini else ini)

Without-append_eq :
    (k v : Bytes) → Without b'\n' k → Without b'\n' v → Without b'\n' (k ++ b'=' ∷ v)
Without-append_eq k v hk hv = All-append (λ x. (b'\n' == x) ≡ false) k (b'=' ∷ v) hk (refl, hv)

load_entry :
    (e : Entry) (more : Bytes) (st : Loader)
    → IsPlain e
    → load_lines (lines (e.key ++ b'=' ∷ (e.value ++ b'\n' ∷ more))) st
      ≡ load_lines
          (lines more)
          (record { section = st.section; ini = set st.section e.key e.value st.ini })
load_entry e more st h =
    ap (λ t. load_lines (lines t) st) (sym (append_assoc e.key (b'=' ∷ e.value) (b'\n' ∷ more)))
    ∙ load-line (e.key ++ b'=' ∷ e.value) more st (Without-append_eq e.key e.value h.1.2 h.2.1)
    ∙ ap (load_lines (lines more)) (load_value e.key e.value st h.1 h.2)

entry-append :
    (k v more rest : Bytes)
    → (k ++ b'=' ∷ (v ++ b'\n' ∷ more)) ++ rest ≡ k ++ b'=' ∷ (v ++ b'\n' ∷ (more ++ rest))
entry-append k v more rest =
    append_assoc k (b'=' ∷ (v ++ b'\n' ∷ more)) rest
    ∙ ap (λ t. k ++ b'=' ∷ t) (append_assoc v (b'\n' ∷ more) rest)

load_entries :
    (es : Ini) (section rest : Bytes) (ini : Ini)
    → All IsPlain es
    → load_lines (lines (save_entries es section ++ rest)) (record { section = section; ini = ini })
      ≡ load_lines (lines rest) (record { section = section; ini = add_entries es section ini })
unfolding save_entries add_entries
load_entries [] section rest ini h = refl
load_entries (e ∷ es) section rest ini h = elim (Bool-cases (iequals e.section section)) [
  | inr other ↦ rw other (load_entries es section rest ini h.1)
  | inl same ↦ rw same (
      ap (λ t. load_lines (lines t) (record { section = section; ini = ini }))
        (entry-append e.key e.value (save_entries es section) rest)
      ∙ load_entry e (save_entries es section ++ rest) (record { section = section; ini = ini }) h.0
      ∙ load_entries es section rest (set section e.key e.value ini) h.1)
]

-- The calls of set that the text of save amounts to.
unfoldable pub add_blocks : Ini → Ini → Ini → Ini → Ini
add_blocks entries before [] ini = ini
add_blocks entries before (e ∷ es) ini =
    add_blocks entries (before ++ e ∷ []) es
      (if seen before e.section then ini else add_entries entries e.section ini)

load_nothing : (st : Loader) → load_lines (lines []) st ≡ st
unfolding load_lines lines
load_nothing st = refl

load_block :
    (entries : Ini) (section rest : Bytes) (st : Loader)
    → IsSection section
    → All IsPlain entries
    → load_lines
        (lines (b'[' ∷ (section ++ b']' ∷ b'\n' ∷ (save_entries entries section ++ b'\n' ∷ rest))))
        st
      ≡ load_lines
          (lines rest)
          (record { section = section; ini = add_entries entries section st.ini })
load_block entries section rest st hs h =
    ap (λ t. load_lines (lines t) st)
      (sym (append_assoc (b'[' ∷ section) (b']' ∷ []) (b'\n' ∷ block)))
    ∙ load-line (b'[' ∷ (section ++ b']' ∷ [])) block st line
    ∙ ap (load_lines (lines block)) (load_header section st hs)
    ∙ load_entries entries section (b'\n' ∷ rest) st.ini h
    ∙ load-line [] rest after tt
    ∙ ap (load_lines (lines rest)) (load_blank after)
  where
    block : Bytes
    block = save_entries entries section ++ b'\n' ∷ rest

    after : Loader
    after = record { section = section; ini = add_entries entries section st.ini }

    line : Without b'\n' (b'[' ∷ (section ++ b']' ∷ []))
    line = (refl, All-append (λ x. (b'\n' == x) ≡ false) section (b']' ∷ []) hs.2 (refl, tt))

load_loop :
    (entries before es : Ini) (st : Loader)
    → All IsPlain entries
    → All IsPlain es
    → (load_lines (lines (save_loop entries before es)) st).ini
      ≡ add_blocks entries before es st.ini
unfolding save_loop add_blocks
load_loop entries before [] st h k = ap (λ x. x.ini) (load_nothing st)
load_loop entries before (e ∷ es) st h k = elim (Bool-cases (seen before e.section)) [
  | inl again ↦ rw again (load_loop entries (before ++ e ∷ []) es st h k.1)
  | inr first ↦
      let after : Loader = record {
        section = e.section;
        ini = add_entries entries e.section st.ini;
      } in
      let rest = save_loop entries (before ++ e ∷ []) es in
      rw first (
        ap (λ x. x.ini) (load_block entries e.section rest st k.0.0 h)
        ∙ load_loop entries (before ++ e ∷ []) es after h k.1)
]

-- The store that is read back, as a sequence of calls of set.
pub load_text-save_text :
    (ini : Ini) → All IsPlain ini → load_text (save_text ini) ≡ add_blocks ini [] ini []
unfolding load_text save_text
load_text-save_text ini h = load_loop ini [] ini (record { section = []; ini = [] }) h h
