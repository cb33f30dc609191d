-- ===== src/Ini/Plain.antt =====
-- core/src/vc_ini.cpp: what load keeps of a file can be written by save as it stands.
use vericonnect_agent.Prelude.Ascii.{is_space}
use vericonnect_agent.Prelude.Search.{find, is_prefix, span, span-Stops, Stops}
use vericonnect_agent.Prelude.{
  ℕ, zero, suc, ◌+◌, ◌-◌, ◌≡◌, refl, ap, ◌∙◌, inl, inr, true, false, some, List, [], ◌∷◌, arith,
  Bytes, ◌==◌, Bool-cases, Option-cases, take, drop, is_nil, All, All-append, All-take, All-drop,
}
use vericonnect_agent.Ini.{
  Entry, Ini, Loader, trim, trim_left, trim_right, lines, push_line, load_line, load_lines, is_at,
  is_comment, is_header, header_line, value_line, find_entry, assign, set, get, load_text,
  save_text,
}
use vericonnect_agent.Ini.Lookup.{set_new, set_there}
use vericonnect_agent.Ini.Unique.{load_text-IsUnique}
use vericonnect_agent.Ini.Text.{Without, IsSection, IsKey, IsValue, IsPlain}
use vericonnect_agent.Ini.Trim.{
  trim-IsTrimmed, trim_right-Stops, trim-Without, find_byte-Without, trim-front,
}
use vericonnect_agent.Ini.RoundTrip.{load_text-save_text-get}

trim-IsKey :
    (s : Bytes) (eq : ℕ)
    → Stops is_space s
    → is_comment s ≡ false
    → is_header s ≡ false
    → Without b'\n' s
    → find (b'=' ∷ []) s ≡ some eq
    → is_nil (trim (take eq s)) ≡ false
    → IsKey (trim (take eq s))
unfolding trim trim_left trim_right span
trim-IsKey [] eq stop hc hh hn found key = absurd (cc)
trim-IsKey (c ∷ cs) zero stop hc hh hn found key = absurd (cc)
trim-IsKey (c ∷ cs) (suc n) stop hc hh hn found key = (
  trim-IsTrimmed (take (suc n) (c ∷ cs)),
  trim-Without b'=' (take (suc n) (c ∷ cs)) (find_byte-Without b'=' (c ∷ cs) (suc n) found),
  trim-Without b'\n' (take (suc n) (c ∷ cs))
      (All-take (λ x. (b'\n' == x) ≡ false) (suc n) (c ∷ cs) hn),
  ap is_comment (trim-front c (take n cs) stop) ∙ hc,
  ap is_header (trim-front c (take n cs) stop) ∙ hh,
)

trim-IsSection :
    (s : Bytes) (close : ℕ)
    → is_header s ≡ true
    → Without b'\n' s
    → find (b']' ∷ []) s ≡ some close
    → IsSection (trim (take (close - 1) (drop 1 s)))
unfolding find is_prefix
trim-IsSection [] close hh hn found = absurd (cc)
trim-IsSection (c ∷ cs) zero hh hn found = absurd (ground arith)
trim-IsSection (c ∷ cs) (suc i) hh hn found =
    let later : find (b']' ∷ []) cs ≡ some i = ground arith in
    let e : suc i - 1 ≡ i = omega arith in
    rw e (
      trim-IsTrimmed (take i cs),
      trim-Without b']' (take i cs) (find_byte-Without b']' cs i later),
      trim-Without b'\n' (take i cs) (All-take (λ x. (b'\n' == x) ≡ false) i cs hn.1),
    )

assign-All : (s k v : Bytes) (es : Ini) → IsValue v → All IsPlain es → All IsPlain (assign s k v es)
unfolding assign
assign-All s k v [] hv h = tt
assign-All s k v (e ∷ es) hv h = elim (Bool-cases (is_at s k e)) [
  | inl here ↦ rw here ((h.0.0, h.0.1, hv), h.1)
  | inr away ↦ rw away (h.0, assign-All s k v es hv h.1)
]

set-All :
    (s k v : Bytes) (ini : Ini)
    → IsSection s
    → IsKey k
    → IsValue v
    → All IsPlain ini
    → All IsPlain (set s k v ini)
set-All s k v ini hs hk hv h = elim (Option-cases (find_entry s k ini)) [
  | inl none_there ↦
      let e : Entry = record { section = s; key = k; value = v } in
      rw (set_new s k v ini none_there) (All-append IsPlain ini (e ∷ []) h ((hs, hk, hv), tt))
  | inr (e, there) ↦ rw (set_there s k v ini e there) (assign-All s k v ini hv h)
]

abbrev Settled : Loader → Type 0
Settled st = IsSection st.section × All IsPlain st.ini

header-Settled :
    (s : Bytes) (st : Loader)
    → is_header s ≡ true
    → Without b'\n' s
    → Settled st
    → Settled (header_line s st)
unfolding header_line
header-Settled s st hh hn h = elim (Option-cases (find (b']' ∷ []) s)) [
  | inl open_ ↦ rw (open_, header_line) h
  | inr (close, found) ↦ rw (found, header_line) (trim-IsSection s close hh hn found, h.1)
]

value-Settled :
    (s : Bytes) (st : Loader)
    → Stops is_space s
    → is_comment s ≡ false
    → is_header s ≡ false
    → Without b'\n' s
    → Settled st
    → Settled (value_line s st)
unfolding value_line
value-Settled s st stop hc hh hn h = elim (Option-cases (find (b'=' ∷ []) s)) [
  | inl no_eq ↦ rw (no_eq, value_line) h
  | inr (eq, found) ↦ elim (Bool-cases (is_nil (trim (take eq s)))) [
    | inl no_key ↦ rw (found, value_line, no_key) h
    | inr key ↦
        let value : IsValue (trim (drop (eq + 1) s)) = (
          trim-IsTrimmed (drop (eq + 1) s),
          trim-Without b'\n' (drop (eq + 1) s) (All-drop (λ x. (b'\n' == x) ≡ false) (eq + 1) s hn),
        ) in
        rw (found, value_line, key)
          (
            h.0,
            set-All st.section (trim (take eq s)) (trim (drop (eq + 1) s)) st.ini h.0
                (trim-IsKey s eq stop hc hh hn found key) value h.1,
          )
  ]
]

trim-Stops : (s : Bytes) → Stops is_space (trim s)
unfolding trim trim_left
trim-Stops s = trim_right-Stops (trim_left s) (span-Stops is_space s)

load_line-Settled :
    (raw : Bytes) (st : Loader) → Without b'\n' raw → Settled st → Settled (load_line raw st)
unfolding load_line
load_line-Settled raw st hn h = elim (Bool-cases (is_comment (trim raw))) [
  | inl comment ↦ rw (comment, load_line) h
  | inr c ↦ elim (Bool-cases (is_header (trim raw))) [
    | inl header ↦
        rw (c, load_line, header)
          (header-Settled (trim raw) st header (trim-Without b'\n' raw hn) h)
    | inr head ↦
        rw (c, load_line, head)
          (value-Settled (trim raw) st (trim-Stops raw) c head (trim-Without b'\n' raw hn) h)
  ]
]

push_line-Without :
    (c : ℕ) (ls : List Bytes)
    → (b'\n' == c) ≡ false
    → All (Without b'\n') ls
    → All (Without b'\n') (push_line c ls)
push_line-Without c [] hc h = ((hc, tt), tt)
push_line-Without c (l ∷ ls) hc h = ((hc, h.0), h.1)

lines-Without : (text : Bytes) → All (Without b'\n') (lines text)
unfolding lines
lines-Without [] = tt
lines-Without (c ∷ cs) = elim (Bool-cases (c == b'\n')) [
  | inl newline ↦ rw newline (tt, lines-Without cs)
  | inr other ↦ rw other (push_line-Without c (lines cs) (ground (arith, other)) (lines-Without cs))
]

load_lines-Settled :
    (ls : List Bytes) (st : Loader)
    → All (Without b'\n') ls
    → Settled st
    → Settled (load_lines ls st)
unfolding load_lines
load_lines-Settled [] st hn h = h
load_lines-Settled (l ∷ ls) st hn h =
    load_lines-Settled ls (load_line l st) hn.1 (load_line-Settled l st hn.0 h)

-- Whatever the file holds, the sections, keys and values that load keeps stand for themselves when
-- save writes them.
pub load_text-IsPlain : (text : Bytes) → All IsPlain (load_text text)
unfolding load_text trim_left trim_right span
load_text-IsPlain text =
    (load_lines-Settled (lines text) (record { section = []; ini = [] }) (lines-Without text)
      (((refl, refl), tt, tt), tt)).1

-- Loading any file, saving the store and loading that again gives a store in which every lookup
-- finds what it found in the first.
pub load_text-save_text-load_text :
    (text s k : Bytes) → get s k (load_text (save_text (load_text text))) ≡ get s k (load_text text)
load_text-save_text-load_text text s k =
    load_text-save_text-get (load_text text) s k (load_text-IsUnique text) (load_text-IsPlain text)
