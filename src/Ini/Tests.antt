-- ===== src/Ini/Tests.antt =====
-- Concrete runs of core/src/vc_ini.cpp, and the theorems of this folder at concrete inputs.
use vericonnect_agent.Prelude.Search.{span, iequals}
use vericonnect_agent.Prelude.{
  ◌≡◌, refl, sym, ap, subst, true, false, some, [], ◌∷◌, Bytes, codes, All,
}
use vericonnect_agent.Common.{ok}
use vericonnect_agent.Ini.{Ini, get, set, load_text, save_text, load, save, get_bool, is_at}
use vericonnect_agent.Ini.Lookup.{get-set, same_key}
use vericonnect_agent.Ini.Unique.{IsUnique, load_text-IsUnique}
use vericonnect_agent.Ini.Text.{IsPlain}
use vericonnect_agent.Ini.Plain.{load_text-IsPlain, load_text-save_text-load_text}
use vericonnect_agent.Ini.Files.{Files, ReadsBack, load-save}

abbrev file_text : Bytes
file_text = codes "; c\n[Relay]\n Uri = sb://x \nkey=\n\n[log]\nLevel=3\n[RELAY]\nuri=b"

file_loaded :
    load_text file_text
    ≡ record { section = codes "Relay"; key = codes "Uri"; value = codes "b" }
      ∷ record { section = codes "Relay"; key = codes "key"; value = [] }
      ∷ record { section = codes "log"; key = codes "Level"; value = codes "3" }
      ∷ []
unfolding load_text span is_at iequals
file_loaded = refl

abbrev store : Ini
store =
    record { section = codes "Relay"; key = codes "Uri"; value = codes "b" }
    ∷ record { section = codes "log"; key = codes "Level"; value = codes "3" }
    ∷ record { section = codes "RELAY"; key = codes "On"; value = codes "yes" }
    ∷ []

store_saved : save_text store ≡ codes "[Relay]\nUri=b\nOn=yes\n\n[log]\nLevel=3\n\n"
unfolding save_text iequals
store_saved = refl

store-on : get_bool (codes "relay") (codes "ON") false store ≡ true
unfolding get_bool is_at iequals
store-on = refl

store_loaded : load_text (codes "[Relay]\nUri=b\n[log]\nLevel=3\n[RELAY]\nOn=yes") ≡ store
unfolding load_text span is_at iequals
store_loaded = refl

store-IsUnique : IsUnique store
store-IsUnique = subst IsUnique store_loaded (load_text-IsUnique _)

store-IsPlain : All IsPlain store
store-IsPlain = subst (All IsPlain) store_loaded (load_text-IsPlain _)

get-set_example :
    get (codes "LOG") (codes "level") (set (codes "log") (codes "Level") (codes "4") store)
    ≡ some (codes "4")
unfolding same_key iequals
get-set_example =
    get-set (codes "log") (codes "Level") (codes "4") (codes "LOG") (codes "level") store

load_text-save_text-load_text_example :
    get (codes "RELAY") (codes "URI") (load_text (save_text (load_text file_text)))
    ≡ get (codes "RELAY") (codes "URI") (load_text file_text)
load_text-save_text-load_text_example =
    load_text-save_text-load_text file_text (codes "RELAY") (codes "URI")

-- A disk with one file, which is whatever was written last.
abbrev one_file : Files Bytes
one_file = record { read_all = λ path w. ok w; write_all = λ path data_ w. (ok tt, data_) }

one_file-ReadsBack : ReadsBack one_file
one_file-ReadsBack path data_ w w' h = ap ok (sym (ap (λ p. p.1) h))

load-save_example :
    (ini' : Ini) × (load (λ p. one_file.read_all p (save_text store)) (codes "s") ≡ ok ini')
    × ((s k : Bytes) → get s k ini' ≡ get s k store)
unfolding save
load-save_example =
    load-save one_file (codes "s") store [] (save_text store) one_file-ReadsBack store-IsUnique
      store-IsPlain refl
