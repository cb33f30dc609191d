-- ===== src/Json/Access.antt =====
-- core/src/vc_json.cpp: what find and find_ci see of what set adds.
use vericonnect_agent.Json.{
  Json, Members, object, member, no_member, find_member, find_key, find_ci, same_text, set_key,
  add_member, size, count_members,
}
use vericonnect_agent.Prelude.Search.{iequals}
use vericonnect_agent.Prelude.{
  ◌or_else◌, ◌+◌, ◌≡◌, refl, inl, inr, Bool, none, some, arith, Bytes, if◌then◌else◌, Bool-cases,
}

find_member-add :
    {D : Type 0} (same : Bytes → Bytes → Bool) (key k : Bytes) (v : Json D) (ms : Members D)
    → find_member same key (add_member ms k v)
      ≡ find_member same key ms or_else (if same k key then some v else none)
unfolding find_member add_member
find_member-add same key k v no_member = refl
find_member-add same key k v (member k' w ms) = elim (Bool-cases (same k' key)) [
  | inl here ↦ rw here refl
  | inr away ↦ rw away (find_member-add same key k v ms)
]

count-add :
    {D : Type 0} (k : Bytes) (v : Json D) (ms : Members D)
    → count_members (add_member ms k v) ≡ count_members ms + 1
unfolding count_members add_member
count-add k v no_member = omega arith
count-add k v (member k' w ms) = omega (arith, count-add k v ms)

-- On an object, a member that set adds is found by its key, in any case by find_ci, unless an
-- earlier member is; what was found before stays found; and the object has one member more.
pub set_key_lem :
    {D : Type 0} (ms : Members D) (k key : Bytes) (v : Json D)
    → (find_ci (set_key (object ms) k v) key
        ≡ find_ci (object ms) key or_else (if iequals k key then some v else none))
      × (find_key (set_key (object ms) k v) key
          ≡ find_key (object ms) key or_else (if same_text k key then some v else none))
      × (size (set_key (object ms) k v) ≡ size (object ms) + 1)
unfolding find_ci find_key set_key size
set_key_lem ms k key v =
    (find_member-add iequals key k v ms, find_member-add same_text key k v ms, count-add k v ms)
