-- ===== src/Relay/Response.antt =====
-- core/src/vc_relay.cpp: what the service reads in the message of a response.
use vericonnect_agent.Common.{ok}
use vericonnect_agent.Prelude.Search.{iequals}
use vericonnect_agent.Json.{
  Json, boolean, string, object, Members, member, no_member, dump, set_key, find_ci, get_str,
  get_num, get_flag,
}
use vericonnect_agent.Json.Parse.{parse, max_depth}
use vericonnect_agent.Json.Parse.Printed.{depth, IsPrintable, IsPrintableMembers, ReadsBack}
use vericonnect_agent.Json.Parse.RoundTrip.{parse-dump}
use vericonnect_agent.Relay.{RelayResponse, response_fields, build_response_msg}
use vericonnect_agent.Prelude.{
  ℕ, ◌≤◌, ◌<◌, ◌≡◌, refl, sym, inl, inr, Bool, true, not, Option, some, [], ◌∷◌, arith, Bytes,
  codes, if◌then◌else◌, Bool-cases, is_nil, All, ℤ, pos,
}

abbrev type_of : RelayResponse → Bytes
type_of resp = if is_nil resp.content_type then codes "application/json" else resp.content_type

nil_of_is_nil : (s : Bytes) → is_nil s ≡ true → s ≡ []
nil_of_is_nil [] h = refl
nil_of_is_nil (c ∷ cs) h = cc

abbrev AreBytes : Bytes → Type 0
AreBytes = All (λ c. c < 256)

module _ {D : Type 0} (of_int : ℤ → D) (id : Bytes) (resp : RelayResponse) (has_body : Bool) where
  -- The service finds the request's id, the status, the description, the content type and the flag.
  abbrev pub IsResponse : Json D → Type 0
  IsResponse r =
      (get_str r (codes "requestId") [] ≡ id)
      × (get_num r (codes "statusCode") (of_int (pos 0)) ≡ of_int resp.status_code)
      × (get_str r (codes "statusDescription") [] ≡ resp.status_desc)
      × ((hdrs : Json D) × (find_ci r (codes "responseHeaders") ≡ some hdrs)
          × (get_str hdrs (codes "content-type") [] ≡ type_of resp))
      × (get_flag r (codes "body") (not has_body) ≡ has_body)

  fields-IsResponse : IsResponse (response_fields of_int id resp has_body)
  unfolding response_fields set_key get_str get_num get_flag find_ci iequals
  fields-IsResponse = elim (Bool-cases (is_nil resp.status_desc)) [
    | inl y ↦
        rw (response_fields, y)
          (refl, refl, sym (nil_of_is_nil resp.status_desc y), (_, refl, refl), refl)
    | inr n ↦ rw (response_fields, n) (refl, refl, refl, (_, refl, refl), refl)
  ]

  message-depth : depth (build_response_msg of_int id resp has_body) ≤ max_depth
  unfolding build_response_msg response_fields set_key depth
  message-depth = elim (Bool-cases (is_nil resp.status_desc)) [
    | inl y ↦ rw (response_fields, y) (omega arith)
    | inr n ↦ rw (response_fields, n) (omega arith)
  ]

module _ {D : Type 0} (write_number : D → Bytes) (strtod : Bytes → Option (D × ℕ)) (of_int : ℤ → D)
    (id : Bytes) (resp : RelayResponse) (has_body : Bool) where
  message-IsPrintable :
      AreBytes id
      → AreBytes resp.status_desc
      → AreBytes resp.content_type
      → ReadsBack write_number strtod (of_int resp.status_code)
      → IsPrintable write_number strtod (build_response_msg of_int id resp has_body)
  unfolding build_response_msg response_fields set_key
  message-IsPrintable i d t n =
      let rest : Members D =
        member (codes "responseHeaders")
          (object (member (codes "Content-Type") (string (type_of resp)) no_member))
          (member (codes "body") (boolean has_body) no_member) in
      let type : AreBytes (type_of resp) = elim (Bool-cases (is_nil resp.content_type)) [
        | inl y ↦ rw y (omega arith)
        | inr m ↦ rw m t
      ] in
      let tail : IsPrintableMembers write_number strtod rest =
        (omega arith, (omega arith, type, tt), (omega arith, tt, tt)) in
      elim (Bool-cases (is_nil resp.status_desc)) [
        | inl y ↦
            rw (response_fields, y) (omega arith, (omega arith, i, (omega arith, n, tail)), tt)
        | inr m ↦
            rw (response_fields, m)
              (omega arith, (omega arith, i, (omega arith, n, (omega arith, d, tail))), tt)
      ]

-- The service reads the message of a response back as it was built, and finds in its member
-- "response" the request's id, the status, the description, the content type, which is
-- application/json where the handler gave none, and whether a body follows; the texts are of bytes
-- and the status is a number that strtod reads back.
pub build_response_msg-IsResponse :
    {D : Type 0} (write_number : D → Bytes) (strtod : Bytes → Option (D × ℕ)) (of_int : ℤ → D)
    (id : Bytes) (resp : RelayResponse) (has_body : Bool)
    → AreBytes id
    → AreBytes resp.status_desc
    → AreBytes resp.content_type
    → ReadsBack write_number strtod (of_int resp.status_code)
    → (root r : Json D) × (parse strtod
          (dump write_number (build_response_msg of_int id resp has_body))
        ≡ ok root)
      × (find_ci root (codes "response") ≡ some r)
      × IsResponse of_int id resp has_body r
unfolding build_response_msg set_key find_ci iequals
build_response_msg-IsResponse write_number strtod of_int id resp has_body i d t n = (
  build_response_msg of_int id resp has_body,
  response_fields of_int id resp has_body,
  parse-dump write_number strtod _ (message-depth of_int id resp has_body)
      (message-IsPrintable write_number strtod of_int id resp has_body i d t n),
  refl,
  fields-IsResponse of_int id resp has_body,
)
