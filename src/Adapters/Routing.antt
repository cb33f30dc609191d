-- ===== src/Adapters/Routing.antt =====
-- core/src/vc_adapter.cpp: which adapter dispatch runs, and as whom.
use vericonnect_agent.Common.{
  ok, ErrorCode, fail, no_mem, invalid_arg, not_found, io, timeout, closed, protocol, tls, exists,
  unsupported,
}
use vericonnect_agent.Fs.{Files}
use vericonnect_agent.Json.{
  write_number, Numbers, Json, number, string, object, no_member, get_str, find_ci, set_key, dump,
}
use vericonnect_agent.Json.Parse.{parse}
use vericonnect_agent.Log.{info, error as error_level}
use vericonnect_agent.Adapters.{
  Plugins, Adapter, Begun, begun, refused, c_str, find_adapter, user_credentials, names_of,
  credentials, route, json_error, or_empty, run, result_or_error, refusal, run_begun, run_as,
  dispatch,
}
use vericonnect_agent.Prelude.Search.{iequals}
use vericonnect_agent.Prelude.{
  ℕ, ◌≡◌, refl, ap, ◌∙◌, ◌⊎◌, inl, inr, true, false, Option, none, some, List, [], ◌∷◌, ◌++◌, Bytes,
  codes, is_nil, All,
}

find_adapter-append :
    {Lib : Type 0} (before after : List (Adapter Lib)) (ad : Adapter Lib) (id : Bytes)
    → All (λ x. iequals x.id id ≡ false) before
    → iequals ad.id id ≡ true
    → find_adapter (before ++ ad ∷ after) id ≡ some ad
unfolding find_adapter
find_adapter-append [] after ad id others h = rw h refl
find_adapter-append (x ∷ before) after ad id others h =
    rw others.0 (find_adapter-append before after ad id others.1 h)

-- The user of a credentials object.
abbrev pub Names : {D : Type 0} → Json D → Bytes → Bytes → Bytes → Type 0
Names uc user domain pass =
    (get_str uc (codes "Username") [] ≡ user)
    × (get_str uc (codes "Domain") [] ≡ domain)
    × (get_str uc (codes "Password") [] ≡ pass)

-- The member "Parameters" is not there, or has no credentials.
abbrev pub NoNested : {D : Type 0} → Json D → Type 0
NoNested {D} root =
    (find_ci root (codes "Parameters") ≡ none)
    ⊎ ((params : Json D) × (find_ci root (codes "Parameters") ≡ some params)
        × (find_ci params (codes "UserCredentials") ≡ none))

-- The user that a request asks for: by "UserCredentials" in its "Parameters", else at the top level,
-- and none, which is the empty name, where there is neither.
abbrev pub AsksFor : {D : Type 0} → Json D → Bytes → Bytes → Bytes → Type 0
AsksFor {D} root user domain pass =
    ((params uc : Json D) × (find_ci root (codes "Parameters") ≡ some params)
      × (find_ci params (codes "UserCredentials") ≡ some uc)
      × Names uc user domain pass)
    ⊎ ((NoNested root
          × ((uc : Json D) × (find_ci root (codes "UserCredentials") ≡ some uc)
              × Names uc user domain pass))
        ⊎ (NoNested root
            × (find_ci root (codes "UserCredentials") ≡ none)
            × (user ≡ [])
            × (domain ≡ [])
            × (pass ≡ [])))

names_of-Names :
    {D : Type 0} (uc : Json D) (user domain pass : Bytes)
    → Names uc user domain pass
    → names_of (some uc) ≡ (user, domain, pass)
names_of-Names uc user domain pass h = rw (h.0, h.1, h.2) refl

top_level :
    {D : Type 0} (root : Json D)
    → NoNested root
    → user_credentials root ≡ find_ci root (codes "UserCredentials")
top_level root (inl h) = rw (user_credentials, h) refl
top_level root (inr h) = rw (user_credentials, h.1, h.2) refl

nested :
    {D : Type 0} (root params uc : Json D)
    → find_ci root (codes "Parameters") ≡ some params
    → find_ci params (codes "UserCredentials") ≡ some uc
    → user_credentials root ≡ some uc
nested root params uc h k = rw (user_credentials, h, k) refl

nobody :
    {D : Type 0} (root : Json D) (user domain pass : Bytes)
    → user ≡ []
    → domain ≡ []
    → pass ≡ []
    → ◌≡◌ {A = Bytes × Bytes × Bytes} ([], [], []) (user, domain, pass)
nobody root user domain pass h k m = rw (h, k, m) refl

credentials_lem :
    {D : Type 0} (root : Json D) (user domain pass : Bytes)
    → AsksFor root user domain pass
    → credentials (ok root) ≡ (user, domain, pass)
unfolding credentials
credentials_lem root user domain pass (inl h) =
    ap names_of (nested root h.0 h.1 h.2 h.3) ∙ names_of-Names h.1 user domain pass h.4
credentials_lem root user domain pass (inr (inl h)) =
    ap names_of (top_level root h.0 ∙ h.1.1) ∙ names_of-Names h.1.0 user domain pass h.1.2
credentials_lem root user domain pass (inr (inr h)) =
    ap names_of (top_level root h.0 ∙ h.1) ∙ nobody root user domain pass h.2 h.3 h.4

module _ {D : Type 0} (fs : Files) (num : Numbers D) (plugins : Plugins fs) where
  -- The text of an object with this status and this description.
  unfoldable pub Reports : ℕ → Bytes → Bytes → Type 0
  Reports code desc out =
      (root : Json D) × (out ≡ dump (write_number num.double) root)
      × (find_ci root (codes "StatusCode") ≡ some (number (num.of_nat code)))
      × (find_ci root (codes "StatusDescription") ≡ some (string desc))

  -- What the command of an adapter gives is the answer; a null pointer and an empty text are an error.
  abbrev pub Answers : Option Bytes → Bytes → Type 0
  Answers none out = Reports 500 (codes "Adapter returned no result") out
  Answers (some []) out = Reports 500 (codes "Adapter returned no result") out
  Answers (some (c ∷ raw)) out = out ≡ c ∷ raw

  -- The command of the library is run on the request, and nothing else is called.
  abbrev pub Ran : plugins.Lib → Bytes → fs.World → Bytes × fs.World → Type 0
  Ran lib request w r =
      Answers (plugins.run_command lib (c_str request) w).0 r.0
      × (r.1 ≡ (plugins.run_command lib (c_str request) w).1)

  -- The status that tells of a refused logon, which the platform may not support at all.
  abbrev pub RefusalCode : ErrorCode → ℕ → Type 0
  RefusalCode unsupported code = code ≡ 501
  RefusalCode _ code = code ≡ 403

  -- Behind the begin of an impersonation: a refusal is reported and logged and nothing is run; else the
  -- library is run, between a line of the log and the end of the impersonation.
  abbrev pub RanBegun :
      plugins.Lib → Bytes → Bytes → Begun plugins.Token → fs.World → Bytes × fs.World → Type 0
  RanBegun lib request user (refused e) w r =
      ((code : ℕ) × RefusalCode e.code.code code × Reports code e.message r.0)
      × ((msg : Bytes) × (r.1 ≡ plugins.log error_level msg w))
  RanBegun lib request user (begun token) w r =
      (msg : Bytes) × ((v : fs.World) × Ran lib request (plugins.log info msg w) (r.0, v)
        × (r.1 ≡ plugins.revert token v))

  -- The library is run as the user, where one is named.
  abbrev pub RanAs :
      plugins.Lib → Bytes → Bytes → Bytes → Bytes → fs.World → Bytes × fs.World → Type 0
  RanAs lib request [] domain pass w r = Ran lib request w r
  RanAs lib request (c ∷ user) domain pass w r =
      RanBegun lib request (c ∷ user) (plugins.begin (c ∷ user) domain pass w).0
        (plugins.begin (c ∷ user) domain pass w).1 r

  json_error-Reports :
      (code : ℕ) (desc : Bytes) → Reports code desc (json_error fs num plugins code desc)
  unfolding Reports json_error set_key find_ci iequals
  json_error-Reports code desc = (
    set_key (set_key (object no_member) (codes "StatusCode") (number (num.of_nat code)))
        (codes "StatusDescription") (string desc),
    refl,
    refl,
    refl,
  )

  answered :
      (raw : Option Bytes)
      → Answers raw (result_or_error fs num plugins (or_empty fs num plugins raw))
  answered none = json_error-Reports 500 _
  answered (some []) = json_error-Reports 500 _
  answered (some (c ∷ raw)) = refl

  refusal-RefusalCode : (c : ErrorCode) → RefusalCode c (refusal fs num plugins c)
  refusal-RefusalCode unsupported = refl
  refusal-RefusalCode fail = refl
  refusal-RefusalCode no_mem = refl
  refusal-RefusalCode invalid_arg = refl
  refusal-RefusalCode not_found = refl
  refusal-RefusalCode io = refl
  refusal-RefusalCode timeout = refl
  refusal-RefusalCode closed = refl
  refusal-RefusalCode protocol = refl
  refusal-RefusalCode tls = refl
  refusal-RefusalCode exists = refl

  run_begun-RanBegun :
      (ad : Adapter plugins.Lib) (request user : Bytes) (b : Begun plugins.Token) (w : fs.World)
      → RanBegun ad.lib request user b w (run_begun fs num plugins ad request user b w)
  unfolding run
  run_begun-RanBegun ad request user (refused e) w = (
    (refusal fs num plugins e.code.code, refusal-RefusalCode e.code.code, json_error-Reports _ _),
    (_, refl),
  )
  run_begun-RanBegun ad request user (begun token) w = (_, (_, (answered _, refl), refl))

  run_as-RanAs :
      (ad : Adapter plugins.Lib) (request user domain pass : Bytes) (w : fs.World)
      → RanAs ad.lib request user domain pass w
          (run_as fs num plugins ad request (user, domain, pass) w)
  unfolding run_as run
  run_as-RanAs ad request [] domain pass w = (answered _, refl)
  run_as-RanAs ad request (c ∷ user) domain pass w =
      run_begun-RanBegun ad request (c ∷ user) _ (plugins.begin (c ∷ user) domain pass w).1

  -- A request that names an adapter, its id spelled in any case of letters, is run by the first adapter
  -- of that id, wherever it stands among those that are loaded, and by no other. It is run as the user
  -- that the request asks for: by the credentials in its parameters, else those at the top level, else
  -- as the service itself. A refused logon is reported, with 501 where it is not supported and 403
  -- else, and nothing is run; what the command gives is the answer, and 500 where it gives nothing.
  pub dispatch_named :
      (before after : List (Adapter plugins.Lib)) (ad : Adapter plugins.Lib)
      (request user domain pass : Bytes) (root : Json D) (w : fs.World)
      → parse num.strtod request ≡ ok root
      → is_nil (get_str root (codes "Adapter") []) ≡ false
      → All (λ x. iequals x.id (get_str root (codes "Adapter") []) ≡ false) before
      → iequals ad.id (get_str root (codes "Adapter") []) ≡ true
      → AsksFor root user domain pass
      → RanAs ad.lib request user domain pass w
          (dispatch fs num plugins (before ++ ad ∷ after) request w)
  unfolding dispatch route
  dispatch_named before after ad request user domain pass root w p given others h asks =
      rw
        (
          dispatch,
          p,
          route,
          given,
          find_adapter-append before after ad (get_str root (codes "Adapter") []) others h,
          credentials_lem root user domain pass asks,
        )
        (run_as-RanAs ad request user domain pass w)
