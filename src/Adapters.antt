-- ===== src/Adapters.antt =====
-- core/include/vc/vc_adapter.h and core/src/vc_adapter.cpp: the adapters that are loaded, and the
-- dispatch of a request to one of them. The shared libraries, the impersonation of a user and the
-- log are operations on the world of the file system.
mod Routing
mod Reverts
mod Tests
use vericonnect_agent.Common.{
  Result, Status, ok, err, error, Error, ErrorCode, unsupported, not_found,
}
use vericonnect_agent.Fs.{Files, join, list_files}
use vericonnect_agent.Json.{
  write_number, Numbers, Json, string, number, object, no_member, set_key, dump, find_ci, get_str,
}
use vericonnect_agent.Json.Parse.{parse}
use vericonnect_agent.Log.{Level, info, error as error_level}
use vericonnect_agent.Prelude.Search.{iequals, span}
use vericonnect_agent.Prelude.{
  ℕ, ◌+◌, ◌-◌, inl, inr, Bool, false, not, ◌&&◌, Option, none, some, List, [], ◌∷◌, ◌++◌, arith,
  Bytes, codes, ltb, ◌==◌, if◌then◌else◌, tests, length, drop, is_nil,
}

-- struct ImpersonationError
pub record ImpersonationError : Type 0 where
  pub code : Error
  pub message : Bytes

pub data Begun (Token : Type 0) : Type 0 where
  begun : Token → Begun Token
  refused : ImpersonationError → Begun Token

-- What the dispatcher calls.
pub record Plugins (fs : Files) : Type 1 where
  pub Lib : Type 0
  pub Token : Type 0
  -- DynLib::open, its symbols, and its destructor.
  pub open_lib : Bytes → fs.World → Option Lib × fs.World
  pub has_symbol : Lib → Bytes → Bool
  pub close_lib : Lib → fs.World → fs.World
  -- GetAdapterInfo, and RunAdapterCommand with FreeAdapterString on its result; none is a null pointer.
  pub get_info : Lib → fs.World → Option Bytes × fs.World
  pub run_command : Lib → Bytes → fs.World → Option Bytes × fs.World
  -- Impersonation::begin, and the destructor of an Impersonation.
  pub begin : Bytes → Bytes → Bytes → fs.World → Begun Token × fs.World
  pub revert : Token → fs.World → fs.World
  -- log::message
  pub log : Level → Bytes → fs.World → fs.World
  -- os::shared_library_extension
  pub extension : Bytes

-- class Adapter
pub record Adapter (Lib : Type 0) : Type 0 where
  pub id : Bytes
  pub path : Bytes
  pub lib : Lib

-- `request_json.c_str()`, as the callee reads it.
unfoldable pub c_str : Bytes → Bytes
unfolding span
c_str s = (span (λ c. not (c == 0)) s).0

abbrev pub iends_with : Bytes → Bytes → Bool
iends_with s suffix =
    if ltb (length s) (length suffix)
    then false
    else iequals (drop (length s - length suffix) s) suffix

-- AdapterRegistry::find
unfoldable pub find_adapter : {Lib : Type 0} → List (Adapter Lib) → Bytes → Option (Adapter Lib)
unfolding iequals
find_adapter [] id = none
find_adapter (ad ∷ ads) id =
    let rest = find_adapter ads id in if iequals ad.id id then some ad else rest

abbrev pub front : {Lib : Type 0} → List (Adapter Lib) → Option (Adapter Lib)
front [] = none
front (ad ∷ ads) = some ad

module _ {D : Type 0} where
  -- `uc`: inside "Parameters", else at the top level.
  abbrev pub user_credentials : Json D → Option (Json D)
  user_credentials root = elim (find_ci root (codes "Parameters")) as (λ _. Option (Json D)) [
    | none ↦ find_ci root (codes "UserCredentials")
    | some params ↦ elim (find_ci params (codes "UserCredentials")) as (λ _. Option (Json D)) [
      | none ↦ find_ci root (codes "UserCredentials")
      | some uc ↦ some uc
    ]
  ]

  -- imp_user, imp_domain and imp_pass
  abbrev pub names_of : Option (Json D) → Bytes × Bytes × Bytes
  names_of none = ([], [], [])
  names_of (some uc) = (
    get_str uc (codes "Username") [],
    get_str uc (codes "Domain") [],
    get_str uc (codes "Password") [],
  )

  unfoldable pub credentials : Result (Json D) → Bytes × Bytes × Bytes
  unfolding find_ci get_str
  credentials (err e) = ([], [], [])
  credentials (ok root) = names_of (user_credentials root)

  -- The adapter that the request names, where it names one that is loaded.
  abbrev pub named : {Lib : Type 0} → List (Adapter Lib) → Result (Json D) → Option (Adapter Lib)
  named ads (err e) = none
  named ads (ok root) =
      let id = get_str root (codes "Adapter") [] in if is_nil id then none else find_adapter ads id

  -- `ad`
  unfoldable pub route :
      {Lib : Type 0} → List (Adapter Lib) → Result (Json D) → Option (Adapter Lib)
  unfolding find_adapter get_str
  route ads root = elim (named ads root) [ none ↦ front ads | some ad ↦ some ad ]

module _ {D : Type 0} (fs : Files) (num : Numbers D) (plugins : Plugins fs) where
  unfoldable pub json_error : ℕ → Bytes → Bytes
  unfolding dump set_key
  json_error code desc = dump (write_number num.double) (
      set_key (set_key (object no_member) (codes "StatusCode") (number (num.of_nat code)))
        (codes "StatusDescription") (string desc))

  -- Adapter::run
  abbrev pub or_empty : Option Bytes → Bytes
  or_empty none = []
  or_empty (some raw) = raw

  unfoldable pub run : Adapter plugins.Lib → Bytes → fs.World → Bytes × fs.World
  unfolding c_str
  run ad request w =
      let (raw, w') = plugins.run_command ad.lib (c_str request) w in (or_empty raw, w')

  -- The end of dispatch.
  abbrev pub result_or_error : Bytes → Bytes
  result_or_error result =
      if is_nil result then json_error 500 (codes "Adapter returned no result") else result

  -- 501 when the platform can't do it, 403 for a rejected logon
  abbrev pub refusal : ErrorCode → ℕ
  refusal unsupported = 501
  refusal _ = 403

  -- Behind Impersonation::begin.
  abbrev pub run_begun :
      Adapter plugins.Lib → Bytes → Bytes → Begun plugins.Token → fs.World → Bytes × fs.World
  run_begun ad request user (refused e) w = (
    json_error (refusal e.code.code) e.message,
    plugins.log error_level
        (codes "Impersonation failed for user '" ++ (user ++ (codes "': " ++ e.message))) w,
  )
  run_begun ad request user (begun token) w =
      let (result, w') = run ad request (
        plugins.log info (codes "Impersonating user '" ++ (user ++ codes "' for this command"))
          w) in
      (result_or_error result, plugins.revert token w')

  -- dispatch to the adapter, as the user that the request names.
  unfoldable pub run_as :
      Adapter plugins.Lib → Bytes → Bytes × Bytes × Bytes → fs.World → Bytes × fs.World
  unfolding run json_error
  run_as ad request (user, domain, pass) w =
      if is_nil user
      then (let (result, w') = run ad request w in (result_or_error result, w'))
      else (let (b, w') = plugins.begin user domain pass w in run_begun ad request user b w')

  abbrev pub run_routed :
      Option (Adapter plugins.Lib) → Bytes → Bytes × Bytes × Bytes → fs.World → Bytes × fs.World
  run_routed none request who w = (json_error 404 (codes "No adapter available"), w)
  run_routed (some ad) request who w = run_as ad request who w

  unfoldable pub dispatch : List (Adapter plugins.Lib) → Bytes → fs.World → Bytes × fs.World
  unfolding run_as parse route credentials json_error
  dispatch adapters request w =
      let root = parse num.strtod request in
      run_routed (route adapters root) request (credentials root) w

  -- `id_`, from what GetAdapterInfo gives.
  abbrev pub id_of : Result (Json D) → Bytes
  id_of (err e) = []
  id_of (ok root) = get_str root (codes "id") []

  abbrev pub info_id : Option Bytes → Bytes
  info_id none = []
  info_id (some raw) = id_of (parse num.strtod raw)

  abbrev pub identified : plugins.Lib → fs.World → Bytes × fs.World
  identified lib w =
      if plugins.has_symbol lib (codes "GetAdapterInfo")
      then (let (raw, w') = plugins.get_info lib w in (info_id raw, w'))
      else ([], w)

  abbrev pub opened :
      Bytes → Option plugins.Lib → fs.World → Option (Adapter plugins.Lib) × fs.World
  opened path none w = (none, w)
  opened path (some lib) w =
      let (id, w') = identified lib w in
      if plugins.has_symbol lib (codes "RunAdapterCommand")
        && plugins.has_symbol lib (codes "FreeAdapterString")
      then (some (record { id = if is_nil id then path else id; path = path; lib = lib }), w')
      else (none, plugins.close_lib lib w)

  -- Adapter::load
  unfoldable pub load_adapter : Bytes → fs.World → Option (Adapter plugins.Lib) × fs.World
  unfolding parse get_str
  load_adapter path w = let (lib, w') = plugins.open_lib path w in opened path lib w'

  -- The loop of AdapterRegistry::load, with the member adapters_.
  abbrev pub keep :
      List (Adapter plugins.Lib)
      → Option (Adapter plugins.Lib) × fs.World
      → List (Adapter plugins.Lib) × fs.World
  keep ads (none, w) = (ads, w)
  keep ads (some ad, w) = (
    ads ++ ad ∷ [],
    plugins.log info (codes "Loaded adapter '" ++ (ad.id ++ (codes "' from " ++ ad.path))) w,
  )

  unfoldable pub load_loop :
      Bytes
      → List Bytes
      → List (Adapter plugins.Lib)
      → fs.World
      → List (Adapter plugins.Lib) × fs.World
  unfolding load_adapter join iequals
  load_loop dir [] ads w = (ads, w)
  load_loop dir (n ∷ ns) ads w =
      let (ads', w') =
        if iends_with n plugins.extension
        then keep ads (load_adapter (join dir n) w)
        else (ads, w) in
      load_loop dir ns ads' w'

  -- AdapterRegistry::load
  abbrev pub loaded :
      List (Adapter plugins.Lib) × fs.World → (Status × List (Adapter plugins.Lib)) × fs.World
  loaded (ads, w) = ((if is_nil ads then err (error not_found) else ok tt, ads), w)

  abbrev pub load_names :
      Bytes
      → Result (List Bytes)
      → List (Adapter plugins.Lib)
      → fs.World
      → (Status × List (Adapter plugins.Lib)) × fs.World
  load_names dir (err e) ads w = ((err (error not_found), ads), w)
  load_names dir (ok names) ads w = loaded (load_loop dir names ads w)

  unfoldable pub load_adapters :
      Bytes
      → List (Adapter plugins.Lib)
      → fs.World
      → (Status × List (Adapter plugins.Lib)) × fs.World
  unfolding load_loop list_files
  load_adapters dir ads w = load_names dir (list_files fs dir w) ads w
