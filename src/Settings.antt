-- ===== src/Settings.antt =====
-- core/include/vc/vc_settings.h and core/src/vc_settings.cpp: the settings of the agent, kept in an
-- INI file.
mod Values
mod RoundTrip
mod Tests
use vericonnect_agent.Common.{Result, Status, ok, err, error, not_found}
use vericonnect_agent.Fs.{join}
use vericonnect_agent.Ini.{Ini, get, get_int, get_bool, set, set_int, load, save}
use vericonnect_agent.Log.{
  Level, trace, debug, info, succ, warn, error as error_level, Config, default_config,
  level_from_str,
}
use vericonnect_agent.Relay.{RelayConfig}
use vericonnect_agent.Prelude.{
  inl, inr, Bool, true, Option, none, some, [], arith, Bytes, codes, if◌then◌else◌, tests, pos,
}

-- struct Settings
pub record Settings : Type 0 where
  pub relay : RelayConfig
  pub logging : Config
  pub adapters_dir : Bytes

-- get_or: an entry whose value is empty is there.
unfoldable pub text_or : Ini → Bytes → Bytes → Bytes → Bytes
unfolding get
text_or ini section key def_ = elim (get section key ini) [ none ↦ def_ | some v ↦ v ]

abbrev pub level_name : Level → Bytes
level_name trace = codes "LOG_TRACE"
level_name debug = codes "LOG_DEBUG"
level_name info = codes "LOG_INFO"
level_name succ = codes "LOG_INFO"
level_name warn = codes "LOG_WARN"
level_name error_level = codes "LOG_ERROR"

-- default_path, from what fs::exe_dir gives.
abbrev pub default_path : Option Bytes → Bytes
default_path none = codes "Settings.ini"
default_path (some dir) = join dir (codes "Settings.ini")

-- Settings::load once the file is read.
unfoldable pub settings_of : Ini → Settings
unfolding text_or get_int get_bool level_from_str
settings_of ini = record {
  relay = record {
    namespace_host = text_or ini (codes "Connection") (codes "Namespace") [];
    hybrid_connection = text_or ini (codes "Connection") (codes "HybridConnection") [];
    key_name = text_or ini (codes "Connection") (codes "AccessKeyName") [];
    key = text_or ini (codes "Connection") (codes "AccessKey") [];
    token_ttl_seconds = 3600;
  };
  logging = record default_config {
    level = level_from_str (text_or ini (codes "Logging") (codes "LogLevel") (codes "LOG_INFO"));
    max_rotate_files = get_int (codes "Logging") (codes "MaxRotateFiles") (pos 10) ini;
    max_file_size_mb = get_int (codes "Logging") (codes "MaxFileSizeInMB") (pos 10) ini;
    show_event_type = get_bool (codes "Logging") (codes "ShowEventType") true ini;
    time_precision = get_bool (codes "Logging") (codes "TimePrecission") true ini;
    enabled = get_bool (codes "Logging") (codes "Enabled") true ini;
  };
  adapters_dir = text_or ini (codes "Adapters") (codes "Directory") (codes ".");
}

abbrev pub loaded : Result Ini → Result Settings
loaded (err e) = err (error not_found)
loaded (ok ini) = ok (settings_of ini)

-- Settings::load over fs::read_all.
unfoldable pub load_settings : (Bytes → Result Bytes) → Bytes → Result Settings
unfolding load settings_of
load_settings read_all path = loaded (load read_all path)

abbrev pub set_flag : Bytes → Bytes → Bool → Ini → Ini
set_flag section key b ini = set_int section key (if b then pos 1 else pos 0) ini

-- The store that Settings::save builds.
unfoldable pub ini_of : Settings → Ini
unfolding set set_int
ini_of s =
    let ini = set (codes "Logging") (codes "LogLevel") (level_name s.logging.level) [] in
    let ini = set_int (codes "Logging") (codes "MaxRotateFiles") s.logging.max_rotate_files ini in
    let ini = set_int (codes "Logging") (codes "MaxFileSizeInMB") s.logging.max_file_size_mb ini in
    let ini = set_flag (codes "Logging") (codes "ShowEventType") s.logging.show_event_type ini in
    let ini = set_flag (codes "Logging") (codes "TimePrecission") s.logging.time_precision ini in
    let ini = set_flag (codes "Logging") (codes "Enabled") s.logging.enabled ini in
    let ini = set (codes "Connection") (codes "AccessKey") s.relay.key ini in
    let ini = set (codes "Connection") (codes "AccessKeyName") s.relay.key_name ini in
    let ini = set (codes "Connection") (codes "Namespace") s.relay.namespace_host ini in
    let ini = set (codes "Connection") (codes "HybridConnection") s.relay.hybrid_connection ini in
    set (codes "Adapters") (codes "Directory") s.adapters_dir ini

-- Settings::save over fs::write_all.
unfoldable pub save_settings {ℓ} :
    {W : Type ℓ} → (Bytes → Bytes → W → Status × W) → Bytes → Settings → W → Status × W
unfolding save ini_of
save_settings write_all path s w = save write_all path (ini_of s) w
