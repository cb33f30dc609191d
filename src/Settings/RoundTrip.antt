-- ===== src/Settings/RoundTrip.antt =====
-- core/src/vc_settings.cpp: load after save.
use vericonnect_agent.Settings.Values.{lacks-IsSection, lacks-IsKey, int-IsValue, level-IsValue}
use vericonnect_agent.Common.{int_to_string, ok, to_string}
use vericonnect_agent.Ini.{
  Ini, get, get_int, get_bool, present, set, set_int, find_entry, assign, is_at, trim_left,
  trim_right,
}
use vericonnect_agent.Ini.Files.{Files, ReadsBack, load-save}
use vericonnect_agent.Ini.Getters.{get_int-stored}
use vericonnect_agent.Ini.Text.{IsSection, IsValue, IsPlain}
use vericonnect_agent.Ini.Unique.{IsUnique}
use vericonnect_agent.Log.{
  Level, trace, debug, info, succ, warn, error as error_level, effective, level_from_str,
}
use vericonnect_agent.Settings.{
  Settings, text_or, level_name, settings_of, loaded, load_settings, ini_of, save_settings,
}
use vericonnect_agent.Prelude.Search.{iequals, span}
use vericonnect_agent.Prelude.{
  ◌≤◌, ◌≡◌, refl, ap, ◌∙◌, Bool, true, false, some, [], Bytes, codes, if◌then◌else◌, All, ℤ, pos,
  negsuc,
}

-- An int as it comes back: a negative one is not read, and the default stands for it.
abbrev pub kept_int : ℤ → ℤ
kept_int (pos n) = pos n
kept_int (negsuc n) = pos 10

-- At most INT_MAX
abbrev pub FitsInt : ℤ → Type 0
FitsInt (pos n) = n ≤ 0x7FFFFFFF
FitsInt (negsuc n) = Unit {0}

-- The settings that come back.
abbrev pub kept : Settings → Settings
kept s = record {
  relay = record s.relay { token_ttl_seconds = 3600 };
  logging = record s.logging {
    level = effective s.logging.level;
    console = true;
    file_path = [];
    max_rotate_files = kept_int s.logging.max_rotate_files;
    max_file_size_mb = kept_int s.logging.max_file_size_mb;
  };
  adapters_dir = s.adapters_dir;
}

-- The texts stand for themselves in a file and the numbers fit.
pub record IsStorable (s : Settings) : Type 0 where
  pub host : IsValue s.relay.namespace_host
  pub connection : IsValue s.relay.hybrid_connection
  pub key_name : IsValue s.relay.key_name
  pub key : IsValue s.relay.key
  pub directory : IsValue s.adapters_dir
  pub files : FitsInt s.logging.max_rotate_files
  pub size : FitsInt s.logging.max_file_size_mb

text_or-some : (s k v def_ : Bytes) (ini : Ini) → get s k ini ≡ some v → text_or ini s k def_ ≡ v
unfolding text_or
text_or-some s k v def_ ini h = rw (text_or, h) refl

get_bool-some :
    (s k : Bytes) (b : Bool) (ini : Ini)
    → get s k ini ≡ some (int_to_string (if b then pos 1 else pos 0))
    → get_bool s k true ini ≡ b
unfolding get_bool present int_to_string to_string iequals
get_bool-some s k true ini h = rw (get_bool, present, h) refl
get_bool-some s k false ini h = rw (get_bool, present, h) refl

get_int-kept :
    (s k : Bytes) (n : ℤ) (ini : Ini)
    → get s k ini ≡ some (int_to_string n)
    → FitsInt n
    → get_int s k (pos 10) ini ≡ kept_int n
get_int-kept s k (pos n) ini h f = (get_int-stored s k n (pos 10) ini).0 h f
get_int-kept s k (negsuc n) ini h f = (get_int-stored s k n (pos 10) ini).1 h

level-kept : (l : Level) → level_from_str (level_name l) ≡ effective l
unfolding level_from_str iequals
level-kept trace = refl
level-kept debug = refl
level-kept info = refl
level-kept succ = refl
level-kept warn = refl
level-kept error_level = refl

-- The entries of save are under eleven names.
ini_of-IsUnique : (s : Settings) → IsUnique (ini_of s)
unfolding ini_of set set_int find_entry assign is_at iequals IsUnique
ini_of-IsUnique s =
    (refl, (refl, (refl, (refl, (refl, (refl, (refl, (refl, (refl, (refl, (refl, tt)))))))))))

logging : IsSection (codes "Logging")
unfolding trim_left trim_right span
logging = lacks-IsSection (codes "Logging") refl refl refl refl

connection : IsSection (codes "Connection")
unfolding trim_left trim_right span
connection = lacks-IsSection (codes "Connection") refl refl refl refl

adapters : IsSection (codes "Adapters")
unfolding trim_left trim_right span
adapters = lacks-IsSection (codes "Adapters") refl refl refl refl

flag-IsValue : (b : Bool) → IsValue (int_to_string (if b then pos 1 else pos 0))
flag-IsValue b = int-IsValue (if b then pos 1 else pos 0)

ini_of-All : (s : Settings) → IsStorable s → All IsPlain (ini_of s)
unfolding ini_of set set_int find_entry assign is_at iequals trim_left trim_right span
ini_of-All s h = (
  (
    logging,
    lacks-IsKey (codes "LogLevel") refl refl refl refl refl refl,
    level-IsValue s.logging.level,
  ),
  (
    (
      logging,
      lacks-IsKey (codes "MaxRotateFiles") refl refl refl refl refl refl,
      int-IsValue s.logging.max_rotate_files,
    ),
    (
      (
        logging,
        lacks-IsKey (codes "MaxFileSizeInMB") refl refl refl refl refl refl,
        int-IsValue s.logging.max_file_size_mb,
      ),
      (
        (
          logging,
          lacks-IsKey (codes "ShowEventType") refl refl refl refl refl refl,
          flag-IsValue s.logging.show_event_type,
        ),
        (
          (
            logging,
            lacks-IsKey (codes "TimePrecission") refl refl refl refl refl refl,
            flag-IsValue s.logging.time_precision,
          ),
          (
            (
              logging,
              lacks-IsKey (codes "Enabled") refl refl refl refl refl refl,
              flag-IsValue s.logging.enabled,
            ),
            (
              (connection, lacks-IsKey (codes "AccessKey") refl refl refl refl refl refl, h.key),
              (
                (
                  connection,
                  lacks-IsKey (codes "AccessKeyName") refl refl refl refl refl refl,
                  h.key_name,
                ),
                (
                  (
                    connection,
                    lacks-IsKey (codes "Namespace") refl refl refl refl refl refl,
                    h.host,
                  ),
                  (
                    (
                      connection,
                      lacks-IsKey (codes "HybridConnection") refl refl refl refl refl refl,
                      h.connection,
                    ),
                    (
                      (
                        adapters,
                        lacks-IsKey (codes "Directory") refl refl refl refl refl refl,
                        h.directory,
                      ),
                      tt,
                    ),
                  ),
                ),
              ),
            ),
          ),
        ),
      ),
    ),
  ),
)

-- A store whose lookups are those of the store of save.
settings_of-kept :
    (s : Settings) (ini : Ini)
    → IsStorable s
    → ((sec k : Bytes) → get sec k ini ≡ get sec k (ini_of s))
    → settings_of ini ≡ kept s
unfolding settings_of ini_of set set_int find_entry assign is_at get iequals
settings_of-kept s ini h same =
    rw
      (
        settings_of,
        text_or-some (codes "Connection") (codes "Namespace") _ [] ini (same _ _),
        text_or-some (codes "Connection") (codes "HybridConnection") _ [] ini (same _ _),
        text_or-some (codes "Connection") (codes "AccessKeyName") _ [] ini (same _ _),
        text_or-some (codes "Connection") (codes "AccessKey") _ [] ini (same _ _),
        text_or-some (codes "Logging") (codes "LogLevel") _ (codes "LOG_INFO") ini (same _ _),
        text_or-some (codes "Adapters") (codes "Directory") _ (codes ".") ini (same _ _),
        level-kept s.logging.level,
        get_int-kept (codes "Logging") (codes "MaxRotateFiles") _ ini (same _ _) h.files,
        get_int-kept (codes "Logging") (codes "MaxFileSizeInMB") _ ini (same _ _) h.size,
        get_bool-some (codes "Logging") (codes "ShowEventType") _ ini (same _ _),
        get_bool-some (codes "Logging") (codes "TimePrecission") _ ini (same _ _),
        get_bool-some (codes "Logging") (codes "Enabled") _ ini (same _ _),
      )
      refl

-- Settings that save has written come back from load of that path, on a file system that reads back
-- what it writes, where the texts stand for themselves in a file: the connection, the folder of the
-- adapters, and the log with its level, in which a success is information, and its numbers, of which
-- a negative one becomes the default 10. The time to live, the console and the log's path are not kept.
pub load_settings-save_settings :
    {W : Type 0} (files : Files W) (path : Bytes) (s : Settings) (w w' : W)
    → ReadsBack files
    → IsStorable s
    → save_settings files.write_all path s w ≡ (ok tt, w')
    → load_settings (λ p. files.read_all p w') path ≡ ok (kept s)
unfolding load_settings save_settings
load_settings-save_settings files path s w w' back h saved =
    let r = load-save files path (ini_of s) w w' back (ini_of-IsUnique s) (ini_of-All s h) saved in
    ap loaded r.1 ∙ ap ok (settings_of-kept s r.0 h r.2)
