-- ===== src/Log.antt =====
-- core/src/vc_log.cpp: the log. Levels and the members of the file's namespace are here, what a
-- message becomes on its way out is in Sanitise.
pub mod Sanitise
mod Tests
use vericonnect_agent.Prelude.Search.{iequals}
use vericonnect_agent.Prelude.{
  ℕ, inl, inr, Bool, true, ◌||◌, [], arith, Bytes, codes, if◌then◌else◌, tests, ℤ, pos,
}

-- enum class Level
pub data Level : Type 0 where
  trace debug info succ warn error : Level

-- Its order.
abbrev pub rank : Level → ℕ
rank trace = 0
rank debug = 1
rank info = 2
rank succ = 3
rank warn = 4
rank error = 5

abbrev pub level_tag : Level → Bytes
level_tag trace = codes "TRACE"
level_tag debug = codes "DEBUG"
level_tag info = codes "INFO "
level_tag succ = codes "SUCC "
level_tag warn = codes "WARN "
level_tag error = codes "ERROR"

unfoldable pub level_from_str : Bytes → Level
unfolding iequals
level_from_str s =
    if iequals s (codes "LOG_TRACE") || iequals s (codes "TRACE")
    then trace
    else if iequals s (codes "LOG_DEBUG") || iequals s (codes "DEBUG")
    then debug
    else if iequals s (codes "LOG_INFO") || iequals s (codes "INFO")
    then info
    else if iequals s (codes "LOG_WARN") || iequals s (codes "WARN")
    then warn
    else if iequals s (codes "LOG_ERROR") || iequals s (codes "ERROR")
    then error
    else info

-- struct Config
pub record Config : Type 0 where
  pub level : Level
  pub enabled : Bool
  pub console : Bool
  pub show_event_type : Bool
  pub time_precision : Bool
  pub file_path : Bytes
  pub max_file_size_mb : ℤ
  pub max_rotate_files : ℤ

-- A value of its defaults.
abbrev pub default_config : Config
default_config = record {
  level = info;
  enabled = true;
  console = true;
  show_event_type = true;
  time_precision = true;
  file_path = [];
  max_file_size_mb = pos 10;
  max_rotate_files = pos 10;
}

-- `eff`: a success is logged at Info.
abbrev pub effective : Level → Level
effective succ = info
effective l = l
