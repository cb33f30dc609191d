-- ===== src/Settings/Tests.antt =====
-- core/src/vc_settings.cpp: settings over a disk of one file.
use vericonnect_agent.Common.{ok}
use vericonnect_agent.Ini.{trim_left, trim_right}
use vericonnect_agent.Ini.Files.{Files, ReadsBack}
use vericonnect_agent.Log.{default_config, debug}
use vericonnect_agent.Settings.{Settings, load_settings, save_settings}
use vericonnect_agent.Settings.RoundTrip.{kept, IsStorable, load_settings-save_settings}
use vericonnect_agent.Prelude.Search.{span}
use vericonnect_agent.Prelude.{◌≡◌, refl, sym, ap, [], arith, Bytes, codes, negsuc}

abbrev one_file : Files Bytes
one_file = record { read_all = λ p w. ok w; write_all = λ p d w. (ok tt, d) }

one_file-ReadsBack : ReadsBack one_file
one_file-ReadsBack path d w w' h = ap (λ r. ok r.1) (sym h)

abbrev settings : Settings
settings = record {
  relay = record {
    namespace_host = codes "a.net";
    hybrid_connection = codes "hc";
    key_name = codes "n";
    key = codes "k=";
    token_ttl_seconds = 60;
  };
  logging = record default_config { level = debug; max_rotate_files = negsuc 0 };
  adapters_dir = [];
}

settings-IsStorable : IsStorable settings
unfolding trim_left trim_right span
settings-IsStorable = record {
  host = ((refl, refl), (refl, (refl, (refl, (refl, (refl, tt))))));
  connection = ((refl, refl), (refl, (refl, tt)));
  key_name = ((refl, refl), (refl, tt));
  key = ((refl, refl), (refl, (refl, tt)));
  directory = ((refl, refl), tt);
  files = tt;
  size = omega arith;
}

load_settings-save_settings_example :
    load_settings
      (λ p. one_file.read_all p (save_settings one_file.write_all (codes "s") settings []).1)
      (codes "s")
    ≡ ok (kept settings)
unfolding save_settings
load_settings-save_settings_example =
    load_settings-save_settings one_file (codes "s") settings []
      (save_settings one_file.write_all (codes "s") settings []).1 one_file-ReadsBack
      settings-IsStorable refl
