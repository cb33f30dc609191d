-- ===== src/Ini/Files.antt =====
-- core/src/vc_ini.cpp: Ini::save and Ini::load over a file system.
use vericonnect_agent.Prelude.{◌≡◌, refl, Bytes, All}
use vericonnect_agent.Common.{Result, Status, ok}
use vericonnect_agent.Ini.{Ini, get, load, save, load_text, save_text}
use vericonnect_agent.Ini.Unique.{IsUnique}
use vericonnect_agent.Ini.Text.{IsPlain}
use vericonnect_agent.Ini.RoundTrip.{load_text-save_text-get}

-- fs::read_all and fs::write_all on a world of files.
pub record Files {ℓ} (W : Type ℓ) : Type ℓ where
  pub read_all : Bytes → W → Result Bytes
  pub write_all : Bytes → Bytes → W → Status × W

-- A file that was written is read back as it was written.
abbrev pub ReadsBack {ℓ} : {W : Type ℓ} → Files W → Type ℓ
ReadsBack {W} files =
    (path data_ : Bytes) (w w' : W)
    → files.write_all path data_ w ≡ (ok tt, w')
    → files.read_all path w' ≡ ok data_

-- On a file system that reads back what it writes: where save succeeds on a store in which no two
-- entries name the same key and whose texts stand for themselves in a file, load of that path
-- succeeds with a store that every lookup finds equal to it.
pub load-save {ℓ} :
    {W : Type ℓ} (files : Files W) (path : Bytes) (ini : Ini) (w w' : W)
    → ReadsBack files
    → IsUnique ini
    → All IsPlain ini
    → save files.write_all path ini w ≡ (ok tt, w')
    → (ini' : Ini) × (load (λ p. files.read_all p w') path ≡ ok ini')
      × ((s k : Bytes) → get s k ini' ≡ get s k ini)
unfolding save load
load-save files path ini w w' back u h saved = (
  load_text (save_text ini),
  rw (back path (save_text ini) w w' saved) refl,
  λ s k. load_text-save_text-get ini s k u h,
)
