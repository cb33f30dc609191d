-- ===== src/Fs.antt =====
-- core/src/vc_fs.cpp: the file system helpers over std::filesystem and the file streams, which are
-- operations on a world. Paths are UTF-8 bytes.
use vericonnect_agent.Common.{Result, Status, ok, err, error, ErrorCode, not_found, io, exists}
use vericonnect_agent.Prelude.{
  ℕ, Bool, false, List, [], ◌∷◌, ◌++◌, Bytes, ◌==◌, if◌then◌else◌, is_nil,
}

-- What std::filesystem and the streams do; a number beside a result is the value of the error code,
-- 0 where there is none.
pub record Files : Type 1 where
  pub World : Type 0
  pub is_regular_file : Bytes → World → Bool
  pub is_directory : Bytes → World → Bool
  -- std::filesystem::exists
  pub is_there : Bytes → World → Bool
  pub create_directory : Bytes → World → (Bool × ℕ) × World
  pub remove : Bytes → World → (Bool × ℕ) × World
  pub rename : Bytes → Bytes → World → ℕ × World
  -- An ifstream to its end, an ofstream with its data; a failure with os::last_error.
  pub read_stream : Bytes → World → Result Bytes
  pub write_stream : Bytes → Bytes → World → Status × World
  -- A directory_iterator: the file names, and which are regular files.
  pub entries : Bytes → World → List (Bytes × Bool) × ℕ
  -- os::error_text
  pub error_text : ℕ → Bytes

abbrev pub with_code {ℓ} : {A : Type ℓ} → ErrorCode → ℕ → Result A
with_code code ec = err (record { code = code; os_code = ec })

abbrev pub ends_with_slash : Bytes → Bool
ends_with_slash [] = false
ends_with_slash (c ∷ []) = c == b'/'
ends_with_slash (c ∷ cs) = ends_with_slash cs

unfoldable pub skip_slashes : Bytes → Bytes
skip_slashes [] = []
skip_slashes (c ∷ cs) = let rest = skip_slashes cs in if c == b'/' then rest else c ∷ cs

unfoldable pub join : Bytes → Bytes → Bytes
unfolding skip_slashes
join a b =
    if is_nil a
    then b
    else if is_nil b
    then a
    else a ++ ((if ends_with_slash a then [] else b'/' ∷ []) ++ skip_slashes b)

-- The loop of list_files.
abbrev pub regular : List (Bytes × Bool) → List Bytes
regular [] = []
regular ((name, file) ∷ es) = let rest = regular es in if file then name ∷ rest else rest

module _ (fs : Files) where
  abbrev pub file_exists : Bytes → fs.World → Bool
  file_exists path w = fs.is_regular_file path w

  abbrev pub dir_exists : Bytes → fs.World → Bool
  dir_exists path w = fs.is_directory path w

  unfoldable pub mkdir : Bytes → fs.World → Status × fs.World
  mkdir path w =
      let ((made, ec), w') = fs.create_directory path w in
      if made
      then (ok tt, w')
      else if dir_exists path w'
      then (ok tt, w')
      else (with_code io ec, w')

  unfoldable pub remove_file : Bytes → fs.World → Status × fs.World
  remove_file path w =
      let ((removed, ec), w') = fs.remove path w in
      if removed then (ok tt, w') else (with_code io ec, w')

  unfoldable pub move : Bytes → Bytes → fs.World → Status × fs.World
  move from to w =
      if fs.is_there to w
      then (err (error exists), w)
      else (let (ec, w') = fs.rename from to w in
          if ec == 0 then (ok tt, w') else (with_code io ec, w'))

  abbrev pub read_all : Bytes → fs.World → Result Bytes
  read_all path w = fs.read_stream path w

  abbrev pub write_all : Bytes → Bytes → fs.World → Status × fs.World
  write_all path bs w = fs.write_stream path bs w

  unfoldable pub list_files : Bytes → fs.World → Result (List Bytes)
  list_files dir w =
      let (es, ec) = fs.entries dir w in if ec == 0 then ok (regular es) else with_code not_found ec
