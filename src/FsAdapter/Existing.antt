-- ===== src/FsAdapter/Existing.antt =====
-- adapters/filesystem/src/fs_commands.cpp: the commands on a file that is there.
pub mod Archive
pub mod Move
use vericonnect_agent.Base64.{encode}
use vericonnect_agent.Common.{Result, Status, ok, err, error_detail, is_ok}
use vericonnect_agent.Fs.{Files, join, file_exists, dir_exists, mkdir, remove_file, move, read_all}
use vericonnect_agent.FsAdapter.{
  text_at, flag_at, params_of, target_path, empty, reply, result_json,
}
use vericonnect_agent.Json.{
  write_number, Numbers, Json, string, number, set_key, dump, find_ci, get_str, get_flag,
}
use vericonnect_agent.Prelude.{
  ℕ, ◌+◌, inl, inr, Bool, not, ◌&&◌, ◌||◌, Option, none, some, [], ◌++◌, arith, Bytes, codes,
  if◌then◌else◌, tests, length, is_nil,
}

-- Where read_file moves the file: into <TargetFolder>/COPY.
abbrev pub copy_dir : {D : Type 0} → Option (Json D) → Bytes
copy_dir p = join (text_at p (codes "TargetFolder")) (codes "COPY")

abbrev pub copy_path : {D : Type 0} → Option (Json D) → Bytes
copy_path p = join (copy_dir p) (text_at p (codes "FileName"))

-- The locals `status` and `desc` of read_file, from `archived`; none is the branch for a conflict.
abbrev pub archive_code : Option Status → ℕ
archive_code none = 409
archive_code (some (ok _)) = 200
archive_code (some (err e)) = 500

abbrev pub not_found_text : Bytes → Bytes
not_found_text path = codes "File " ++ (path ++ codes " not found.")

abbrev pub no_overwrite_text : Bytes → Bytes
no_overwrite_text path =
    codes "File " ++ (path ++ codes " already exists and overwrite is not allowed.")

module _ {D : Type 0} (fs : Files) (num : Numbers D) where
  abbrev pub archive_desc : Bytes → Bytes → Option Status → Bytes
  archive_desc path dest none = no_overwrite_text dest
  archive_desc path dest (some (ok _)) = codes "File " ++ (path ++ codes " read successfully")
  archive_desc path dest (some (err e)) =
      codes "File "
      ++ (path
          ++ (codes " was read but could not be archived to "
              ++ (dest ++ (codes ": " ++ error_detail fs.error_text e))))

  abbrev pub attempted : Status × fs.World → Option Status × fs.World
  attempted (s, w) = (some s, w)

  -- The archive behind the folder COPY.
  unfoldable pub archive_to : Bytes → Bytes → Bool → fs.World → Option Status × fs.World
  unfolding remove_file move
  archive_to path dest overwrite w =
      if file_exists fs dest w
      then (if overwrite
          then attempted (move fs path dest (remove_file fs dest w).1)
          else (none, w))
      else attempted (move fs path dest w)

  unfoldable pub archive : Option (Json D) → Bytes → fs.World → Option Status × fs.World
  unfolding archive_to mkdir join get_str get_flag
  archive p path w =
      archive_to path (copy_path p) (flag_at p (codes "OverwriteIfExists"))
        (if not (dir_exists fs (copy_dir p) w) then (mkdir fs (copy_dir p) w).1 else w)

  -- The result of read_file.
  unfoldable pub read_json : ℕ → Bytes → Bytes → Bytes
  unfolding dump set_key encode
  read_json status desc bytes =
      let o = set_key empty (codes "StatusCode") (number (num.of_nat status)) in
      let o = set_key o (codes "StatusDescription") (string desc) in
      let o = set_key o (codes "Data") (string (encode bytes)) in
      dump (write_number num.double)
        (set_key o (codes "FileSize") (number (num.of_nat (length bytes))))

  abbrev pub read_bytes : Option (Json D) → Bytes → Result Bytes → fs.World → Bytes × fs.World
  read_bytes p path (err e) w = (reply fs num 500 (codes "Error reading file: " ++ path), w)
  read_bytes p path (ok bytes) w =
      let (archived, w') = archive p path w in
      (read_json (archive_code archived) (archive_desc path (copy_path p) archived) bytes, w')

  abbrev pub read_at : Option (Json D) → Option Bytes → fs.World → Bytes × fs.World
  read_at p none w = (reply fs num 400 (codes "Invalid parameters."), w)
  read_at p (some path) w =
      if not (file_exists fs path w)
      then (reply fs num 404 (not_found_text path), w)
      else read_bytes p path (read_all fs path w) w

  unfoldable pub read_file : Json D → fs.World → Bytes × fs.World
  unfolding result_json archive read_json target_path find_ci error_detail
  read_file req w = read_at (params_of req) (target_path (params_of req)) w

  abbrev pub delete_at : Option Bytes → fs.World → Bytes × fs.World
  delete_at none w =
      (reply fs num 400 (codes "Missing parameters, please check your parameters"), w)
  delete_at (some path) w =
      let (removed, w') = remove_file fs path w in
      if not (file_exists fs path w)
      then (reply fs num 404 (not_found_text path), w)
      else if is_ok removed
      then (reply fs num 200 (codes "File " ++ (path ++ codes " deleted successfully")), w')
      else (reply fs num 400 (codes "Error deleting file: " ++ path), w')

  unfoldable pub delete_file : Json D → fs.World → Bytes × fs.World
  unfolding result_json target_path remove_file find_ci
  delete_file req w = delete_at (target_path (params_of req)) w

  -- The end of move_file, from `src` to `dest` in the folder `dest_folder`.
  unfoldable pub move_over : Bytes → Bytes → Bytes → fs.World → Bytes × fs.World
  unfolding result_json mkdir remove_file move
  move_over src dest_folder dest w =
      let w1 = if not (dir_exists fs dest_folder w) then (mkdir fs dest_folder w).1 else w in
      let w2 = if file_exists fs dest w1 then (remove_file fs dest w1).1 else w1 in
      let (moved, w3) = move fs src dest w2 in
      if is_ok moved
      then (reply fs num 200 (codes "File moved from " ++ (src ++ (codes " to " ++ dest))), w3)
      else (reply fs num 400 (codes "Error moving file " ++ (src ++ (codes " to " ++ dest))), w3)

  -- move_file once its parameters are there.
  unfoldable pub move_to : Bytes → Bytes → Bytes → Bool → fs.World → Bytes × fs.World
  unfolding result_json move_over
  move_to src dest_folder dest overwrite w =
      if not (file_exists fs src w)
      then (reply fs num 404 (not_found_text src), w)
      else if file_exists fs dest w && not overwrite
      then (reply fs num 409 (no_overwrite_text dest), w)
      else move_over src dest_folder dest w

  -- `p->get_str("DestinationFileName", p->get_str("FileName", ""))`
  abbrev pub dest_name : Option (Json D) → Bytes
  dest_name none = []
  dest_name (some p) = get_str p (codes "DestinationFileName") (get_str p (codes "FileName") [])

  abbrev pub missing_move : Bytes
  missing_move =
      reply fs num 400
        (codes "Missing parameters: TargetFolder, FileName and DestinationFolder are required")

  abbrev pub move_at : Option (Json D) → Option Bytes → fs.World → Bytes × fs.World
  move_at p none w = (missing_move, w)
  move_at p (some src) w =
      let folder = text_at p (codes "DestinationFolder") in
      if is_nil folder || is_nil (dest_name p)
      then (missing_move, w)
      else move_to src folder (join folder (dest_name p)) (flag_at p (codes "OverwriteIfExists")) w

  unfoldable pub move_file : Json D → fs.World → Bytes × fs.World
  unfolding result_json target_path move_to join get_str get_flag find_ci
  move_file req w = move_at (params_of req) (target_path (params_of req)) w
