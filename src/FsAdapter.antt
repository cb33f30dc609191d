-- ===== src/FsAdapter.antt =====
-- adapters/filesystem/src/fs_commands.cpp and fs_adapter.cpp: the commands of the file system
-- adapter. Each takes the parsed request and the world, and returns the text of its result.
pub mod Store
pub mod Replies
pub mod Existing
pub mod Run
mod Create
mod Tests
use vericonnect_agent.Base64.{decode}
use vericonnect_agent.Common.{Result, ok, err, to_string, is_ok}
use vericonnect_agent.Fs.{Files, join, file_exists, dir_exists, mkdir, write_all, list_files}
use vericonnect_agent.Json.{
  write_number, Numbers, Json, string, number, array, object, no_more, no_member, set_key, add,
  dump, find_ci, get_str, get_flag,
}
use vericonnect_agent.Prelude.Search.{iequals}
use vericonnect_agent.Prelude.{
  ℕ, ◌+◌, ◌/◌, inl, inr, Bool, false, not, ◌&&◌, ◌||◌, Option, none, some, List, [], ◌∷◌, ◌++◌,
  arith, Bytes, codes, ltb, ◌==◌, if◌then◌else◌, tests, length, get_or, is_nil,
}

-- `prefix` is no drive root and no UNC prefix.
abbrev pub makes_level : Bytes → Bool
makes_level prefix =
    ltb 2 (length prefix) || (not (get_or prefix 1 0 == b':') && not (get_or prefix 0 0 == b'\\'))

module _ {D : Type 0} where
  -- `p ? p->get_str(key, "") : ""`
  abbrev pub text_at : Option (Json D) → Bytes → Bytes
  text_at none key = []
  text_at (some p) key = get_str p key []

  abbrev pub flag_at : Option (Json D) → Bytes → Bool
  flag_at none key = false
  flag_at (some p) key = get_flag p key false

  abbrev pub params_of : Json D → Option (Json D)
  params_of req = find_ci req (codes "Parameters")

  unfoldable pub target_path : Option (Json D) → Option Bytes
  unfolding join get_str
  target_path p =
      let folder = text_at p (codes "TargetFolder") in
      let name = text_at p (codes "FileName") in
      if is_nil folder || is_nil name then none else some (join folder name)

  -- The bytes of FileContent, where it can be read.
  unfoldable pub content_of : Option (Json D) → Option Bytes
  unfolding get_str decode iequals
  content_of p =
      let content = text_at p (codes "FileContent") in
      if iequals (text_at p (codes "FileContentType")) (codes "base64")
      then decode content
      else some content

  -- The files of the listing.
  abbrev pub file_array : List Bytes → Json D → Json D
  file_array [] files = files
  file_array (n ∷ ns) files = file_array ns (add files (string n))

  abbrev pub empty : Json D
  empty = object no_member

module _ {D : Type 0} (fs : Files) (num : Numbers D) where
  -- The object of result_json, before it is dumped.
  abbrev pub result_value : ℕ → Bytes → Option (Json D) → Json D
  result_value code desc extra =
      let o =
        set_key (set_key empty (codes "StatusCode") (number (num.of_nat code)))
          (codes "StatusDescription") (string desc) in
      elim extra as (λ _. Json D) [ none ↦ o | some d ↦ set_key o (codes "Data") d ]

  unfoldable pub result_json : ℕ → Bytes → Option (Json D) → Bytes
  unfolding dump set_key
  result_json code desc extra = dump (write_number num.double) (result_value code desc extra)

  abbrev pub reply : ℕ → Bytes → Bytes
  reply code desc = result_json code desc none

  -- list_folder once the directory is there; `names` is what list_files gives.
  abbrev pub listed : Bytes → Result (List Bytes) → Bytes
  listed folder (err e) = reply 404 (codes "No files found in the folder " ++ folder)
  listed folder (ok names) =
      if is_nil names
      then reply 404 (codes "No files found in the folder " ++ folder)
      else result_json 200
          (codes "There are "
            ++ (to_string (length names)
                ++ (codes " files under the " ++ (folder ++ codes " folder"))))
          (some (
            set_key (set_key empty (codes "files") (file_array names (array no_more)))
              (codes "FileCount") (number (num.of_nat (length names)))))

  unfoldable pub list_folder : Json D → fs.World → Bytes × fs.World
  unfolding result_json list_files to_string get_str find_ci
  list_folder req w =
      let folder = text_at (params_of req) (codes "TargetFolder") in
      if is_nil folder
      then (reply 400 (codes "Missing parameters, please check your parameters"), w)
      else if not (dir_exists fs folder w)
      then (reply 404 (codes "Folder " ++ (folder ++ codes " not found")), w)
      else (listed folder (list_files fs folder w), w)

  -- The loop of create_folder behind the prefix that it has passed.
  unfoldable pub make_levels : Bytes → Bytes → fs.World → fs.World
  unfolding mkdir
  make_levels prefix [] w = w
  make_levels prefix (c ∷ rest) w =
      make_levels (prefix ++ c ∷ []) rest
        (if (c == b'\\' || c == b'/') && makes_level prefix then (mkdir fs prefix w).1 else w)

  abbrev pub intermediate : Bytes → fs.World → fs.World
  intermediate [] w = w
  intermediate (c ∷ cs) w = make_levels (c ∷ []) cs w

  unfoldable pub create_folder : Json D → fs.World → Bytes × fs.World
  unfolding result_json make_levels mkdir get_str find_ci
  create_folder req w =
      let folder = text_at (params_of req) (codes "TargetFolder") in
      let (made, w') = mkdir fs folder (intermediate folder w) in
      if is_nil folder
      then (reply 400 (codes "Missing parameters, please check your parameters"), w)
      else if dir_exists fs folder w
      then (reply 200 (codes "Folder " ++ (folder ++ codes " already exists")), w)
      else if is_ok made
      then (reply 200 (codes "Folder " ++ (folder ++ codes " created successfully")), w')
      else (reply 400 (codes "Error creating folder: " ++ folder), w')

  -- The write of create_file and its result.
  unfoldable pub write_file : Bytes → Bytes → fs.World → Bytes × fs.World
  unfolding result_json
  write_file path bs w =
      let (written, w') = write_all fs path bs w in
      if is_ok written
      then (reply 200 (codes "Data written successfully to file: " ++ path), w')
      else (reply 400 (codes "Error writing to file: " ++ path), w')

  abbrev pub create_content : Bytes → Option Bytes → fs.World → Bytes × fs.World
  create_content path none w = (reply 400 (codes "FileContent is not valid base64"), w)
  create_content path (some bs) w = write_file path bs w

  abbrev pub create_at : Option (Json D) → Option Bytes → fs.World → Bytes × fs.World
  create_at p none w = (reply 400 (codes "Missing parameters, please check your parameters"), w)
  create_at p (some path) w =
      if file_exists fs path w && not (flag_at p (codes "OverwriteIfExists"))
      then (reply 409 (codes "File already exist and overwrite if exists flag is disabled"), w)
      else create_content path (content_of p) w

  unfoldable pub create_file : Json D → fs.World → Bytes × fs.World
  unfolding result_json write_file content_of target_path get_flag find_ci
  create_file req w = create_at (params_of req) (target_path (params_of req)) w
