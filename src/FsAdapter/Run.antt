-- ===== src/FsAdapter/Run.antt =====
-- adapters/filesystem/src/fs_adapter.cpp: the table of commands.
use vericonnect_agent.Common.{Result, ok, err}
use vericonnect_agent.Fs.{Files}
use vericonnect_agent.FsAdapter.{empty, list_folder, create_folder, create_file}
use vericonnect_agent.FsAdapter.Existing.{read_file, delete_file, move_file}
use vericonnect_agent.Json.{
  write_number, Numbers, Json, string, number, set_key, dump, get_str, same_text,
}
use vericonnect_agent.Json.Parse.{parse}
use vericonnect_agent.Prelude.Ascii.{to_lower}
use vericonnect_agent.Prelude.{
  ℕ, Option, none, some, List, [], ◌∷◌, ◌++◌, map, Bytes, codes, if◌then◌else◌, is_nil,
}

-- The handlers that the table names.
pub data Handler : Type 0 where
  do_list_folder do_create_folder do_create_file do_read_file do_delete_file do_move_file : Handler

abbrev pub handlers : List (Bytes × Handler)
handlers =
    (codes "listfolder", do_list_folder)
    ∷ (codes "createfolder", do_create_folder)
    ∷ (codes "createfile", do_create_file)
    ∷ (codes "readfile", do_read_file)
    ∷ (codes "deletefile", do_delete_file)
    ∷ (codes "movefile", do_move_file)
    ∷ (codes "move", do_move_file)
    ∷ []

unfoldable pub find_handler : List (Bytes × Handler) → Bytes → Option Handler
unfolding same_text
find_handler [] cmd = none
find_handler ((name, handler) ∷ hs) cmd =
    let rest = find_handler hs cmd in if same_text name cmd then some handler else rest

module _ {D : Type 0} (fs : Files) (num : Numbers D) where
  unfoldable pub make_error : ℕ → Bytes → Bytes
  unfolding dump set_key
  make_error code desc = dump (write_number num.double) (
      set_key (set_key empty (codes "StatusCode") (number (num.of_nat code)))
        (codes "StatusDescription") (string desc))

  -- The call of a handler.
  abbrev pub handle : Handler → Json D → fs.World → Bytes × fs.World
  handle do_list_folder = list_folder fs num
  handle do_create_folder = create_folder fs num
  handle do_create_file = create_file fs num
  handle do_read_file = read_file fs num
  handle do_delete_file = delete_file fs num
  handle do_move_file = move_file fs num

  abbrev pub run_handler : Json D → Bytes → Option Handler → fs.World → Bytes × fs.World
  run_handler root cmd (some handler) w = handle handler root w
  run_handler root cmd none w =
      (make_error 404 (codes "Command \"" ++ (cmd ++ codes "\" not found.")), w)

  abbrev pub run_command : Json D → Bytes → fs.World → Bytes × fs.World
  run_command root cmd w =
      if is_nil cmd
      then (make_error 400 (codes "\"Command\" parameter is required."), w)
      else run_handler root cmd (find_handler handlers (map to_lower cmd)) w

  abbrev pub run_root : Result (Json D) → fs.World → Bytes × fs.World
  run_root (err e) w = (make_error 400 (codes "Invalid JSON format."), w)
  run_root (ok root) w = run_command root (get_str root (codes "Command") []) w

  unfoldable pub run : Bytes → fs.World → Bytes × fs.World
  unfolding make_error find_handler parse get_str list_folder create_folder create_file read_file
      delete_file move_file
  run request_json w = run_root (parse num.strtod request_json) w
