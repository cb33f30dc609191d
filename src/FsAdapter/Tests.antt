-- ===== src/FsAdapter/Tests.antt =====
-- A file system in memory for adapters/filesystem/src/fs_commands.cpp.
use vericonnect_agent.Base64.{decode, decode_loop, decode_step, b64_val, push_sextet}
use vericonnect_agent.Common.{Result, ok, err, error, not_found, to_string}
use vericonnect_agent.Fs.{Files, join}
use vericonnect_agent.FsAdapter.{target_path, reply, create_file}
use vericonnect_agent.FsAdapter.Create.{CreateResult, create_file_lem, create_file-read_file}
use vericonnect_agent.FsAdapter.Existing.{read_file, move_file}
use vericonnect_agent.FsAdapter.Existing.Archive.{ReadResult, read_file_lem}
use vericonnect_agent.FsAdapter.Existing.Move.{
  MoveRequest, MoveResult, Conflict, move_file_lem, move_file_loses,
}
use vericonnect_agent.FsAdapter.Store.{Disk, is_some, same_text_refl, same_text-eq}
use vericonnect_agent.FsAdapter.Replies.{Reports, ReportsData}
use vericonnect_agent.FsAdapter.Run.{run}
use vericonnect_agent.Json.{
  write_number, Doubles, Numbers, Json, get_str, boolean, string, object, member, no_member,
  same_text, find_ci, get_flag,
}
use vericonnect_agent.Json.Text.{escape}
use vericonnect_agent.Prelude.Search.{iequals}
use vericonnect_agent.Prelude.{
  pos, negsuc, leb, ℕ, ◌≡◌, refl, ap, ◌⊎◌, inl, Bool, true, false, not, ◌&&◌, Option, none, some,
  [], Bytes, codes, ◌==◌, if◌then◌else◌, is_nil,
}

abbrev World : Type 0
World = Bytes → Option Bytes

abbrev without : Bytes → World → World
without p w q = if same_text q p then none else w q

abbrev with_file : Bytes → Option Bytes → World → World
with_file p bs w q = if same_text q p then bs else w q

abbrev memory : Files
memory = record {
  World = World;
  is_regular_file = λ p w. is_some (w p);
  is_directory = λ p w. false;
  is_there = λ p w. is_some (w p);
  create_directory = λ p w. ((true, 0), w);
  remove = λ p w. if is_some (w p) then ((true, 0), without p w) else ((false, 2), w);
  rename =
      λ from to w. if is_some (w from) then (0, with_file to (w from) (without from w)) else (2, w);
  read_stream = λ p w. elim (w p) [ none ↦ err (error not_found) | some bs ↦ ok bs ];
  write_stream = λ p bs w. (ok tt, with_file p (some bs) w);
  entries = λ p w. ([], 0);
  error_text = λ n. [];
}

read_some :
    (o : Option Bytes) (bs : Bytes)
    → ◌≡◌ {A = Result Bytes} (elim o [ none ↦ err (error not_found) | some b ↦ ok b ]) (ok bs)
    → o ≡ some bs
read_some none bs h = cc
read_some (some b) bs h = cc

abbrev remove_if : Bool → Bytes → World → (Bool × ℕ) × World
remove_if b p w = if b then ((true, 0), without p w) else ((false, 2), w)

abbrev rename_if : Bool → Bytes → Bytes → World → ℕ × World
rename_if b from to w = if b then (0, with_file to (w from) (without from w)) else (2, w)

removed_if :
    (b : Bool) (p q : Bytes) (w : World)
    → (remove_if b p w).0.0 ≡ true
    → (remove_if b p w).1 q ≡ without p w q
removed_if true p q w h = refl
removed_if false p q w h = cc

kept_if :
    (b : Bool) (p q : Bytes) (w : World)
    → (remove_if b p w).0.0 ≡ false
    → (remove_if b p w).1 q ≡ w q
kept_if true p q w h = cc
kept_if false p q w h = refl

renamed_if :
    (b : Bool) (from to q : Bytes) (w : World)
    → ((rename_if b from to w).0 == 0) ≡ true
    → (rename_if b from to w).1 q ≡ with_file to (w from) (without from w) q
renamed_if true from to q w h = refl
renamed_if false from to q w h = cc

not_renamed_if :
    (b : Bool) (from to q : Bytes) (w : World)
    → ((rename_if b from to w).0 == 0) ≡ false
    → (rename_if b from to w).1 q ≡ w q
not_renamed_if true from to q w h = cc
not_renamed_if false from to q w h = refl

memory_disk : Disk memory (λ w p. w p) same_text
memory_disk = record {
  itself = same_text_refl;
  alias = λ p q w h. ap w (same_text-eq p q h);
  regular = λ p w. refl;
  there = λ p w h. h;
  created = λ p q w. refl;
  removed = λ p q w y. removed_if (is_some (w p)) p q w y;
  not_removed = λ p q w n. kept_if (is_some (w p)) p q w n;
  renamed = λ from to q w y. renamed_if (is_some (w from)) from to q w y;
  not_renamed = λ from to q w n. not_renamed_if (is_some (w from)) from to q w n;
  written = λ p bs q w y. refl;
  not_written = λ p bs q w n. rw n refl;
  read = λ p bs w y. read_some (w p) bs y;
}

-- Whole numbers as doubles.
abbrev whole_doubles : Doubles ℕ
whole_doubles = record {
  isnan = λ n. false;
  isinf = λ n. false;
  floor = λ n. n;
  same = λ m n. m == n;
  at_most = λ m n. leb m n;
  literal = λ z. elim z [ pos n ↦ n | negsuc n ↦ 0 ];
  to_long_long = λ n. pos n;
  seventeen_digits = λ n. [];
}

abbrev decimal : Numbers ℕ
decimal = record { strtod = λ t. some (0, 1); double = whole_doubles; of_nat = λ n. n }

abbrev disk : World
disk = with_file (codes "d/a") (some (codes "x")) (λ q. none)

abbrev request : Bytes → Json ℕ → Json ℕ
request cmd ps =
    object (member (codes "Command") (string cmd) (member (codes "Parameters") ps no_member))

abbrev read_params : Json ℕ
read_params = object (
    member (codes "TargetFolder") (string (codes "d"))
      (member (codes "FileName") (string (codes "a")) no_member))

abbrev create_params : Json ℕ
create_params = object (
    member (codes "TargetFolder") (string (codes "d")) (
      member (codes "FileName") (string (codes "b")) (
        member (codes "FileContent") (string (codes "eHk="))
          (member (codes "FileContentType") (string (codes "Base64")) no_member))))

abbrev move_params : Bytes → Json ℕ
move_params name = object (
    member (codes "TargetFolder") (string (codes "d")) (
      member (codes "FileName") (string (codes "a")) (
        member (codes "DestinationFolder") (string (codes "d")) (
          member (codes "DestinationFileName") (string name)
            (member (codes "OverwriteIfExists") (boolean true) no_member)))))

unknown :
    (run memory decimal (codes "{\"Command\":\"Chmod\"}") disk).0
    ≡ codes "{\"StatusCode\":404,\"StatusDescription\":\"Command \\\"Chmod\\\" not found.\"}"
unfolding run to_string iequals escape write_number
unknown = refl

read_file_lem_example :
    ReadResult memory decimal
      (λ w p. w p)
      same_text
      memory_disk
      (codes "d/a")
      (codes "d/COPY/a")
      (codes "x")
      false
      disk
      (read_file memory decimal (request (codes "readfile") read_params) disk)
unfolding target_path get_flag get_str join find_ci iequals same_text
read_file_lem_example =
    read_file_lem memory decimal (λ w p. w p) same_text memory_disk
      (request (codes "readfile") read_params) read_params (codes "d/a") (codes "x") disk refl refl
      refl refl

create_file_lem_example :
    CreateResult memory decimal
      (λ w p. w p)
      same_text
      memory_disk
      create_params
      (codes "d/b")
      disk
      (create_file memory decimal (request (codes "createfile") create_params) disk)
unfolding target_path get_flag find_ci iequals same_text
create_file_lem_example =
    create_file_lem memory decimal (λ w p. w p) same_text memory_disk
      (request (codes "createfile") create_params) create_params (codes "d/b") disk refl refl

create_file-read_file_example :
    Reports decimal 200
      (codes "Data written successfully to file: d/b")
      (create_file memory decimal (request (codes "createfile") create_params) disk).0
    × (code : ℕ) × (desc : Bytes) × ReportsData decimal code desc
        (codes "xy")
        (read_file memory decimal
          (request (codes "readfile") create_params)
          (create_file memory decimal (request (codes "createfile") create_params) disk).1).0
unfolding create_file target_path get_flag get_str find_ci iequals same_text decode decode_loop
    decode_step b64_val push_sextet
create_file-read_file_example =
    create_file-read_file memory decimal (λ w p. w p) same_text memory_disk
      (request (codes "createfile") create_params) (request (codes "readfile") create_params)
      create_params create_params (codes "d/b") (codes "xy") (codes "xy") disk refl refl refl
      (inl (refl, refl)) refl refl refl refl

move_request :
    (name : Bytes)
    → is_nil name ≡ false
    → MoveRequest memory decimal
        (λ w p. w p)
        same_text
        memory_disk
        (request (codes "move") (move_params name))
        (codes "d/a")
        (join (codes "d") name)
        true
unfolding target_path get_flag find_ci iequals
move_request name h = record {
  params = move_params name;
  are_params = refl;
  is_src = refl;
  has_dest = h;
  is_dest = refl;
  is_overwrite = refl;
}

move_file_lem_example :
    (Conflict memory decimal
        (λ w p. w p)
        same_text
        memory_disk
        (codes "d/c")
        disk
        (move_file memory decimal (request (codes "move") (move_params (codes "c"))) disk)
      × ((is_some (disk (codes "d/c")) && not true) ≡ true))
    ⊎ (MoveResult memory decimal
          (λ w p. w p)
          same_text
          memory_disk
          (codes "d/a")
          (codes "d/c")
          (codes "x")
          disk
          (move_file memory decimal (request (codes "move") (move_params (codes "c"))) disk)
        × ((is_some (disk (codes "d/c")) && not true) ≡ false))
unfolding join same_text
move_file_lem_example =
    move_file_lem memory decimal (λ w p. w p) same_text memory_disk
      (request (codes "move") (move_params (codes "c"))) (codes "d/a") (codes "d/c") (codes "x")
      true disk (move_request (codes "c") refl) refl refl

move_file_loses_example :
    ((move_file memory decimal (request (codes "move") (move_params (codes "a"))) disk).1
        (codes "d/a")
      ≡ none)
    × ((move_file memory decimal (request (codes "move") (move_params (codes "a"))) disk).0
        ≡ reply memory decimal 400 (codes "Error moving file d/a to d/a"))
unfolding join same_text
move_file_loses_example =
    move_file_loses memory decimal (λ w p. w p) same_text memory_disk
      (request (codes "move") (move_params (codes "a"))) (codes "d/a") (codes "d/a") disk
      (move_request (codes "a") refl) refl refl (λ u h. rw h refl) (λ u h. rw h refl)
