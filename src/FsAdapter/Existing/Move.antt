-- ===== src/FsAdapter/Existing/Move.antt =====
-- adapters/filesystem/src/fs_commands.cpp: what move_file does to the files.
use vericonnect_agent.Common.{Error, err, error, exists, io}
use vericonnect_agent.Fs.{Files, join, file_exists, dir_exists, mkdir, remove_file, move}
use vericonnect_agent.FsAdapter.{reply, text_at, flag_at, params_of, target_path}
use vericonnect_agent.FsAdapter.Existing.{move_over, move_to, move_file, move_at, dest_name}
use vericonnect_agent.FsAdapter.Store.{
  Disk, IsMoved, IsKept, is_some, remove_file-other, move-cases, mkdir_unless-Same, exists-Same,
}
use vericonnect_agent.FsAdapter.Replies.{Reports, reply-Reports}
use vericonnect_agent.Json.{Numbers, Json}
use vericonnect_agent.Prelude.{
  ◌≡◌, refl, sym, ap, ◌∙◌, ◌⊎◌, inl, inr, Bool, true, false, not, ◌&&◌, ◌||◌, Option, none, some,
  ◌++◌, Bytes, codes, ◌==◌, if◌then◌else◌, Bool-cases, is_nil,
}

module _ {D : Type 0} (fs : Files) (num : Numbers D) (store : fs.World → Bytes → Option Bytes)
    (is_same : Bytes → Bytes → Bool) (d : Disk fs store is_same) where
  -- The worlds of move_over: the folder is made, and the file that stands at `dest` removed.
  abbrev prepared : Bytes → fs.World → fs.World
  prepared dest_folder w =
      if not (dir_exists fs dest_folder w) then (mkdir fs dest_folder w).1 else w

  abbrev cleared : Bytes → fs.World → fs.World
  cleared dest w = if file_exists fs dest w then (remove_file fs dest w).1 else w

  cleared_other :
      (dest_folder dest q : Bytes) (w : fs.World)
      → is_same q dest ≡ false
      → store (cleared dest (prepared dest_folder w)) q ≡ store w q
  cleared_other dest_folder dest q w n =
      remove_file-other fs store is_same d (file_exists fs dest (prepared dest_folder w)) dest q
        (prepared dest_folder w) n
      ∙ mkdir_unless-Same fs store is_same d (not (dir_exists fs dest_folder w)) dest_folder w q

  abbrev pub MoveResult : Bytes → Bytes → Bytes → fs.World → Bytes × fs.World → Type 0
  MoveResult src dest bs w r =
      (Reports num 200 (codes "File moved from " ++ (src ++ (codes " to " ++ dest))) r.0
        × IsMoved fs store is_same d src dest bs w r.1)
      ⊎ (Reports num 400 (codes "Error moving file " ++ (src ++ (codes " to " ++ dest))) r.0
          × IsKept fs store is_same d src dest bs w r.1)

  -- A file at `dest` stands in the way, and nothing is done.
  abbrev pub Conflict : Bytes → fs.World → Bytes × fs.World → Type 0
  Conflict dest w r =
      Reports num 409
        (codes "File " ++ (dest ++ codes " already exists and overwrite is not allowed.")) r.0
      × (r.1 ≡ w)

  move_over-MoveResult :
      (src dest_folder dest bs : Bytes) (w : fs.World)
      → is_same src dest ≡ false
      → store w src ≡ some bs
      → MoveResult src dest bs w (move_over fs num src dest_folder dest w)
  unfolding move_over
  move_over-MoveResult src dest_folder dest bs w n here =
      let c = cleared dest (prepared dest_folder w) in
      let still : store c src ≡ some bs = cleared_other dest_folder dest src w n ∙ here in
      elim (move-cases fs store is_same d src dest c) [
        | inl m ↦ inl (
            rw (move_over, m.0)
              (
                reply-Reports fs num 200 _,
                (
                  m.1 dest ∙ rw (d.itself dest) still,
                  m.1 src ∙ rw (n, d.itself src) refl,
                  λ q a b. m.1 q ∙ rw (b, a) (cleared_other dest_folder dest q w b),
                ),
              ))
        | inr m ↦ inr (
            rw (move_over, m.1.0)
              (
                reply-Reports fs num 400 _,
                (m.1.1 src ∙ still, λ q b. m.1.1 q ∙ cleared_other dest_folder dest q w b),
              ))
      ]

  -- A request that names its files: the parameters, the path of the file, and where it goes.
  pub record MoveRequest (req : Json D) (src dest : Bytes) (overwrite : Bool) : Type 0 where
    pub params : Json D
    pub are_params : params_of req ≡ some params
    pub is_src : target_path (some params) ≡ some src
    pub has_dest :
        (is_nil (text_at (some params) (codes "DestinationFolder"))
          || is_nil (dest_name fs num (some params)))
        ≡ false
    pub is_dest :
        join (text_at (some params) (codes "DestinationFolder")) (dest_name fs num (some params))
        ≡ dest
    pub is_overwrite : flag_at (some params) (codes "OverwriteIfExists") ≡ overwrite

  named :
      (req : Json D) (src dest : Bytes) (overwrite : Bool) (w : fs.World)
      (m : MoveRequest req src dest overwrite)
      → move_file fs num req w
        ≡ move_to fs num src (text_at (some m.params) (codes "DestinationFolder")) dest overwrite w
  unfolding move_file
  named req src dest overwrite w m =
      ap (λ p. move_at fs num p (target_path p) w) m.are_params
      ∙ ap (λ t. move_at fs num (some m.params) t w) m.is_src
      ∙ rw m.has_dest (
          ap
            (λ b.
              move_to fs num src (text_at (some m.params) (codes "DestinationFolder")) b
                (flag_at (some m.params) (codes "OverwriteIfExists")) w)
            m.is_dest
          ∙ ap
              (λ o.
                move_to fs num src (text_at (some m.params) (codes "DestinationFolder")) dest o w)
              m.is_overwrite)

  move_to-MoveResult :
      (src dest_folder dest bs : Bytes) (overwrite : Bool) (w : fs.World)
      → is_same src dest ≡ false
      → store w src ≡ some bs
      → (Conflict dest w (move_to fs num src dest_folder dest overwrite w)
          × ((is_some (store w dest) && not overwrite) ≡ true))
        ⊎ (MoveResult src dest bs w (move_to fs num src dest_folder dest overwrite w)
            × ((is_some (store w dest) && not overwrite) ≡ false))
  unfolding move_to
  move_to-MoveResult src dest_folder dest bs overwrite w n' here =
      let there : file_exists fs src w ≡ true = d.regular src w ∙ ap is_some here in
      elim (Bool-cases (file_exists fs dest w && not overwrite)) [
        | inl y ↦
            inl
              (rw (move_to, there, y) (reply-Reports fs num 409 _, refl), rw (← d.regular dest w) y)
        | inr n ↦ inr (
          rw (move_to, there, n) (move_over-MoveResult src dest_folder dest bs w n' here),
          rw (← d.regular dest w) n,
        )
      ]

  -- MoveFile of a file to a path that names another file: where a file stands there and may not be overwritten, a
  -- conflict is reported and nothing is done; else the file is at the new path with its bytes, gone
  -- from the old one, and 200 is reported, or it is still at the old path with its bytes and 400 is
  -- reported. No file but those two changes.
  pub move_file_lem :
      (req : Json D) (src dest bs : Bytes) (overwrite : Bool) (w : fs.World)
      → MoveRequest req src dest overwrite
      → is_same src dest ≡ false
      → store w src ≡ some bs
      → (Conflict dest w (move_file fs num req w)
          × ((is_some (store w dest) && not overwrite) ≡ true))
        ⊎ (MoveResult src dest bs w (move_file fs num req w)
            × ((is_some (store w dest) && not overwrite) ≡ false))
  move_file_lem req src dest bs overwrite w m ne here = rw (named req src dest overwrite w m) (
      move_to-MoveResult src (text_at (some m.params) (codes "DestinationFolder")) dest bs overwrite
        w ne here)

  -- Under the name `dest` the file `src` is removed.
  removed_alias :
      (src dest : Bytes) (u : fs.World)
      → is_same src dest ≡ true
      → (fs.remove dest u).0.0 ≡ true
      → store (remove_file fs dest u).1 src ≡ none
  unfolding remove_file
  removed_alias src dest u a y = rw (remove_file, y) (d.removed dest src u y ∙ rw a refl)

  -- A file that is not there is not moved.
  move-none :
      (src dest : Bytes) (u : fs.World)
      → store u src ≡ none
      → ((fs.rename src dest u).0 == 0) ≡ false
      → ((e : Error) × ((move fs src dest u).0 ≡ err e)) × (store (move fs src dest u).1 src ≡ none)
  unfolding move
  move-none src dest u no_file n = elim (Bool-cases (fs.is_there dest u)) [
    | inl y ↦ rw (move, y) ((error exists, refl), no_file)
    | inr m ↦
        rw (move, m, n)
          ((record { code = io; os_code = _ }, refl), d.not_renamed src dest src u n ∙ no_file)
  ]

  gone :
      (src dest_folder dest : Bytes) (w : fs.World)
      → is_same src dest ≡ true
      → is_some (store w src) ≡ true
      → ((u : fs.World) → is_some (store u dest) ≡ true → (fs.remove dest u).0.0 ≡ true)
      → ((u : fs.World) → store u src ≡ none → ((fs.rename src dest u).0 == 0) ≡ false)
      → (store (move_over fs num src dest_folder dest w).1 src ≡ none)
        × ((move_over fs num src dest_folder dest w).0
            ≡ reply fs num 400 (codes "Error moving file " ++ (src ++ (codes " to " ++ dest))))
  unfolding move_over
  gone src dest_folder dest w a here removes renames =
      let w1 = prepared dest_folder w in
      let there : file_exists fs dest w1 ≡ true =
        exists-Same fs store is_same d dest w w1
          (mkdir_unless-Same fs store is_same d (not (dir_exists fs dest_folder w)) dest_folder w)
        ∙ d.regular dest w
        ∙ ap is_some (sym (d.alias src dest w a))
        ∙ here in
      let c = (remove_file fs dest w1).1 in
      let no_file = removed_alias src dest w1 a (removes w1 (sym (d.regular dest w1) ∙ there)) in
      let m = move-none src dest c no_file (renames c no_file) in
      rw (move_over, there) (rw m.0.1 (m.1, refl))

  -- MoveFile of a file onto itself with OverwriteIfExists, under the same path or another that names
  -- it, loses the file: it is removed as the one to be overwritten, and the move that follows fails.
  -- The file can be removed, and a file that is not there cannot be renamed.
  pub move_file_loses :
      (req : Json D) (src dest : Bytes) (w : fs.World)
      → MoveRequest req src dest true
      → is_same src dest ≡ true
      → is_some (store w src) ≡ true
      → ((u : fs.World) → is_some (store u dest) ≡ true → (fs.remove dest u).0.0 ≡ true)
      → ((u : fs.World) → store u src ≡ none → ((fs.rename src dest u).0 == 0) ≡ false)
      → (store (move_file fs num req w).1 src ≡ none)
        × ((move_file fs num req w).0
            ≡ reply fs num 400 (codes "Error moving file " ++ (src ++ (codes " to " ++ dest))))
  unfolding move_to
  move_file_loses req src dest w m a here removes renames =
      let there : file_exists fs src w ≡ true = d.regular src w ∙ here in
      let folder = text_at (some m.params) (codes "DestinationFolder") in
      rw (named req src dest true w m) (elim (Bool-cases (file_exists fs dest w)) [
        | inl y ↦ rw (move_to, there, y) (gone src folder dest w a here removes renames)
        | inr k ↦ rw (move_to, there, k) (gone src folder dest w a here removes renames)
      ])
