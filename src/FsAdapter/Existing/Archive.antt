-- ===== src/FsAdapter/Existing/Archive.antt =====
-- adapters/filesystem/src/fs_commands.cpp: what read_file returns, and what it does to the files.
use vericonnect_agent.Common.{Status, Error, ok, error_detail}
use vericonnect_agent.Fs.{Files, join, file_exists, dir_exists, mkdir, remove_file, move}
use vericonnect_agent.FsAdapter.{flag_at, params_of, target_path}
use vericonnect_agent.FsAdapter.Existing.{
  copy_dir, copy_path, archive_code, archive_desc, attempted, archive_to, archive, read_json,
  read_at, read_file,
}
use vericonnect_agent.FsAdapter.Store.{
  Disk, Same, IsMoved, IsKept, is_some, remove_file-other, move-cases, mkdir_unless-Same,
  exists-Same,
}
use vericonnect_agent.FsAdapter.Replies.{ReportsData, read_json-ReportsData}
use vericonnect_agent.Json.{Numbers, Json, get_str, get_flag}
use vericonnect_agent.Prelude.{
  ◌≡◌, refl, sym, ap, ◌∙◌, subst, ◌⊎◌, inl, inr, Bool, true, false, not, ◌&&◌, Option, some, [],
  ◌++◌, Bytes, codes, if◌then◌else◌, Bool-cases,
}

module _ {D : Type 0} (fs : Files) (num : Numbers D) (store : fs.World → Bytes → Option Bytes)
    (is_same : Bytes → Bytes → Bool) (d : Disk fs store is_same) where
  -- What ReadFile answers and does, with the file at `path` and its place in COPY at `dest`.
  abbrev pub ReadResult : Bytes → Bytes → Bytes → Bool → fs.World → Bytes × fs.World → Type 0
  ReadResult path dest bs overwrite w r =
      (ReportsData num 200 (codes "File " ++ (path ++ codes " read successfully")) bs r.0
        × IsMoved fs store is_same d path dest bs w r.1)
      ⊎ ((ReportsData num 409
              (codes "File " ++ (dest ++ codes " already exists and overwrite is not allowed.")) bs
              r.0
            × Same fs store is_same d w r.1
            × ((is_some (store w dest) && not overwrite) ≡ true))
          ⊎ ((e : Error) × (ReportsData num 500
                  (codes "File "
                    ++ (path
                        ++ (codes " was read but could not be archived to "
                            ++ (dest ++ (codes ": " ++ error_detail fs.error_text e)))))
                  bs r.0
                × IsKept fs store is_same d path dest bs w r.1)))

  abbrev answered : Bytes → Bytes → Bytes → Option Status × fs.World → Bytes × fs.World
  answered path dest bs (a, w) =
      (read_json fs num (archive_code a) (archive_desc fs num path dest a) bs, w)

  -- The move of the file, from a world in which no file but that at `dest` differs.
  move-ReadResult :
      (path dest bs : Bytes) (overwrite : Bool) (w u : fs.World)
      → is_same path dest ≡ false
      → store u path ≡ some bs
      → ((q : Bytes) → is_same q dest ≡ false → store u q ≡ store w q)
      → ReadResult path dest bs overwrite w
          (answered path dest bs (attempted fs num (move fs path dest u)))
  move-ReadResult path dest bs overwrite w u n here others =
      elim (move-cases fs store is_same d path dest u) [
        | inl m ↦ inl (
            rw m.0 (
              read_json-ReportsData fs num 200 _ bs,
              (
                m.1 dest ∙ rw (d.itself dest) here,
                m.1 path ∙ rw (n, d.itself path) refl,
                λ q a b. m.1 q ∙ rw (b, a) (others q b),
              ),
            ))
        | inr m ↦ inr (
            inr (
              m.0,
              rw m.1.0 (
                read_json-ReportsData fs num 500 _ bs,
                (m.1.1 path ∙ here, λ q b. m.1.1 q ∙ others q b),
              ),
            ))
      ]

  archive_to-ReadResult :
      (path dest bs : Bytes) (overwrite : Bool) (w u : fs.World)
      → is_same path dest ≡ false
      → store w path ≡ some bs
      → Same fs store is_same d w u
      → ReadResult path dest bs overwrite w
          (answered path dest bs (archive_to fs num path dest overwrite u))
  unfolding archive_to
  archive_to-ReadResult path dest bs overwrite w u n here same =
      elim (Bool-cases (file_exists fs dest u)) [
        | inr m ↦
            rw (archive_to, m)
              (move-ReadResult path dest bs overwrite w u n (same path ∙ here) (λ q b. same q))
        | inl y ↦ elim (Bool-cases overwrite) [
          | inl o ↦
              rw (archive_to, y, o)
                (move-ReadResult path dest bs true w (remove_file fs dest u).1 n
                  (remove_file-other fs store is_same d true dest path u n ∙ same path ∙ here)
                  (λ q b. remove_file-other fs store is_same d true dest q u b ∙ same q))
          | inr o ↦
              let there : is_some (store w dest) ≡ true =
                sym (d.regular dest w) ∙ sym (exists-Same fs store is_same d dest w u same) ∙ y in
              rw (archive_to, y, o)
                (inr (inl (read_json-ReportsData fs num 409 _ bs, same, rw there refl)))
        ]
      ]

  -- ReadFile of a file that can be read answers with an object whose member "Data" is its bytes in
  -- base64 and "FileSize" their number, and whose status and description say what becomes of the file:
  -- it is at its path in the folder COPY with its bytes, and gone from its own path (200), or a file
  -- stands there that may not be overwritten, and nothing is done (409), or it cannot be moved, and is
  -- still at its own path with its bytes (500). No file but those two changes. The path in COPY names
  -- another file than the one that is read.
  pub read_file_lem :
      (req p : Json D) (path bs : Bytes) (w : fs.World)
      → params_of req ≡ some p
      → target_path (some p) ≡ some path
      → fs.read_stream path w ≡ ok bs
      → is_same path (
          join
            (join (get_str p (codes "TargetFolder") []) (codes "COPY"))
            (get_str p (codes "FileName") []))
        ≡ false
      → ReadResult path
          (join
            (join (get_str p (codes "TargetFolder") []) (codes "COPY"))
            (get_str p (codes "FileName") []))
          bs
          (get_flag p (codes "OverwriteIfExists") false)
          w
          (read_file fs num req w)
  unfolding read_file archive
  read_file_lem req p path bs w hp ht read n =
      let here = d.read path bs w read in
      let there : file_exists fs path w ≡ true = d.regular path w ∙ ap is_some here in
      let overwrite = flag_at (some p) (codes "OverwriteIfExists") in
      let P = ReadResult path (copy_path (some p)) bs overwrite w in
      subst P
        (sym (
          ap (λ o. read_at fs num o (target_path o) w) hp
          ∙ ap (λ o. read_at fs num (some p) o w) ht))
        (rw (there, read)
          (archive_to-ReadResult path (copy_path (some p)) bs overwrite w
            (if not (dir_exists fs (copy_dir (some p)) w)
              then (mkdir fs (copy_dir (some p)) w).1
              else w)
            n here
            (mkdir_unless-Same fs store is_same d (not (dir_exists fs (copy_dir (some p)) w))
              (copy_dir (some p)) w)))
