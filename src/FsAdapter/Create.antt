-- ===== src/FsAdapter/Create.antt =====
-- adapters/filesystem/src/fs_commands.cpp: what create_file writes, and what read_file gives of it.
use vericonnect_agent.Common.{Status, ok, err}
use vericonnect_agent.Fs.{Files, file_exists}
use vericonnect_agent.FsAdapter.{
  reply, flag_at, params_of, target_path, content_of, write_file, create_content, create_at,
  create_file,
}
use vericonnect_agent.FsAdapter.Existing.{
  archive, archive_code, archive_desc, copy_path, read_at, read_file,
}
use vericonnect_agent.FsAdapter.Store.{Disk, is_some}
use vericonnect_agent.Base64.{decode}
use vericonnect_agent.FsAdapter.Replies.{Reports, ReportsData, reply-Reports, read_json-ReportsData}
use vericonnect_agent.Json.{Numbers, Json, get_str, get_flag}
use vericonnect_agent.Prelude.Search.{iequals}
use vericonnect_agent.Prelude.{
  ℕ, ◌≡◌, refl, sym, ap, ◌∙◌, subst, ◌⊎◌, inl, inr, Bool, true, false, not, ◌&&◌, Option, none,
  some, some-injective, [], ◌++◌, Bytes, codes, Bool-cases,
}

-- What the request gives as the content of the file: the text as it stands, or what it is in base64
-- where its type says so, in any case of letters.
abbrev pub IsContent : {D : Type 0} → Json D → Bytes → Type 0
IsContent p bs =
    ((iequals (get_str p (codes "FileContentType") []) (codes "base64") ≡ true)
      × (decode (get_str p (codes "FileContent") []) ≡ some bs))
    ⊎ ((iequals (get_str p (codes "FileContentType") []) (codes "base64") ≡ false)
        × (get_str p (codes "FileContent") [] ≡ bs))

-- It says that it is in base64 and is not.
abbrev pub IsBadContent : {D : Type 0} → Json D → Type 0
IsBadContent p =
    (iequals (get_str p (codes "FileContentType") []) (codes "base64") ≡ true)
    × (decode (get_str p (codes "FileContent") []) ≡ none)

content_of-IsContent :
    {D : Type 0} (p : Json D) (bs : Bytes) → IsContent p bs → content_of (some p) ≡ some bs
unfolding content_of
content_of-IsContent p bs (inl h) = rw (content_of, h.0) h.1
content_of-IsContent p bs (inr h) = rw (content_of, h.0) (ap some h.1)

content_of-some :
    {D : Type 0} (p : Json D) (bs : Bytes) → content_of (some p) ≡ some bs → IsContent p bs
unfolding content_of
content_of-some p bs h =
    elim (Bool-cases (iequals (get_str p (codes "FileContentType") []) (codes "base64"))) [
      | inl y ↦ inl (y, rw (content_of, y) at h)
      | inr n ↦ inr (n, some-injective _ _ (rw (content_of, n) at h))
    ]

some-ne : {A : Type 0} {a : A} → ◌≡◌ {A = Option A} (some a) none → ⊥
some-ne h = cc

content_of-none : {D : Type 0} (p : Json D) → content_of (some p) ≡ none → IsBadContent p
unfolding content_of
content_of-none p h =
    elim (Bool-cases (iequals (get_str p (codes "FileContentType") []) (codes "base64"))) [
      | inl y ↦ (y, rw (content_of, y) at h)
      | inr n ↦ absurd (some-ne (rw (content_of, n) at h))
    ]

module _ {D : Type 0} (fs : Files) (num : Numbers D) (store : fs.World → Bytes → Option Bytes)
    (is_same : Bytes → Bytes → Bool) (d : Disk fs store is_same) where
  -- The bytes are in the file, or the write failed; no other file changes.
  abbrev pub IsWritten : Bytes → Bytes → fs.World → Bytes × fs.World → Type 0
  IsWritten path bs w r =
      ((Reports num 200 (codes "Data written successfully to file: " ++ path) r.0
          × (store r.1 path ≡ some bs))
        ⊎ Reports num 400 (codes "Error writing to file: " ++ path) r.0)
      × ((q : Bytes) → is_same q path ≡ false → store r.1 q ≡ store w q)

  write_file-IsWritten :
      (path bs : Bytes) (w : fs.World) → IsWritten path bs w (write_file fs num path bs w)
  unfolding write_file
  write_file-IsWritten path bs w = go ((fs.write_stream path bs w).0) refl
    where
      go :
          (s : Status)
          → (fs.write_stream path bs w).0 ≡ s
          → IsWritten path bs w (write_file fs num path bs w)
      go (ok a) e =
          rw (write_file, e)
            (
              inl (
                reply-Reports fs num 200 _,
                d.written path bs path w e ∙ rw (d.itself path) refl,
              ),
              λ q n. d.not_written path bs q w n,
            )
      go (err x) e =
          rw (write_file, e) (inr (reply-Reports fs num 400 _), λ q n. d.not_written path bs q w n)

  -- Nothing is done, and this is reported.
  abbrev pub Refused : ℕ → Bytes → fs.World → Bytes × fs.World → Type 0
  Refused code desc w r = Reports num code desc r.0 × (r.1 ≡ w)

  abbrev pub CreateResult : Json D → Bytes → fs.World → Bytes × fs.World → Type 0
  CreateResult p path w r =
      (Refused 409 (codes "File already exist and overwrite if exists flag is disabled") w r
        × ((is_some (store w path) && not (get_flag p (codes "OverwriteIfExists") false)) ≡ true))
      ⊎ (((is_some (store w path) && not (get_flag p (codes "OverwriteIfExists") false)) ≡ false)
          × ((Refused 400 (codes "FileContent is not valid base64") w r × IsBadContent p)
              ⊎ ((bs : Bytes) × IsContent p bs × IsWritten path bs w r)))

  IsContent-result :
      (p : Json D) (path : Bytes) (w : fs.World) (o : Option Bytes)
      → content_of (some p) ≡ o
      → (Refused 400 (codes "FileContent is not valid base64") w (create_content fs num path o w)
          × IsBadContent p)
        ⊎ ((bs : Bytes) × IsContent p bs × IsWritten path bs w (create_content fs num path o w))
  IsContent-result p path w none e = inl ((reply-Reports fs num 400 _, refl), content_of-none p e)
  IsContent-result p path w (some bs) e =
      inr (bs, content_of-some p bs e, write_file-IsWritten path bs w)

  -- CreateFile: where a file stands at the path and may not be overwritten, a conflict is reported and
  -- nothing is done; where the content is said to be base64 and is not, 400 is reported and nothing is
  -- done; else the content is written and 200 is reported, or the write fails and 400 is reported. No
  -- other file changes.
  pub create_file_lem :
      (req p : Json D) (path : Bytes) (w : fs.World)
      → params_of req ≡ some p
      → target_path (some p) ≡ some path
      → CreateResult p path w (create_file fs num req w)
  unfolding create_file
  create_file_lem req p path w hp ht =
      let P = CreateResult p path w in
      let over = flag_at (some p) (codes "OverwriteIfExists") in
      subst P
        (sym (
          ap (λ o. create_at fs num o (target_path o) w) hp
          ∙ ap (λ o. create_at fs num (some p) o w) ht))
        (elim (Bool-cases (file_exists fs path w && not over)) [
          | inl y ↦ rw y (inl ((reply-Reports fs num 409 _, refl), rw (← d.regular path w) y))
          | inr n ↦ rw n (
              inr (rw (← d.regular path w) n, IsContent-result p path w (content_of (some p)) refl))
        ])

  -- The bytes that read_file gives are those of the file.
  read-given :
      (req p : Json D) (path bs bs' : Bytes) (w : fs.World)
      → params_of req ≡ some p
      → target_path (some p) ≡ some path
      → store w path ≡ some bs
      → fs.read_stream path w ≡ ok bs'
      → (code : ℕ) × (desc : Bytes) × ReportsData num code desc bs (read_file fs num req w).0
  unfolding read_file
  read-given req p path bs bs' w hp ht here read =
      let same : bs' ≡ bs = some-injective _ _ (sym (d.read path bs' w read) ∙ here) in
      let there : file_exists fs path w ≡ true = d.regular path w ∙ ap is_some here in
      let a = archive fs num (some p) path w in
      let P =
        λ (r : Bytes × fs.World). (code : ℕ) × (desc : Bytes) × ReportsData num code desc bs r.0 in
      subst P
        (sym (
          ap (λ o. read_at fs num o (target_path o) w) hp
          ∙ ap (λ o. read_at fs num (some p) o w) ht))
        (rw (there, read ∙ ap ok same)
          (
            archive_code a.0,
            archive_desc fs num path (copy_path (some p)) a.0,
            read_json-ReportsData fs num _ _ bs,
          ))

  created :
      (req p : Json D) (path bs : Bytes) (w : fs.World)
      → params_of req ≡ some p
      → target_path (some p) ≡ some path
      → (is_some (store w path) && not (flag_at (some p) (codes "OverwriteIfExists"))) ≡ false
      → content_of (some p) ≡ some bs
      → create_file fs num req w ≡ write_file fs num path bs w
  unfolding create_file
  created req p path bs w hp ht free content =
      let guard : (file_exists fs path w && not (flag_at (some p) (codes "OverwriteIfExists")))
          ≡ false =
        rw (d.regular path w) free in
      ap (λ o. create_at fs num o (target_path o) w) hp
      ∙ ap (λ o. create_at fs num (some p) o w) ht
      ∙ rw guard (ap (λ o. create_content fs num path o w) content)

  written_lem :
      (path bs : Bytes) (w : fs.World)
      → (fs.write_stream path bs w).0 ≡ ok tt
      → ((write_file fs num path bs w).0
          ≡ reply fs num 200 (codes "Data written successfully to file: " ++ path))
        × (store (write_file fs num path bs w).1 path ≡ some bs)
  unfolding write_file
  written_lem path bs w e =
      rw (write_file, e) (refl, d.written path bs path w e ∙ rw (d.itself path) refl)

  -- A file that CreateFile has written is read back by ReadFile: it reports success, and a later request
  -- for the same path, where the file can be read, answers with the content that was given, the decoded
  -- bytes where it was given in base64: its member "Data" is these bytes in base64 and "FileSize" their
  -- number, whatever status the archiving has.
  pub create_file-read_file :
      (req req' p p' : Json D) (path bs bs' : Bytes) (w : fs.World)
      → params_of req ≡ some p
      → target_path (some p) ≡ some path
      → (is_some (store w path) && not (get_flag p (codes "OverwriteIfExists") false)) ≡ false
      → IsContent p bs
      → (fs.write_stream path bs w).0 ≡ ok tt
      → params_of req' ≡ some p'
      → target_path (some p') ≡ some path
      → fs.read_stream path (create_file fs num req w).1 ≡ ok bs'
      → Reports num 200
          (codes "Data written successfully to file: " ++ path)
          (create_file fs num req w).0
        × (code : ℕ) × (desc : Bytes) × ReportsData num code desc bs
            (read_file fs num req' (create_file fs num req w).1).0
  create_file-read_file req req' p p' path bs bs' w hp ht free content wrote hp' ht' read =
      let e = created req p path bs w hp ht free (content_of-IsContent p bs content) in
      let done = written_lem path bs w wrote in
      let here : store (create_file fs num req w).1 path ≡ some bs =
        ap (λ r. store r.1 path) e ∙ done.1 in
      let given = read-given req' p' path bs bs' (create_file fs num req w).1 hp' ht' here read in
      (
        subst (Reports num 200 _) (sym (ap (λ r. r.0) e ∙ done.0)) (reply-Reports fs num 200 _),
        given.0,
        given.1,
        given.2,
      )
