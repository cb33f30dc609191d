-- ===== src/FsAdapter/Replies.antt =====
-- adapters/filesystem/src/fs_commands.cpp: what the text of a result says, member by member.
use vericonnect_agent.Base64.{encode}
use vericonnect_agent.Fs.{Files}
use vericonnect_agent.FsAdapter.{empty, result_value, result_json, reply}
use vericonnect_agent.FsAdapter.Existing.{read_json}
use vericonnect_agent.Json.{write_number, Numbers, Json, string, number, find_ci, set_key, dump}
use vericonnect_agent.Prelude.Search.{iequals}
use vericonnect_agent.Prelude.{ℕ, ◌≡◌, refl, none, some, Bytes, codes, length}

module _ {D : Type 0} (num : Numbers D) where
  -- The text of an object with this status and this description.
  unfoldable pub Reports : ℕ → Bytes → Bytes → Type 0
  Reports code desc out =
      (root : Json D) × (out ≡ dump (write_number num.double) root)
      × (find_ci root (codes "StatusCode") ≡ some (number (num.of_nat code)))
      × (find_ci root (codes "StatusDescription") ≡ some (string desc))

  -- The same with the bytes in base64 as "Data" and their number as "FileSize".
  unfoldable pub ReportsData : ℕ → Bytes → Bytes → Bytes → Type 0
  ReportsData code desc bs out =
      (root : Json D) × (out ≡ dump (write_number num.double) root)
      × (find_ci root (codes "StatusCode") ≡ some (number (num.of_nat code)))
      × (find_ci root (codes "StatusDescription") ≡ some (string desc))
      × (find_ci root (codes "Data") ≡ some (string (encode bs)))
      × (find_ci root (codes "FileSize") ≡ some (number (num.of_nat (length bs))))

module _ {D : Type 0} (fs : Files) (num : Numbers D) where
  pub reply-Reports : (code : ℕ) (desc : Bytes) → Reports num code desc (reply fs num code desc)
  unfolding Reports result_json set_key find_ci iequals
  reply-Reports code desc = (result_value fs num code desc none, refl, refl, refl)

  pub read_json-ReportsData :
      (code : ℕ) (desc bs : Bytes) → ReportsData num code desc bs (read_json fs num code desc bs)
  unfolding ReportsData read_json set_key find_ci iequals
  read_json-ReportsData code desc bs =
      let o = set_key empty (codes "StatusCode") (number (num.of_nat code)) in
      let o = set_key o (codes "StatusDescription") (string desc) in
      let o = set_key o (codes "Data") (string (encode bs)) in
      (set_key o (codes "FileSize") (number (num.of_nat (length bs))), refl, refl, refl, refl, refl)
