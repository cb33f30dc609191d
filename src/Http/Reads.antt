-- ===== src/Http/Reads.antt =====
-- exchange of core/src/vc_http.cpp: what it has read when it answers, and that it answers.
use vericonnect_agent.Common.{Result, Status, ok, err}
use vericonnect_agent.Http.{Request, k_max_response_bytes, request_head}
use vericonnect_agent.Http.Exchange.{parsed, send_body}
use vericonnect_agent.Net.{Net, Streams}
use vericonnect_agent.Prelude.{◌≤◌, ◌≡◌, refl, ◌≢◌, Option, none, some, ◌++◌, Bytes, length}

pub parsed-none : (n : Net) (r : Option (Result Bytes)) → r ≢ none → parsed n r ≢ none
parsed-none n none h = absurd (h refl)
parsed-none n (some (err e)) h = λ k. cc
parsed-none n (some (ok in_)) h = λ k. cc

module _ (n : Net) (s : Streams n) (c : n.Conn) where
  -- What a run of the loop from `in_` on has read when it answers with bytes: a front of all that
  -- arrives, and not too much of it.
  abbrev Reads : Bytes → n.World → Option (Result Bytes) → Type 0
  Reads in_ w r =
      (all : Bytes)
      → r ≡ some (ok all)
      → (left : Bytes) × (in_ ++ s.arriving c w ≡ all ++ left)
        × ((length in_ ≤ k_max_response_bytes) → length all ≤ k_max_response_bytes)

  -- Where exchange is with its request sent.
  abbrev pub after_sends : Request → n.World → Status × n.World
  after_sends req w =
      send_body n c req (n.send c (request_head req) w).0 (n.send c (request_head req) w).1
