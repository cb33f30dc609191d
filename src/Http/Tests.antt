-- ===== src/Http/Tests.antt =====
-- Concrete runs of core/src/vc_http.cpp, and the theorems of this folder at concrete inputs.
use vericonnect_agent.Common.{ok, parse_uint, digit_value, scan_digits}
use vericonnect_agent.Http.Answer.{answer, status_line}
use vericonnect_agent.Http.Chunked.{Chunk, print_chunks, contents, decode_chunked_lem}
use vericonnect_agent.Http.Exchange.{exchange}
use vericonnect_agent.Http.Headers.{Field, IsField, lookup, print_block}
use vericonnect_agent.Http.Parse.{parse_response_lem}
use vericonnect_agent.Http.Returns.{exchange_returns}
use vericonnect_agent.Http.{Request, Response, parse_response, decode_chunked}
use vericonnect_agent.Net.Scripted.{ScriptedWorld, scripted, scripted_streams, wire_send}
use vericonnect_agent.Prelude.Search.{iequals}
use vericonnect_agent.Prelude.{◌≡◌, refl, ◌≢◌, inl, false, none, [], ◌∷◌, ◌++◌, arith, Bytes, codes}

abbrev field : Field
field = record { name = codes "A"; blanks = codes " "; value = codes "b" }

field-IsField : IsField field
field-IsField = (((refl, refl), tt), (refl, tt), (refl, tt), refl)

abbrev chunk : Chunk
chunk = record { digits = codes "02"; extension = codes ";x"; data_ = codes "hi" }

abbrev chunked_body : Bytes
chunked_body = print_chunks (chunk ∷ []) (codes "0" ++ ([] ++ codes "\r\n\r\n"))

decode_chunked_lem_example : decode_chunked chunked_body ≡ codes "hi"
unfolding contents parse_uint digit_value scan_digits
decode_chunked_lem_example =
    decode_chunked_lem (chunk ∷ []) (codes "0") [] (codes "\r\n")
      ((((refl, (refl, tt)), refl, refl, (refl, (refl, tt))), λ h. cc), tt)
      ((refl, tt), refl, tt, tt)

abbrev chunked_field : Field
chunked_field = record {
  name = codes "transfer-encoding";
  blanks = codes " ";
  value = codes "gzip, Chunked";
}

chunked_field-IsField : IsField chunked_field
chunked_field-IsField = (
  (
    (refl, refl),
    (
      (refl, refl),
      (
        (refl, refl),
        (
          (refl, refl),
          (
            (refl, refl),
            (
              (refl, refl),
              (
                (refl, refl),
                (
                  (refl, refl),
                  (
                    (refl, refl),
                    (
                      (refl, refl),
                      (
                        (refl, refl),
                        (
                          (refl, refl),
                          (
                            (refl, refl),
                            ((refl, refl), ((refl, refl), ((refl, refl), ((refl, refl), tt)))),
                          ),
                        ),
                      ),
                    ),
                  ),
                ),
              ),
            ),
          ),
        ),
      ),
    ),
  ),
  (refl, tt),
  (
    refl,
    (
      refl,
      (refl, (refl, (refl, (refl, (refl, (refl, (refl, (refl, (refl, (refl, (refl, tt))))))))))),
    ),
  ),
  refl,
)

parse_response_lem_example :
    parse_response (answer (codes "404") (codes "No") (field ∷ chunked_field ∷ []) chunked_body)
    ≡ ok (record {
      status = 404;
      status_text = codes "No";
      headers = print_block (status_line (codes "404") (codes "No")) (field ∷ chunked_field ∷ []);
      body = decode_chunked chunked_body;
    })
unfolding parse_uint digit_value scan_digits lookup iequals
parse_response_lem_example =
    parse_response_lem (codes "404") (codes "No") (field ∷ chunked_field ∷ []) chunked_body
      (decode_chunked chunked_body) 404 (refl, (refl, (refl, tt))) refl (omega arith)
      (refl, (refl, tt)) (field-IsField, (chunked_field-IsField, tt))
      (inl (codes "gzip, Chunked", refl, (codes "gzip, ", codes "Chunked", [], refl, refl), refl))

-- A server's answer on the wire, with bytes behind it.
abbrev answered : ScriptedWorld
answered = record {
  wire = record {
    incoming = codes "HTTP/1.1 200 OK\r\nContent-Length: 2\r\n\r\nhi";
    outgoing = [];
    read_pos = 0;
    is_closed = false;
    eof = false;
    fail_send = false;
  };
  clock = 100;
  seed = 7;
}

abbrev get_request : Request
get_request = record {
  method = codes "GET";
  host = codes "h";
  path_and_query = codes "/";
  extra_headers = [];
  body = [];
  content_type = [];
  timeout_ms = 1000;
}

abbrev response : Response
response = record {
  status = 200;
  status_text = codes "OK";
  headers = codes "HTTP/1.1 200 OK\r\nContent-Length: 2";
  body = codes "hi";
}

exchange_returns_example : (exchange scripted 50 tt get_request answered).0 ≢ none
unfolding wire_send
exchange_returns_example =
    exchange_returns scripted scripted_streams tt 50 get_request answered (omega arith)
