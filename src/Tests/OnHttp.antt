-- ===== src/Tests/OnHttp.antt =====
-- The HTTP client at small responses.
use os_course_lab.Base.{
  IfDone, ℕ, ◌+◌, ◌*◌, ◌≤◌, ◌≡◌, refl, some, List, [], ◌∷◌, ◌++◌, done, fault, Ensures, length,
  replicate, arith,
}
use os_course_lab.Base.Text.{codes, digits, decimal}
use os_course_lab.Interface.{NodeMeta, file}
use os_course_lab.Net.Decode.Fields.{le_bytes}
use os_course_lab.Net.Decode.Laws.{node_meta_bytes, IsWireMeta}
use os_course_lab.Net.Encode.{encode}
use os_course_lab.Net.Http.Request.{args_text, request_text}
use os_course_lab.Net.Http.Response.{parse_http_response}
use os_course_lab.Net.Http.Response.Lines.{AllOther, header_lines, is_prefix}
use os_course_lab.Net.Http.Response.Parse.{
  response_text, cut_text, parse_http_response-response_text, parse_http_response-cut_text,
}
use os_course_lab.Net.Http.Response.Status.{HasStatusOk}
use os_course_lab.Net.Http.Sockets.{receive_all}
use os_course_lab.Net.Http.Sockets.Laws.{IsFilled, receive_all_ends}
use os_course_lab.Net.Http.Call.{vtfs_http_call}
use os_course_lab.Net.Http.Call.Laws.{Serves, serves, answer_text, vtfs_http_call-answer_text}
use os_course_lab.Net.Http.Call.Release.{vtfs_http_call-releases}
use os_course_lab.Net.Storage.{wrote}
use os_course_lab.Net.Storage.Entries.{parent_name, lookup}
use os_course_lab.Net.Storage.OnHttp.{over_http}
use os_course_lab.Net.Storage.Answers.{lookup-answer_text}
use os_course_lab.Tests.Machines.{
  Machine, idle, decimal_of, machine_kernel, user_memory, decimal_of-ReadsDecimal,
  machine_kernel-KeepsRoom, machine_kernel-Counts, one_piece,
}

-- The status line
abbrev ok_line : List ℕ
ok_line = codes "HTTP/1.1 200 OK"

ok_line-HasStatusOk : HasStatusOk ok_line
ok_line-HasStatusOk = record {
  version = codes "HTTP/1.1";
  reason = codes " OK";
  is_text = refl;
  is_word = omega arith;
  is_reason = (refl, omega arith);
}

-- One header besides Content-Length
abbrev plain_text : List (List ℕ)
plain_text = codes "Server: x" ∷ []

plain_text-AllOther : AllOther plain_text
unfolding is_prefix
plain_text-AllOther =
    (record { line_text = omega arith; first = λ e. absurd (ground (arith, e)); other = refl }, tt)

text_size :
    60 + 1
    ≡ length (
        response_text ok_line plain_text []
          (decimal 10)
          (le_bytes 8 5 ++ ((1 ∷ 2 ∷ []) ++ (170 ∷ []))))
unfolding response_text header_lines decimal digits le_bytes
text_size = refl

-- The answer of a server to a request for two bytes, with what stands after it in memory.
parse_http_response-response_text_example :
    parse_http_response decimal_of
      (response_text ok_line plain_text []
        (decimal 10)
        (le_bytes 8 5 ++ ((1 ∷ 2 ∷ []) ++ (170 ∷ []))))
      60
      16
    ≡ done (record { return_value = 5; bytes = 1 ∷ 2 ∷ []; data_len = 2 })
parse_http_response-response_text_example =
    parse_http_response-response_text decimal_of ok_line plain_text [] 5 (1 ∷ 2 ∷ []) (170 ∷ []) 60
      16 decimal_of-ReadsDecimal ok_line-HasStatusOk plain_text-AllOther tt (omega arith)
      (omega arith) (omega arith) text_size

parse_http_response-cut_text_example :
    parse_http_response decimal_of (cut_text ok_line [] [] (decimal 8) (170 ∷ 170 ∷ [])) 37 16
    ≡ fault
parse_http_response-cut_text_example =
    parse_http_response-cut_text decimal_of ok_line [] [] 8 (170 ∷ 170 ∷ []) 37 16
      decimal_of-ReadsDecimal ok_line-HasStatusOk tt tt (omega arith) (omega arith) (omega arith)

-- Two pieces into a buffer of four bytes
abbrev two_pieces : Machine
two_pieces = record { arriving = (1 ∷ 2 ∷ []) ∷ (3 ∷ []) ∷ []; sockets = 1; blocks = 1 }

receive_all_ends_example :
    Ensures (IsFilled machine_kernel 4) (receive_all machine_kernel (0 ∷ 0 ∷ 0 ∷ 0 ∷ []) two_pieces)
receive_all_ends_example =
    receive_all_ends machine_kernel machine_kernel-KeepsRoom (0 ∷ 0 ∷ 0 ∷ 0 ∷ []) two_pieces
      (omega arith)

abbrev some_meta : NodeMeta
some_meta = record { ino = 1001; parent_ino = 1000; type = file; mode = 0o100644; size = 70000 }

some_meta-IsWireMeta : IsWireMeta some_meta
some_meta-IsWireMeta = record {
  ino = omega arith;
  parent_ino = omega arith;
  type = tt;
  mode = omega arith;
  size = omega arith;
}

-- The server's answer to a lookup
abbrev meta_text : List ℕ
meta_text = answer_text machine_kernel ok_line [] [] 0 (node_meta_bytes some_meta)

abbrev with_meta : Machine
with_meta = record { arriving = meta_text ∷ []; sockets = 0; blocks = 0 }

length-meta_text : length meta_text ≡ 77
unfolding response_text header_lines decimal digits le_bytes node_meta_bytes
length-meta_text = refl

with_meta-Serves : (request : List ℕ) → Serves machine_kernel request 1024 meta_text with_meta idle
with_meta-Serves request =
    serves with_meta _ _ _ _ _ (record { arriving = []; sockets = 1; blocks = 1 }) 0 0
      (replicate 2048 170) refl refl refl refl refl refl refl refl
      (one_piece 2048 meta_text 1 1 (omega (arith, length-meta_text))
        (omega (arith, length-meta_text)))

small_request : length (request_text [] (codes "lookup") []) + 1 ≤ 32 * 1024 + 64
unfolding request_text args_text
small_request = omega arith

vtfs_http_call-answer_text_example :
    vtfs_http_call machine_kernel [] (codes "lookup") 1024 [] with_meta
    ≡ done (record { return_value = 0; bytes = node_meta_bytes some_meta; data_len = 30 }, idle)
unfolding node_meta_bytes le_bytes
vtfs_http_call-answer_text_example =
    vtfs_http_call-answer_text machine_kernel [] (codes "lookup") 1024 [] with_meta idle ok_line []
      [] 0 (node_meta_bytes some_meta) decimal_of-ReadsDecimal small_request (omega arith)
      ok_line-HasStatusOk tt tt (omega arith) (omega arith) (omega (arith, length-meta_text))
      (with_meta-Serves (request_text [] (codes "lookup") []))

vtfs_http_call-releases_example :
    IfDone
      (λ answered. (answered.1.sockets ≡ 0) × (answered.1.blocks ≡ 0))
      (vtfs_http_call machine_kernel [] (codes "lookup") 1024 [] with_meta)
vtfs_http_call-releases_example =
    vtfs_http_call-releases machine_kernel (λ m. m.sockets) (λ m. m.blocks) machine_kernel-Counts []
      (codes "lookup") 1024 [] with_meta

lookup-answer_text_example :
    lookup
      (over_http machine_kernel user_memory)
      (some (codes "t"))
      1000
      (some (codes "a b"))
      with_meta
    ≡ done (wrote some_meta, idle)
lookup-answer_text_example =
    lookup-answer_text machine_kernel user_memory (codes "t") (codes "a b") 1000 some_meta ok_line
      [] [] with_meta idle decimal_of-ReadsDecimal (omega arith) (omega arith) (omega arith)
      some_meta-IsWireMeta ok_line-HasStatusOk tt tt
      (with_meta-Serves
        (request_text (codes "t") (codes "lookup") (parent_name 1000 (encode (codes "a b")))))
