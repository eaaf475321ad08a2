-- ===== src/Net/Storage/Answers.antt =====
-- Operations of the server's storage over HTTP, where the server answers in its format.
use os_course_lab.Base.{
  ℕ, ◌+◌, ◌≤◌, ◌≡◌, refl, true, some, List, ◌++◌, done, leb, length, drop, replicate, arith,
  length-append, length-replicate,
}
use os_course_lab.Base.Text.{codes}
use os_course_lab.Base.Buffers.{store_bytes}
use os_course_lab.Base.Splice.{splice}
use os_course_lab.Interface.{NodeMeta}
use os_course_lab.Net.Decode.Fields.{le_bytes, length-le_bytes, type_code}
use os_course_lab.Net.Decode.Laws.{node_meta_bytes, IsWireMeta, parse_node_meta-node_meta_bytes}
use os_course_lab.Net.Decode.More.{parse_node_meta-more}
use os_course_lab.Net.Encode.{encode}
use os_course_lab.Net.Base64.Laws.{AllBytes}
use os_course_lab.Net.Http.Request.{request_text}
use os_course_lab.Net.Http.Request.Laws.{request_text-fits}
use os_course_lab.Net.Http.Response.Lines.{AllOther}
use os_course_lab.Net.Http.Response.Parse.{ReadsDecimal}
use os_course_lab.Net.Http.Response.Status.{HasStatusOk}
use os_course_lab.Net.Http.Sockets.{Kernel}
use os_course_lab.Net.Http.Call.Laws.{Serves, Serves-fits, answer_text, vtfs_http_call-answer_text}
use os_course_lab.Net.Storage.{response_memory, wrote, meta_reply, or_enoent}
use os_course_lab.Net.Storage.Entries.{parent_name, lookup}
use os_course_lab.Net.Storage.OnHttp.{UserMemory, over_http}
use os_course_lab.Net.Storage.Requests.{IsToken, encode_name-fits, parent_name-fits}

response_memory-front :
    (size : ℕ) (bytes : List ℕ)
    → length bytes ≤ size
    → response_memory size bytes ≡ done (bytes ++ drop (0 + length bytes) (replicate size 0))
unfolding store_bytes splice
response_memory-front size bytes fits =
    let inside : leb (0 + length bytes) (length (replicate {A = ℕ} size 0)) ≡ true =
      ground (arith, length-replicate {A = ℕ} size 0) in
    rw inside refl

length-node_meta_bytes : (m : NodeMeta) → length (node_meta_bytes m) ≡ 30
unfolding node_meta_bytes
length-node_meta_bytes m =
    let size = le_bytes 8 m.size in
    let mode = le_bytes 4 m.mode ++ size in
    let type = le_bytes 2 (type_code m.type) ++ mode in
    let parent = le_bytes 8 m.parent_ino ++ type in
    omega (
      arith,
      length-append (le_bytes 8 m.ino) parent,
      length-append (le_bytes 8 m.parent_ino) type,
      length-append (le_bytes 2 (type_code m.type)) mode,
      length-append (le_bytes 4 m.mode) size,
      length-le_bytes 8 m.ino,
      length-le_bytes 8 m.parent_ino,
      length-le_bytes 2 (type_code m.type),
      length-le_bytes 4 m.mode,
      length-le_bytes 8 m.size,
    )

-- The operations that read metadata, at the server's 30 bytes.
meta_reply-node_meta_bytes :
    {W : Type 0} (refusal : ℕ → ℕ) (m : NodeMeta) (n : ℕ) (w : W)
    → IsWireMeta m
    → meta_reply refusal (record { return_value = 0; bytes = node_meta_bytes m; data_len = n }, w)
      ≡ done (wrote m, w)
meta_reply-node_meta_bytes refusal m n w wire =
    let bytes = node_meta_bytes m in
    let more = drop (0 + length bytes) (replicate {A = ℕ} 1024 0) in
    rw
      (
        response_memory-front 1024 bytes (omega (arith, length-node_meta_bytes m)),
        parse_node_meta-more bytes more m (parse_node_meta-node_meta_bytes m wire),
      )
      refl

-- With a token of at most 255 bytes and a name of at most 255 bytes, where kstrtoint reads decimal
-- numbers as documented and the server answers the request for the lookup, over the sockets, with
-- a response with any status line of status 200 (a word, a space, 200, and nothing or a space and
-- a text), with any other headers around Content-Length (lines that are not empty and hold no
-- terminator and no carriage return), that holds the 30 bytes of metadata that the format can
-- hold, a lookup through the server's storage answers just these metadata.
pub lookup-answer_text :
    {W : Type 0} (kernel : Kernel W) (user : UserMemory W) (token name : List ℕ) (parent : ℕ)
    (m : NodeMeta) (status : List ℕ) (before after : List (List ℕ)) (w w' : W)
    → ReadsDecimal kernel.kstrtoint
    → IsToken token
    → AllBytes name
    → length name ≤ 255
    → IsWireMeta m
    → HasStatusOk status
    → AllOther before
    → AllOther after
    → Serves kernel
        (request_text token (codes "lookup") (parent_name parent (encode name)))
        1024
        (answer_text kernel status before after 0 (node_meta_bytes m))
        w
        w'
    → lookup (over_http kernel user) (some token) parent (some name) w ≡ done (wrote m, w')
unfolding lookup
lookup-answer_text kernel user token name parent m status before after w w' documented short all
      named wire ok others_before others_after served =
    let args = parent_name parent (encode name) in
    let size = length-node_meta_bytes m in
    let room =
      request_text-fits token (codes "lookup") args
        (parent_name-fits token (codes "lookup") parent name short (omega arith) all named) in
    let answered =
      vtfs_http_call-answer_text kernel token (codes "lookup") 1024 args w w' status before after 0
        (node_meta_bytes m) documented room (omega arith) ok others_before others_after
        (omega arith) (omega (arith, size)) (omega (arith, Serves-fits kernel _ 1024 _ w w' served))
        served in
    rw (encode_name-fits name all named, answered)
      (meta_reply-node_meta_bytes or_enoent m (length (node_meta_bytes m)) w' wire)
