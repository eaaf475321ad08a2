-- ===== src/Net/Http/Call/Laws.antt =====
-- A whole call, where the server answers in its format.
use os_course_lab.Base.{
  ℕ, ◌+◌, ◌%◌, ◌^◌, ◌≤◌, ◌<◌, ◌≡◌, refl, ap, ◌∙◌, sym, true, false, some, List, [], ◌∷◌, ◌++◌, done,
  leb, length, drop, arith, length-append,
}
use mathlib.Core.List.{append_assoc}
use os_course_lab.Base.Text.{decimal}
use os_course_lab.Interface.IoParams.{is_negative}
use os_course_lab.Net.Decode.Fields.{le_bytes, length-le_bytes}
use os_course_lab.Net.Http.Request.{Arg, request_size, request_text, fill_request}
use os_course_lab.Net.Http.Response.{content_length, parse_http_response}
use os_course_lab.Net.Http.Response.Lines.{AllOther, header_lines}
use os_course_lab.Net.Http.Response.Parse.{
  response_text, ReadsDecimal, parse_http_response-response_text, length-response_text,
}
use os_course_lab.Net.Http.Response.Status.{HasStatusOk}
use os_course_lab.Net.Http.Sockets.{Kernel}
use os_course_lab.Net.Http.Sockets.Laws.{Stream, Stream-fits, receive_all-Stream}
use os_course_lab.Net.Http.Call.{hang_up, vtfs_http_call}

header_lines-append :
    (lines : List (List ℕ)) (tail more : List ℕ)
    → header_lines lines tail ++ more ≡ header_lines lines (tail ++ more)
unfolding header_lines
header_lines-append [] tail more = refl
header_lines-append (line ∷ lines) tail more =
    ap (λ t. 10 ∷ t)
      (append_assoc line (13 ∷ header_lines lines tail) more
        ∙ ap (λ t. line ++ (13 ∷ t)) (header_lines-append lines tail more))

response_text-append :
    (status : List ℕ) (before after : List (List ℕ)) (number rest more : List ℕ)
    → response_text status before after number rest ++ more
      ≡ response_text status before after number (rest ++ more)
unfolding response_text
response_text-append status before after number rest more =
    let last = header_lines after (10 ∷ 13 ∷ 10 ∷ rest) in
    let first = header_lines before (10 ∷ (content_length ++ (number ++ (13 ∷ last)))) in
    append_assoc status (13 ∷ first) more
    ∙ ap (λ t. status ++ (13 ∷ t))
        (header_lines-append before (10 ∷ (content_length ++ (number ++ (13 ∷ last)))) more
          ∙ ap (λ t. header_lines before (10 ∷ (content_length ++ t)))
              (append_assoc number (13 ∷ last) more
                ∙ ap (λ t. number ++ (13 ∷ t))
                    (header_lines-append after (10 ∷ 13 ∷ 10 ∷ rest) more)))

module _ {W : Type 0} (kernel : Kernel W) where
  -- The network and the server: they take the request, and `text` is the stream of their answer.
  pub data Serves (request : List ℕ) (buffer_size : ℕ) (text : List ℕ) : W → W → Type 0 where
    serves :
        (w w₁ w₂ w₃ w₄ w₅ w₆ : W) (created sent : ℕ) (memory : List ℕ)
        → kernel.sock_create_kern w ≡ (created, w₁)
        → is_negative created ≡ false
        → kernel.kernel_connect w₁ ≡ (0, w₂)
        → kernel.kzalloc request_size w₂ ≡ (true, w₃)
        → kernel.kernel_sendmsg request w₃ ≡ (sent, w₄)
        → is_negative sent ≡ false
        → kernel.kmalloc (buffer_size + 1024) (kernel.kfree w₄) ≡ (some memory, w₅)
        → length memory ≡ buffer_size + 1024
        → Stream kernel (length memory) w₅ text w₆
        → Serves request buffer_size text w (kernel.kfree (hang_up kernel w₆))

  -- The text that a server sends: a value and the bytes of the answer after its headers.
  abbrev pub answer_text :
      (status : List ℕ) (before after : List (List ℕ)) → (value : ℕ) → List ℕ → List ℕ
  answer_text status before after value bytes =
      response_text status before after (decimal (8 + length bytes)) (le_bytes 8 value ++ bytes)

  pub Serves-fits :
      (request : List ℕ) (buffer_size : ℕ) (text : List ℕ) (w w' : W)
      → Serves request buffer_size text w w'
      → length text ≤ buffer_size + 1024
  Serves-fits request buffer_size text _ _
        (serves w w₁ w₂ w₃ w₄ w₅ w₆ created sent memory e₁ opened e₂ e₃ e₄ accepted e₅ whole
          stream) =
      omega (arith, Stream-fits kernel (length memory) w₅ w₆ text stream, whole)

  parse_received :
      (status : List ℕ) (before after : List (List ℕ)) (value : ℕ) (bytes memory : List ℕ)
      (buffer_size : ℕ)
      → ReadsDecimal kernel.kstrtoint
      → HasStatusOk status
      → AllOther before
      → AllOther after
      → value < 2 ^ 64
      → length bytes ≤ buffer_size
      → 8 + length bytes < 2 ^ 31
      → parse_http_response kernel.kstrtoint
          (answer_text status before after value bytes ++ memory)
          (length (answer_text status before after value bytes))
          buffer_size
        ≡ done (record { return_value = value; bytes = bytes; data_len = length bytes })
  parse_received status before after value bytes memory buffer_size documented ok others_before
        others_after hv fits small =
      let number = decimal (8 + length bytes) in
      let same =
        response_text-append status before after number (le_bytes 8 value ++ bytes) memory
        ∙ ap (response_text status before after number)
            (append_assoc (le_bytes 8 value) bytes memory) in
      ap
        (λ text.
          parse_http_response kernel.kstrtoint text
            (length (answer_text status before after value bytes)) buffer_size)
        same
      ∙ parse_http_response-response_text kernel.kstrtoint status before after value bytes memory _
          buffer_size documented ok others_before others_after hv fits small
          (sym (length-append (answer_text status before after value bytes) memory)
            ∙ ap length same)

  -- Where kstrtoint reads decimal numbers as documented, the request and the answer fit their
  -- buffers, the kernel's calls succeed, and the stream of the answer is a response shorter than 2
  -- ^ 31 bytes with any status line of status 200 (a word, a space, 200, and nothing or a space
  -- and a text), any other headers around Content-Length (lines that are not empty and hold no
  -- terminator and no carriage return), and a value and bytes in the body, the call returns the
  -- value and stores exactly the bytes, however the stream is cut into pieces and whatever stood
  -- in the buffer before.
  pub vtfs_http_call-answer_text :
      (token method : List ℕ) (buffer_size : ℕ) (args : List Arg) (w w' : W) (status : List ℕ)
      (before after : List (List ℕ)) (value : ℕ) (bytes : List ℕ)
      → ReadsDecimal kernel.kstrtoint
      → length (request_text token method args) + 1 ≤ request_size
      → buffer_size + 1024 < 2 ^ 64
      → HasStatusOk status
      → AllOther before
      → AllOther after
      → value < 2 ^ 64
      → length bytes ≤ buffer_size
      → length (answer_text status before after value bytes) < 2 ^ 31
      → Serves
          (request_text token method args)
          buffer_size
          (answer_text status before after value bytes)
          w
          w'
      → vtfs_http_call kernel token method buffer_size args w
        ≡ done (record { return_value = value; bytes = bytes; data_len = length bytes }, w')
  unfolding vtfs_http_call fill_request
  vtfs_http_call-answer_text token method buffer_size args _ _ status before after value bytes
        documented room size ok others_before others_after hv fits counted
        (serves w w₁ w₂ w₃ w₄ w₅ w₆ created sent memory e₁ opened e₂ e₃ e₄ accepted e₅ whole
          stream) =
      let text = answer_text status before after value bytes in
      let fitting : leb (length (request_text token method args) + 1) request_size ≡ true =
        ground arith in
      let small : 8 + length bytes < 2 ^ 31 = omega (
        arith,
        counted,
        length-response_text status before after (decimal (8 + length bytes))
            (le_bytes 8 value ++ bytes),
        length-append (le_bytes 8 value) bytes,
        length-le_bytes 8 value,
      ) in
      let counts : is_negative (length text) ≡ false = ground (arith, counted) in
      let asked : (buffer_size + 1024) % 2 ^ 64 ≡ buffer_size + 1024 = omega arith in
      rw
        (
          e₁,
          opened,
          e₂,
          e₃,
          fitting,
          e₄,
          accepted,
          asked,
          e₅,
          receive_all-Stream kernel w₅ w₆ memory text stream counted,
          counts,
          parse_received status before after value bytes (drop (length text) memory) buffer_size
              documented ok others_before others_after hv fits small,
        )
        refl
