-- ===== src/Net/Http/Call.antt =====
-- `vtfs_http_call`: one request on a socket of its own, and its response.
pub mod Laws
pub mod Release
use os_course_lab.Base.{
  ℕ, ◌+◌, ◌*◌, ◌%◌, ◌^◌, Bool, true, false, Option, none, some, List, Run, done, ◌>>=◌, ◌==◌,
  if◌then◌else◌,
}
use os_course_lab.Interface.IoParams.{is_negative}
use os_course_lab.Net.Http.Request.{Arg, request_size, fill_request}
use os_course_lab.Net.Http.Response.{Response, refused, parse_http_response}
use os_course_lab.Net.Http.Sockets.{Kernel, receive_all}

module _ {W : Type 0} (kernel : Kernel W) where
  -- What a call leaves. Where no response was read, `*data_len` keeps the 0 that every caller puts
  -- there.
  abbrev pub Answered : Type 0
  Answered = Response × W

  -- kernel_sock_shutdown and sock_release
  abbrev pub hang_up : W → W
  hang_up w = kernel.sock_release (kernel.kernel_sock_shutdown w)

  -- From the answer of receive_all on.
  abbrev pub read_response : (buffer_size : ℕ) → ℕ × List ℕ × W → Run Answered
  read_response buffer_size (read_bytes, memory, w) =
      if is_negative read_bytes then done (refused 4, kernel.kfree (hang_up w)) else (do
        response ← parse_http_response kernel.kstrtoint memory read_bytes buffer_size
        done (response, kernel.kfree (hang_up w)))

  -- From the answer of kmalloc on.
  abbrev pub receive_response : (buffer_size : ℕ) → Option (List ℕ) × W → Run Answered
  receive_response buffer_size (none, w) = done (refused 12, hang_up w)
  receive_response buffer_size (some memory, w) = do
    received ← receive_all kernel memory w
    read_response buffer_size received

  -- From the answer of kernel_sendmsg on.
  abbrev pub after_send : (buffer_size : ℕ) → ℕ × W → Run Answered
  after_send buffer_size (error, w) =
      if is_negative error
      then done (refused 3, hang_up (kernel.kfree w))
      else receive_response buffer_size
          (kernel.kmalloc ((buffer_size + 1024) % 2 ^ 64) (kernel.kfree w))

  -- From the answer of kzalloc in fill_request on.
  abbrev pub send_request :
      (token method : List ℕ) → (buffer_size : ℕ) → List Arg → Bool × W → Run Answered
  send_request token method buffer_size args (false, w) = done (refused 12, hang_up w)
  send_request token method buffer_size args (true, w) = do
    text ← fill_request token method args
    after_send buffer_size (kernel.kernel_sendmsg text w)

  -- From the answer of kernel_connect on.
  abbrev pub after_connect :
      (token method : List ℕ) → (buffer_size : ℕ) → List Arg → ℕ × W → Run Answered
  after_connect token method buffer_size args (error, w) =
      if error == 0
      then send_request token method buffer_size args (kernel.kzalloc request_size w)
      else done (refused 2, kernel.sock_release w)

  abbrev pub after_create :
      (token method : List ℕ) → (buffer_size : ℕ) → List Arg → ℕ × W → Run Answered
  after_create token method buffer_size args (error, w) =
      if is_negative error
      then done (refused 1, w)
      else after_connect token method buffer_size args (kernel.kernel_connect w)

  unfoldable pub vtfs_http_call :
      (token method : List ℕ) → (buffer_size : ℕ) → List Arg → W → Run Answered
  vtfs_http_call token method buffer_size args w =
      after_create token method buffer_size args (kernel.sock_create_kern w)
