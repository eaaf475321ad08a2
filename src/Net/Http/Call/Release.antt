-- ===== src/Net/Http/Call/Release.antt =====
-- The sockets and the blocks of memory of a call.
use os_course_lab.Base.{
  IfDone, IfDone-bind, IfDone-any, ◌%◌, ◌^◌, ℕ, zero, suc, ◌+◌, ◌-◌, ◌≡◌, Bool, true, false, not,
  Option, none, some, List, [], ◌∷◌, Run, ltb, ◌==◌, length, arith, Bool-cases, inl, inr,
}
use os_course_lab.Base.Buffers.{store_bytes}
use os_course_lab.Interface.IoParams.{is_negative}
use os_course_lab.Net.Http.Request.{Arg, request_size, fill_request}
use os_course_lab.Net.Http.Response.{as_int, parse_http_response}
use os_course_lab.Net.Http.Sockets.{
  Received, failed, got, Kernel, Filled, store_received, receive_loop, receive_all,
}
use os_course_lab.Net.Http.Call.{
  Answered, hang_up, read_response, receive_response, after_send, send_request, after_connect,
  after_create, vtfs_http_call,
}

abbrev pub one_if : Bool → ℕ
one_if true = 1
one_if false = 0

abbrev pub one_of : Option (List ℕ) → ℕ
one_of none = 0
one_of (some memory) = 1

module _ {W : Type 0} (kernel : Kernel W) (sockets blocks : W → ℕ) where
  -- What the kernel documents of its calls, where `sockets` counts the open sockets and `blocks`
  -- the allocated blocks.
  pub record Counts : Type 0 where
    pub create :
        (w : W)
        → (sockets (kernel.sock_create_kern w).1
            ≡ sockets w + one_if (not (is_negative (kernel.sock_create_kern w).0)))
          × (blocks (kernel.sock_create_kern w).1 ≡ blocks w)
    pub connect :
        (w : W)
        → (sockets (kernel.kernel_connect w).1 ≡ sockets w)
          × (blocks (kernel.kernel_connect w).1 ≡ blocks w)
    pub send :
        (text : List ℕ) (w : W)
        → (sockets (kernel.kernel_sendmsg text w).1 ≡ sockets w)
          × (blocks (kernel.kernel_sendmsg text w).1 ≡ blocks w)
    pub receive :
        (room : ℕ) (w : W)
        → (sockets (kernel.kernel_recvmsg room w).1 ≡ sockets w)
          × (blocks (kernel.kernel_recvmsg room w).1 ≡ blocks w)
    pub shutdown :
        (w : W)
        → (sockets (kernel.kernel_sock_shutdown w) ≡ sockets w)
          × (blocks (kernel.kernel_sock_shutdown w) ≡ blocks w)
    pub release :
        (w : W)
        → (sockets (kernel.sock_release w) ≡ sockets w - 1)
          × (blocks (kernel.sock_release w) ≡ blocks w)
    pub zeroed :
        (size : ℕ) (w : W)
        → (sockets (kernel.kzalloc size w).1 ≡ sockets w)
          × (blocks (kernel.kzalloc size w).1 ≡ blocks w + one_if (kernel.kzalloc size w).0)
    pub allocated :
        (size : ℕ) (w : W)
        → (sockets (kernel.kmalloc size w).1 ≡ sockets w)
          × (blocks (kernel.kmalloc size w).1 ≡ blocks w + one_of (kernel.kmalloc size w).0)
    pub freed :
        (w : W) → (sockets (kernel.kfree w) ≡ sockets w) × (blocks (kernel.kfree w) ≡ blocks w - 1)

  -- `w` has `s` open sockets and `b` blocks.
  abbrev Has : (s b : ℕ) → W → Type 0
  Has s b w = (sockets w ≡ s) × (blocks w ≡ b)

  module _ (counts : Counts) where
    Has-hang_up : (s b : ℕ) (w : W) → Has (suc s) b w → Has s b (hang_up kernel w)
    Has-hang_up s b w h =
        let shut = counts.shutdown w in
        let off = counts.release (kernel.kernel_sock_shutdown w) in
        (omega (arith, shut.0, off.0, h.0), omega (arith, shut.1, off.1, h.1))

    Has-kfree : (s b : ℕ) (w : W) → Has s (suc b) w → Has s b (kernel.kfree w)
    Has-kfree s b w h =
        let gone = counts.freed w in (omega (arith, gone.0, h.0), omega (arith, gone.1, h.1))

    Has-store_received :
        (next : List ℕ → ℕ → W → Run (Filled kernel)) (buffer : List ℕ) (read s b : ℕ)
        (answer : Received × W)
        → Has s b answer.1
        → ((buffer' : List ℕ) (read' : ℕ) (w : W)
            → Has s b w
            → IfDone (λ filled. Has s b filled.2) (next buffer' read' w))
        → IfDone (λ filled. Has s b filled.2) (store_received kernel next buffer read answer)
    Has-store_received next buffer read s b (failed, w) h further = h
    Has-store_received next buffer read s b (got [], w) h further = h
    Has-store_received next buffer read s b (got (c ∷ bytes), w) h further =
        IfDone-bind (λ buffer'. Unit) (λ filled. Has s b filled.2)
          (store_bytes buffer read (c ∷ bytes)) _ (IfDone-any (store_bytes buffer read (c ∷ bytes)))
          (λ buffer' u. further buffer' (as_int (read + length (c ∷ bytes))) w h)

    Has-receive_loop :
        (fuel : ℕ) (buffer : List ℕ) (read s b : ℕ) (w : W)
        → Has s b w
        → IfDone (λ filled. Has s b filled.2) (receive_loop kernel fuel buffer read w)
    unfolding receive_loop
    Has-receive_loop zero buffer read s b w h = tt
    Has-receive_loop (suc fuel) buffer read s b w h = elim (Bool-cases (ltb read (length buffer))) [
      | inr full ↦ rw full h
      | inl room ↦
          let kept = counts.receive (length buffer - read) w in
          rw room (
            Has-store_received (receive_loop kernel fuel) buffer read s b
              (kernel.kernel_recvmsg (length buffer - read) w)
              (omega (arith, kept.0, h.0), omega (arith, kept.1, h.1))
              (λ buffer' read' w'. Has-receive_loop fuel buffer' read' s b w'))
    ]

    abbrev Left : (s b : ℕ) → Run (Answered kernel) → Type 0
    Left s b = IfDone (λ answered. Has s b answered.1)

    Left-read_response :
        (buffer_size s b : ℕ) (filled : Filled kernel)
        → Has (suc s) (suc b) filled.2
        → Left s b (read_response kernel buffer_size filled)
    Left-read_response buffer_size s b (read_bytes, memory, w) h =
        let parsed = parse_http_response kernel.kstrtoint memory read_bytes buffer_size in
        let freed = Has-kfree s b (hang_up kernel w) (Has-hang_up s (suc b) w h) in
        elim (Bool-cases (is_negative read_bytes)) [
          | inl below ↦ rw below freed
          | inr above ↦ rw above (
              IfDone-bind (λ response. Unit) (λ answered. Has s b answered.1) parsed _
                (IfDone-any parsed) (λ response u. freed))
        ]

    Has-receive_all :
        (buffer : List ℕ) (s b : ℕ) (w : W)
        → Has s b w
        → IfDone (λ filled. Has s b filled.2) (receive_all kernel buffer w)
    unfolding receive_all
    Has-receive_all buffer s b w h = Has-receive_loop (length buffer + 1) buffer 0 s b w h

    Left-receive_response :
        (buffer_size s b : ℕ) (memory : Option (List ℕ) × W)
        → Has (suc s) (b + one_of memory.0) memory.1
        → Left s b (receive_response kernel buffer_size memory)
    Left-receive_response buffer_size s b (none, w) h = Has-hang_up s b w (h.0, omega (arith, h.1))
    Left-receive_response buffer_size s b (some memory, w) h =
        IfDone-bind (λ filled. Has (suc s) (suc b) filled.2) (λ answered. Has s b answered.1)
          (receive_all kernel memory w) _
          (Has-receive_all memory (suc s) (suc b) w (h.0, omega (arith, h.1)))
          (λ filled. Left-read_response buffer_size s b filled)

    Left-after_send :
        (buffer_size s b : ℕ) (answer : ℕ × W)
        → Has (suc s) (suc b) answer.1
        → Left s b (after_send kernel buffer_size answer)
    Left-after_send buffer_size s b (error, w) h =
        let clean = Has-kfree (suc s) b w h in
        elim (Bool-cases (is_negative error)) [
          | inl lost ↦ rw lost (Has-hang_up s b (kernel.kfree w) clean)
          | inr sent ↦
              let more = counts.allocated ((buffer_size + 1024) % 2 ^ 64) (kernel.kfree w) in
              rw sent (
                Left-receive_response buffer_size s b
                  (kernel.kmalloc ((buffer_size + 1024) % 2 ^ 64) (kernel.kfree w))
                  (omega (arith, more.0, clean.0), omega (arith, more.1, clean.1)))
        ]

    Left-send_request :
        (token method : List ℕ) (buffer_size : ℕ) (args : List Arg) (s b : ℕ) (room : Bool × W)
        → Has (suc s) (b + one_if room.0) room.1
        → Left s b (send_request kernel token method buffer_size args room)
    Left-send_request token method buffer_size args s b (false, w) h =
        Has-hang_up s b w (h.0, omega (arith, h.1))
    Left-send_request token method buffer_size args s b (true, w) h =
        let text = fill_request token method args in
        IfDone-bind (λ text. Unit) (λ answered. Has s b answered.1) text _ (IfDone-any text)
          (λ text u.
            let kept = counts.send text w in
            Left-after_send buffer_size s b (kernel.kernel_sendmsg text w)
              (omega (arith, kept.0, h.0), omega (arith, kept.1, h.1)))

    Left-after_connect :
        (token method : List ℕ) (buffer_size : ℕ) (args : List Arg) (s b : ℕ) (answer : ℕ × W)
        → Has (suc s) b answer.1
        → Left s b (after_connect kernel token method buffer_size args answer)
    Left-after_connect token method buffer_size args s b (error, w) h =
        elim (Bool-cases (error == 0)) [
          | inl up ↦
              let more = counts.zeroed request_size w in
              rw up (
                Left-send_request token method buffer_size args s b (kernel.kzalloc request_size w)
                  (omega (arith, more.0, h.0), omega (arith, more.1, h.1)))
          | inr down ↦
              let off = counts.release w in
              rw down (omega (arith, off.0, h.0), omega (arith, off.1, h.1))
        ]

    Left-after_create :
        (token method : List ℕ) (buffer_size : ℕ) (args : List Arg) (s b : ℕ) (answer : ℕ × W)
        → Has (s + one_if (not (is_negative answer.0))) b answer.1
        → Left s b (after_create kernel token method buffer_size args answer)
    Left-after_create token method buffer_size args s b (error, w) h =
        elim (Bool-cases (is_negative error)) [
          | inl bad ↦
              let had : Has (s + one_if (not true)) b w = rw bad at h in
              rw bad (omega (arith, had.0), had.1)
          | inr good ↦
              let had : Has (s + one_if (not false)) b w = rw good at h in
              let kept = counts.connect w in
              rw good (
                Left-after_connect token method buffer_size args s b (kernel.kernel_connect w)
                  (omega (arith, kept.0, had.0), omega (arith, kept.1, had.1)))
        ]

    -- With kernel calls that count sockets and blocks as documented, a call over HTTP that ends
    -- without a fault, successful or not, leaves as many open sockets and as many allocated blocks
    -- as there were before.
    pub vtfs_http_call-releases :
        (token method : List ℕ) (buffer_size : ℕ) (args : List Arg) (w : W)
        → IfDone
            (λ answered. (sockets answered.1 ≡ sockets w) × (blocks answered.1 ≡ blocks w))
            (vtfs_http_call kernel token method buffer_size args w)
    unfolding vtfs_http_call
    vtfs_http_call-releases token method buffer_size args w =
        Left-after_create token method buffer_size args (sockets w) (blocks w)
          (kernel.sock_create_kern w) (counts.create w)
