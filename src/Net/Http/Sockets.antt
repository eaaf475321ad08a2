-- ===== src/Net/Http/Sockets.antt =====
-- `receive_all`, over what the kernel offers. An `int` is its 64-bit pattern, sign-extended.
pub mod Laws
use os_course_lab.Base.{
  ℕ, zero, suc, ◌+◌, ◌-◌, Bool, Option, none, some, List, [], ◌∷◌, Run, done, fault, ◌>>=◌, ltb,
  if◌then◌else◌, length,
}
use os_course_lab.Base.Buffers.{store_bytes}
use os_course_lab.Net.Http.Response.{neg, as_int}

-- An answer of `kernel_recvmsg`: a negative number, or the bytes that it stored.
pub data Received : Type 0 where
  failed : Received
  got : List ℕ → Received

-- The kernel, on a state `W` of the machine and its network. Numbers are 64-bit patterns. `kmalloc`
-- gives the contents that the memory happens to have.
pub record Kernel (W : Type 0) : Type 0 where
  pub sock_create_kern : W → ℕ × W
  pub kernel_connect : W → ℕ × W
  pub kernel_sendmsg : List ℕ → W → ℕ × W
  pub kernel_recvmsg : (room : ℕ) → W → Received × W
  pub kernel_sock_shutdown : W → W
  pub sock_release : W → W
  pub kzalloc : (size : ℕ) → W → Bool × W
  pub kmalloc : (size : ℕ) → W → Option (List ℕ) × W
  pub kfree : W → W
  pub kstrtoint : List ℕ → Option ℕ

module _ {W : Type 0} (kernel : Kernel W) where
  -- What a call leaves: the `int` that it returns, the buffer and the machine.
  abbrev pub Filled : Type 0
  Filled = ℕ × List ℕ × W

  -- One round, after the kernel's answer; `next` is the loop.
  abbrev pub store_received :
      (next : List ℕ → ℕ → W → Run Filled) → List ℕ → (read : ℕ) → Received × W → Run Filled
  store_received next buffer read (failed, w) = done (neg 4, buffer, w)
  store_received next buffer read (got [], w) = done (read, buffer, w)
  store_received next buffer read (got (b ∷ bytes), w) = do
    buffer' ← store_bytes buffer read (b ∷ bytes)
    next buffer' (as_int (read + length (b ∷ bytes))) w

  -- The loop, on fuel. `read` is an `int`, which wraps at 2 ^ 31, and is compared as a `size_t`.
  unfoldable pub receive_loop : (fuel : ℕ) → List ℕ → (read : ℕ) → W → Run Filled
  receive_loop zero buffer read w = fault
  receive_loop (suc fuel) buffer read w =
      if ltb read (length buffer)
      then store_received (receive_loop fuel) buffer read
          (kernel.kernel_recvmsg (length buffer - read) w)
      else done (read, buffer, w)

  unfoldable pub receive_all : List ℕ → W → Run Filled
  unfolding receive_loop
  receive_all buffer w = receive_loop (length buffer + 1) buffer 0 w
