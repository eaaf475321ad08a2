-- ===== src/Net/Http/Sockets/Laws.antt =====
-- `receive_all`: it ends, and it stores what the stream delivers.
use os_course_lab.Base.{
  ℕ, zero, suc, ◌+◌, ◌-◌, ◌≤◌, ◌<◌, ◌^◌, ◌⊎◌, ◌≡◌, refl, ap, ap₂, subst, ◌∙◌, sym, true, false,
  List, [], ◌∷◌, ◌++◌, Run, done, Ensures, Ensures-bind, ltb, leb, length, drop, arith, Bool-cases,
  inl, inr, length-append, length-drop, drop-drop,
}
use mathlib.Core.List.{append_assoc}
use os_course_lab.Base.Splice.{splice, length-splice}
use os_course_lab.Base.Buffers.{store_bytes}
use os_course_lab.Net.Http.Response.{as_int}
use os_course_lab.Net.Http.Sockets.{
  Received, failed, got, Kernel, Filled, store_received, receive_loop, receive_all,
}

pub as_int_small : (v : ℕ) → v < 2 ^ 31 → as_int v ≡ v
as_int_small v h = ground arith

module _ {W : Type 0} (kernel : Kernel W) where
  -- The kernel's documentation of recvmsg: no more bytes than there is room for.
  abbrev pub KeepsRoom : Type 0
  KeepsRoom =
      (room : ℕ) (w w' : W) (bytes : List ℕ)
      → kernel.kernel_recvmsg room w ≡ (got bytes, w')
      → length bytes ≤ room

  -- The buffer keeps its size, and what is returned is the code -4 or a count within it.
  abbrev pub IsFilled : (size : ℕ) → Filled kernel → Type 0
  IsFilled size (returned, buffer, w) =
      (length buffer ≡ size) × ((returned ≡ 2 ^ 64 - 4) ⊎ (returned ≤ size))

  store-length :
      (buffer : List ℕ) (read : ℕ) (bytes : List ℕ)
      → read + length bytes ≤ length buffer
      → Ensures (λ buffer'. length buffer' ≡ length buffer) (store_bytes buffer read bytes)
  unfolding store_bytes
  store-length buffer read bytes h =
      let fits : leb (read + length bytes) (length buffer) ≡ true = ground arith in
      rw fits (length-splice buffer read bytes h)

  -- A round ends well when every further round does.
  store_received-ends :
      (next : List ℕ → ℕ → W → Run (Filled kernel)) (buffer : List ℕ) (read : ℕ)
      (answer : Received × W)
      → read ≤ length buffer
      → length buffer < 2 ^ 31
      → ((bytes : List ℕ) (w : W) → answer ≡ (got bytes, w) → read + length bytes ≤ length buffer)
      → ((buffer' : List ℕ) (read' : ℕ) (w : W)
          → length buffer' ≡ length buffer
          → read < read'
          → read' ≤ length buffer
          → Ensures (IsFilled (length buffer')) (next buffer' read' w))
      → Ensures (IsFilled (length buffer)) (store_received kernel next buffer read answer)
  store_received-ends next buffer read (failed, w) inside small fits further = (refl, inl refl)
  store_received-ends next buffer read (got [], w) inside small fits further = (refl, inr inside)
  store_received-ends next buffer read (got (b ∷ bytes), w) inside small fits further =
      let room = fits (b ∷ bytes) w refl in
      let whole = as_int_small (read + length (b ∷ bytes)) (omega arith) in
      rw whole (
        Ensures-bind (λ buffer'. length buffer' ≡ length buffer) (IsFilled (length buffer))
          (store_bytes buffer read (b ∷ bytes)) _
          (λ buffer' same.
            subst (λ n. Ensures (IsFilled n) (next buffer' (read + length (b ∷ bytes)) w)) same
              (further buffer' (read + length (b ∷ bytes)) w same (omega arith) room))
          (store-length buffer read (b ∷ bytes) room))

  receive_loop_ends :
      KeepsRoom
      → (fuel : ℕ) (buffer : List ℕ) (read : ℕ) (w : W) → read ≤ length buffer
      → length buffer < 2 ^ 31
      → length buffer < fuel + read
      → Ensures (IsFilled (length buffer)) (receive_loop kernel fuel buffer read w)
  unfolding receive_loop
  receive_loop_ends keeps zero buffer read w inside small enough = absurd (omega arith)
  receive_loop_ends keeps (suc fuel) buffer read w inside small enough =
      elim (Bool-cases (ltb read (length buffer))) [
        | inr full ↦ rw full (refl, inr inside)
        | inl room ↦ rw room (
            store_received-ends (receive_loop kernel fuel) buffer read
              (kernel.kernel_recvmsg (length buffer - read) w) inside small
              (λ bytes w' e. let short = keeps (length buffer - read) w w' bytes e in omega arith)
              (λ buffer' read' w' same later inside'.
                receive_loop_ends keeps fuel buffer' read' w' (omega arith) (omega arith)
                  (omega arith)))
      ]

  -- Where the kernel delivers at most the bytes that it is asked for, receiving into a buffer
  -- shorter than 2 ^ 31 bytes ends for every sequence of answers, without a fault, keeps the size
  -- of the buffer, and returns -4 or a count within the buffer.
  pub receive_all_ends :
      KeepsRoom
      → (buffer : List ℕ) (w : W) → length buffer < 2 ^ 31
      → Ensures (IsFilled (length buffer)) (receive_all kernel buffer w)
  unfolding receive_all
  receive_all_ends keeps buffer w small =
      receive_loop_ends keeps (length buffer + 1) buffer 0 w (omega arith) small (omega arith)

  -- A stream: what the rounds deliver, to the end or until `room` bytes are filled.
  pub data Stream : (room : ℕ) → W → List ℕ → W → Type 0 where
    full : (w : W) → Stream 0 w [] w
    ends :
        (room : ℕ) (w w' : W)
        → kernel.kernel_recvmsg (suc room) w ≡ (got [], w')
        → Stream (suc room) w [] w'
    more :
        (room b : ℕ) (bytes later : List ℕ) (w w' w'' : W)
        → kernel.kernel_recvmsg (suc (room + length bytes)) w ≡ (got (b ∷ bytes), w')
        → Stream room w' later w''
        → Stream (suc (room + length bytes)) w (b ∷ (bytes ++ later)) w''

  pub Stream-fits :
      (room : ℕ) (w w' : W) (text : List ℕ) → Stream room w text w' → length text ≤ room
  Stream-fits _ _ _ _ (full w) = omega arith
  Stream-fits _ _ _ _ (ends room w w' e) = omega arith
  Stream-fits _ _ _ _ (more room b bytes later w w' w'' e rest) =
      omega (arith, Stream-fits room w' w'' later rest, length-append bytes later)

  splice-front :
      (front tail bytes : List ℕ) (at : ℕ)
      → at ≡ length front
      → splice (front ++ tail) at bytes ≡ front ++ (bytes ++ drop (length bytes) tail)
  unfolding splice
  splice-front [] tail bytes zero e = ap (λ n. bytes ++ drop n tail) (omega arith)
  splice-front [] tail bytes (suc at) e = absurd (omega arith)
  splice-front (a ∷ front) tail bytes zero e = absurd (omega arith)
  splice-front (a ∷ front) tail bytes (suc at) e =
      let past : suc at + length bytes ≡ suc (at + length bytes) = omega arith in
      rw past (ap (λ t. a ∷ t) (splice-front front tail bytes at (omega arith)))

  store-front :
      (front tail bytes : List ℕ) (at : ℕ)
      → at ≡ length front
      → length bytes ≤ length tail
      → store_bytes (front ++ tail) at bytes ≡ done (front ++ (bytes ++ drop (length bytes) tail))
  unfolding store_bytes
  store-front front tail bytes at e room =
      let fits : leb (at + length bytes) (length (front ++ tail)) ≡ true =
        ground (arith, length-append front tail) in
      rw fits (ap done (splice-front front tail bytes at e))

  join :
      (front bytes later tail : List ℕ)
      → (front ++ bytes) ++ (later ++ drop (length later) (drop (length bytes) tail))
        ≡ front ++ ((bytes ++ later) ++ drop (length (bytes ++ later)) tail)
  join front bytes later tail =
      let rest = drop (length later) (drop (length bytes) tail) in
      append_assoc front bytes (later ++ rest)
      ∙ ap (λ t. front ++ t)
          (sym (append_assoc bytes later rest)
            ∙ ap (λ t. (bytes ++ later) ++ t)
                (drop-drop (length later) (length bytes) (length (bytes ++ later)) tail
                  (omega (arith, length-append bytes later))))

  receive_loop-Stream :
      (room : ℕ) (w w' : W) (text : List ℕ)
      → Stream room w text w'
      → (fuel : ℕ) (front tail : List ℕ) (read : ℕ) → read ≡ length front
      → length tail ≡ room
      → room < fuel
      → read + length text < 2 ^ 31
      → receive_loop kernel fuel (front ++ tail) read w
        ≡ done (read + length text, front ++ (text ++ drop (length text) tail), w')
  unfolding receive_loop
  receive_loop-Stream _ _ _ _ s zero front tail read at size enough small = absurd (omega arith)
  receive_loop-Stream _ _ _ _ (full w) (suc fuel) front tail read at size enough small =
      let there : ltb read (length (front ++ tail)) ≡ false =
        ground (arith, length-append front tail) in
      rw there (ap (λ n. done (n, front ++ tail, w)) (omega arith))
  receive_loop-Stream _ _ _ _ (ends room w w' e) (suc fuel) front tail read at size enough small =
      let there : ltb read (length (front ++ tail)) ≡ true =
        ground (arith, length-append front tail) in
      let left : length (front ++ tail) - read ≡ suc room =
        omega (arith, length-append front tail) in
      rw (there, left, e) (ap (λ n. done (n, front ++ tail, w')) (omega arith))
  receive_loop-Stream _ _ _ _ (more room b bytes later w w' w'' e rest) (suc fuel) front tail read
        at size enough small =
      let whole = length-append front tail in
      let there : ltb read (length (front ++ tail)) ≡ true = ground arith in
      let left : length (front ++ tail) - read ≡ suc (room + length bytes) = omega arith in
      let front' = front ++ (b ∷ bytes) in
      let tail' = drop (length (b ∷ bytes)) tail in
      let all = length-append bytes later in
      let later_fits = Stream-fits room w' w'' later rest in
      rw
        (
          there,
          left,
          e,
          store-front front tail (b ∷ bytes) read at (omega arith),
          as_int_small (read + length (b ∷ bytes)) (omega (arith, all)),
          ← append_assoc front (b ∷ bytes) tail',
        )
        (receive_loop-Stream room w' w'' later rest fuel front' tail' (read + length (b ∷ bytes))
            (omega (arith, length-append front (b ∷ bytes)))
            (omega (arith, length-drop (length (b ∷ bytes)) tail)) (omega arith)
            (omega (arith, all))
          ∙ ap₂ (λ n text. done (n, text, w'')) (omega (arith, length-append bytes later))
              (join front (b ∷ bytes) later tail))

  -- What the stream delivers is stored from the start of the buffer on, and counted.
  pub receive_all-Stream :
      (w w' : W) (buffer text : List ℕ)
      → Stream (length buffer) w text w'
      → length text < 2 ^ 31
      → receive_all kernel buffer w ≡ done (length text, text ++ drop (length text) buffer, w')
  unfolding receive_all
  receive_all-Stream w w' buffer text s small =
      receive_loop-Stream (length buffer) w w' text s (length buffer + 1) [] buffer 0 (omega arith)
        (omega arith) (omega arith) (omega arith)
      ∙ ap (λ n. done (n, text ++ drop (length text) buffer, w')) (omega arith)
