-- ===== src/Tests/Machines.antt =====
-- A machine with one response on its way, and a server that stores the chunks of a write.
use os_course_lab.Base.{
  ℕ, suc, ◌+◌, ◌-◌, ◌^◌, ◌≤◌, ◌<◌, ◌≡◌, refl, ap, ◌∙◌, subst, true, false, Option, some, List, [],
  ◌∷◌, ◌++◌, Run, done, length, take, drop, replicate, arith, take_all, leb, length-take,
}
use os_course_lab.Base.Text.{
  decimal, signed_decimal, value_from, value_from-decimal, length-decimal,
}
use os_course_lab.Net.Base64.Laws.{base64_decode}
use os_course_lab.Net.Encode.Laws.{percent_decode}
use os_course_lab.Net.Decode.{c_string}
use os_course_lab.Net.Decode.Fields.{le_bytes}
use os_course_lab.Net.Http.Request.{Arg}
use os_course_lab.Net.Http.Response.{Response}
use os_course_lab.Net.Http.Response.Lines.{IsLine}
use os_course_lab.Net.Http.Response.Parse.{ReadsDecimal, IsLine-decimal}
use os_course_lab.Net.Http.Sockets.{Received, got, Kernel}
use os_course_lab.Net.Http.Sockets.Laws.{KeepsRoom, Stream, ends, more}
use os_course_lab.Net.Http.Call.Release.{Counts}
use os_course_lab.Net.Storage.{Host, unsigned_text, signed_text}
use os_course_lab.Net.Storage.OnHttp.{UserMemory}
use os_course_lab.Net.Storage.Write.Put.{put}
use os_course_lab.Net.Storage.Write.Whole.{StoresChunks}

-- Bytes on their way, open sockets and allocated blocks.
pub record Machine : Type 0 where
  pub arriving : List (List ℕ)
  pub sockets : ℕ
  pub blocks : ℕ

abbrev pub idle : Machine
idle = record { arriving = []; sockets = 0; blocks = 0 }

abbrev pub receive : (room : ℕ) → List (List ℕ) → Machine → Received × Machine
receive room [] m = (got [], m)
receive room (segment ∷ later) m = (got (take room segment), record m { arriving = later })

abbrev pub decimal_of : List ℕ → Option ℕ
decimal_of text = some (value_from 0 (c_string text))

abbrev pub machine_kernel : Kernel Machine
machine_kernel = record {
  sock_create_kern = λ m. (0, record m { sockets = m.sockets + 1 });
  kernel_connect = λ m. (0, m);
  kernel_sendmsg = λ text m. (0, m);
  kernel_recvmsg = λ room m. receive room m.arriving m;
  kernel_sock_shutdown = λ m. m;
  sock_release = λ m. record m { sockets = m.sockets - 1 };
  kzalloc = λ size m. (true, record m { blocks = m.blocks + 1 });
  kmalloc = λ size m. (some (replicate size 170), record m { blocks = m.blocks + 1 });
  kfree = λ m. record m { blocks = m.blocks - 1 };
  kstrtoint = decimal_of;
}

abbrev pub user_memory : UserMemory Machine
user_memory = record {
  copy_to_user = λ bytes m. (0, m);
  copy_from_user = λ user at n m. ((take n (drop at user), 0), m);
}

c_string-line : (line rest : List ℕ) → IsLine line → c_string (line ++ (0 ∷ rest)) ≡ line
unfolding c_string
c_string-line [] rest h = refl
c_string-line (c ∷ line) rest h = ground (arith, h.0, c_string-line line rest h.2)

pub decimal_of-ReadsDecimal : ReadsDecimal decimal_of
decimal_of-ReadsDecimal n rest small =
    ap (λ t. some (value_from 0 t)) (c_string-line (decimal n) rest (IsLine-decimal n))
    ∙ ap some (value_from-decimal n (omega arith))

receive_short :
    (room : ℕ) (segments : List (List ℕ)) (m m' : Machine) (bytes : List ℕ)
    → receive room segments m ≡ (got bytes, m')
    → length bytes ≤ room
receive_short room [] m m' bytes e = let it : [] ≡ bytes = ground arith in rw (← it) (omega arith)
receive_short room (segment ∷ later) m m' bytes e =
    let it : take room segment ≡ bytes = ground arith in
    rw (← it) (omega (arith, length-take room segment))

pub machine_kernel-KeepsRoom : KeepsRoom machine_kernel
machine_kernel-KeepsRoom room w w' bytes e = receive_short room w.arriving w w' bytes e

receive_keeps :
    (room : ℕ) (segments : List (List ℕ)) (m : Machine)
    → ((receive room segments m).1.sockets ≡ m.sockets)
      × ((receive room segments m).1.blocks ≡ m.blocks)
receive_keeps room [] m = (refl, refl)
receive_keeps room (segment ∷ later) m = (refl, refl)

pub machine_kernel-Counts : Counts machine_kernel (λ m. m.sockets) (λ m. m.blocks)
machine_kernel-Counts = record {
  create = λ w. (refl, refl);
  connect = λ w. (refl, refl);
  send = λ text w. (refl, refl);
  receive = λ room w. receive_keeps room w.arriving w;
  shutdown = λ w. (refl, refl);
  release = λ w. (refl, refl);
  zeroed = λ size w. (refl, refl);
  allocated = λ size w. (refl, refl);
  freed = λ w. (refl, refl);
}

append-nil : (bytes : List ℕ) → bytes ++ [] ≡ bytes
append-nil [] = refl
append-nil (b ∷ bytes) = ap (λ t. b ∷ t) (append-nil bytes)

stream_of_two :
    (b k : ℕ) (bytes : List ℕ) (s n : ℕ)
    → Stream machine_kernel
        (suc (suc k + length bytes))
        (record { arriving = (b ∷ bytes) ∷ []; sockets = s; blocks = n })
        (b ∷ (bytes ++ []))
        (record { arriving = []; sockets = s; blocks = n })
stream_of_two b k bytes s n =
    more (suc k) b bytes [] _ (record { arriving = []; sockets = s; blocks = n })
      (record { arriving = []; sockets = s; blocks = n })
      (ap (λ t. (got t, record { arriving = []; sockets = s; blocks = n }))
        (take_all (suc (suc k + length bytes)) (b ∷ bytes) (omega arith)))
      (ends k _ (record { arriving = []; sockets = s; blocks = n }) refl)

-- A response that arrives in one piece.
pub one_piece :
    (room : ℕ) (text : List ℕ) (s n : ℕ)
    → 0 < length text
    → length text < room
    → Stream machine_kernel room
        (record { arriving = text ∷ []; sockets = s; blocks = n })
        text
        (record { arriving = []; sockets = s; blocks = n })
one_piece room [] s n some_text fits = absurd (omega arith)
one_piece room (b ∷ bytes) s n some_text fits =
    let size : suc (suc (room - 2 - length bytes) + length bytes) ≡ room = omega arith in
    let text = append-nil bytes in
    subst
      (λ r.
        Stream machine_kernel r (record { arriving = (b ∷ bytes) ∷ []; sockets = s; blocks = n })
          (b ∷ bytes) (record { arriving = []; sockets = s; blocks = n }))
      size
      (subst
        (λ t.
          Stream machine_kernel (suc (suc (room - 2 - length bytes) + length bytes))
            (record { arriving = (b ∷ bytes) ∷ []; sockets = s; blocks = n }) (b ∷ t)
            (record { arriving = []; sockets = s; blocks = n }))
        text (stream_of_two b (room - 2 - length bytes) bytes s n))

-- A server with one file.
abbrev good : (n : ℕ) → Response
good n = record { return_value = 0; bytes = le_bytes 8 n; data_len = 8 }

abbrev pub serve : List Arg → List ℕ → Run (Response × List ℕ)
serve (ino ∷ len ∷ offset ∷ data_arg ∷ []) content = done (
  good (value_from 0 len.text),
  put content (value_from 0 offset.text)
      (take (value_from 0 len.text) (base64_decode (percent_decode data_arg.text))),
)
serve _ content = done (record { return_value = 22; bytes = []; data_len = 0 }, content)

abbrev pub file_host : Host (List ℕ)
file_host = record {
  call = λ token method size args content. serve args content;
  kzalloc = λ size content. (true, content);
  kmalloc = λ size content. (true, content);
  kfree = λ content. content;
  copy_to_user = λ bytes content. (0, content);
  copy_from_user = λ user at n content. ((take n (drop at user), 0), content);
}

unsigned_text-reads : (n : ℕ) → n < 2 ^ 64 → value_from 0 (unsigned_text n) ≡ n
unsigned_text-reads n small =
    rw (take_all 31 (decimal n) (omega (arith, length-decimal n))) (value_from-decimal n small)

signed_text-reads : (n : ℕ) → n < 2 ^ 63 → value_from 0 (signed_text n) ≡ n
unfolding signed_decimal
signed_text-reads n small =
    let positive : leb (2 ^ 63) n ≡ false = ground arith in
    rw (positive, take_all 31 (decimal n) (omega (arith, length-decimal n)))
      (value_from-decimal n (omega arith))

pub file_host-StoresChunks : StoresChunks file_host [] 7 (λ content. content)
file_host-StoresChunks = record {
  memory = λ size w. (w, refl, refl);
  freed = λ w. refl;
  copied = λ user at n w inside. (w, refl, refl);
  stores = λ len offset encoded w small early.
      let n = unsigned_text-reads len (omega arith) in
      let o = signed_text-reads offset early in
      (put w offset (take len (base64_decode (percent_decode encoded))), rw (n, o) refl, refl);
}
