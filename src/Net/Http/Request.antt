-- ===== src/Net/Http/Request.antt =====
-- `fill_request`: the text of a request.
pub mod Laws
use os_course_lab.Base.{
  ℕ, ◌+◌, ◌*◌, List, [], ◌∷◌, ◌++◌, Run, done, fault, leb, if◌then◌else◌, length,
}
use os_course_lab.Base.Text.{codes}

-- A name and a value of the argument list.
pub record Arg : Type 0 where
  pub name : List ℕ
  pub text : List ℕ

-- SERVER_IP
abbrev server_ip : List ℕ
server_ip = codes "127.0.0.1"

-- The loop over the variable arguments, and the text after it.
unfoldable pub args_text : List Arg → List ℕ
args_text [] =
    codes " HTTP/1.1"
    ++ (13
        ∷ 10
        ∷ (codes "Host:"
            ++ (server_ip ++ (13 ∷ 10 ∷ (codes "Connection: close" ++ (13 ∷ 10 ∷ 13 ∷ 10 ∷ []))))))
args_text (a ∷ args) = b'&' ∷ (a.name ++ (b'=' ∷ (a.text ++ args_text args)))

unfoldable pub request_text : (token method : List ℕ) → List Arg → List ℕ
request_text token method args =
    codes "GET /api/" ++ (method ++ (codes "?token=" ++ (token ++ args_text args)))

-- What `kzalloc` is asked for.
abbrev pub request_size : ℕ
request_size = 32 * 1024 + 64

-- The calls of strcpy and strcat on the buffer: a fault where the text and its terminator do not
-- fit.
unfoldable pub fill_request : (token method : List ℕ) → List Arg → Run (List ℕ)
fill_request token method args =
    let text = request_text token method args in
    if leb (length text + 1) request_size then done text else fault
