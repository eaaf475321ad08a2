-- ===== src/Net/Http/Request/Laws.antt =====
-- The length of a request.
use os_course_lab.Base.{
  ℕ, ◌+◌, ◌≤◌, ◌≡◌, refl, true, List, [], ◌∷◌, ◌++◌, done, leb, length, arith, length-append,
}
use os_course_lab.Base.Text.{codes}
use os_course_lab.Net.Http.Request.{Arg, args_text, request_text, request_size, fill_request}

-- The characters of the arguments.
abbrev pub args_size : List Arg → ℕ
args_size [] = 0
args_size (a ∷ args) = 2 + length a.name + length a.text + args_size args

length-args_text :
    (args : List Arg) → length (args_text args) ≡ args_size args + length (args_text [])
unfolding args_text
length-args_text [] = omega arith
length-args_text (a ∷ args) = omega (
  arith,
  length-args_text args,
  length-append a.name (b'=' ∷ (a.text ++ args_text args)),
  length-append a.text (args_text args),
)

length-request_text :
    (token method : List ℕ) (args : List Arg)
    → length (request_text token method args) ≡ length token + length method + args_size args + 64
unfolding request_text args_text
length-request_text token method args = omega (
  arith,
  length-args_text args,
  length-append method (codes "?token=" ++ (token ++ args_text args)),
  length-append token (args_text args),
)

pub request_text-fits :
    (token method : List ℕ) (args : List Arg)
    → length token + length method + args_size args + 65 ≤ request_size
    → length (request_text token method args) + 1 ≤ request_size
request_text-fits token method args h = omega (arith, length-request_text token method args)

pub fill_request-fits :
    (token method : List ℕ) (args : List Arg)
    → length token + length method + args_size args + 65 ≤ request_size
    → fill_request token method args ≡ done (request_text token method args)
unfolding fill_request
fill_request-fits token method args h =
    let fits : leb (length (request_text token method args) + 1) request_size ≡ true =
      ground (arith, request_text-fits token method args h) in
    rw fits refl
