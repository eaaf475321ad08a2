-- ===== src/Net/Http/Response/Status.antt =====
-- The status line of a response.
use os_course_lab.Base.{
  ℕ, ◌≡◌, ◌≢◌, refl, false, true, some, List, [], ◌∷◌, ◌++◌, arith, ◌==◌, str_eq_refl,
}
use os_course_lab.Base.Text.{codes}
use os_course_lab.Net.Http.Response.{split_at, status_error}
use os_course_lab.Net.Http.Response.Lines.{IsLine}

-- A word without a terminator, a carriage return or a space.
abbrev pub IsWord : List ℕ → Type 0
IsWord [] = Unit
IsWord (c ∷ word) = (c ≢ 0) × (c ≢ 13) × (c ≢ 32) × IsWord word

-- The end of the line after the number: nothing, or a space and any text without a terminator and
-- a carriage return.
abbrev pub IsReason : List ℕ → Type 0
IsReason [] = Unit
IsReason (c ∷ reason) = (c ≡ 32) × IsLine reason

-- A status line with the number 200, such as "HTTP/1.1 200 OK".
pub record HasStatusOk (status : List ℕ) : Type 0 where
  pub version : List ℕ
  pub reason : List ℕ
  pub is_text : status ≡ version ++ (32 ∷ (codes "200" ++ reason))
  pub is_word : IsWord version
  pub is_reason : IsReason reason

IsLine-word : (word rest : List ℕ) → IsWord word → IsLine rest → IsLine (word ++ rest)
IsLine-word [] rest h l = l
IsLine-word (c ∷ word) rest h l = (h.0, h.1, IsLine-word word rest h.3 l)

IsLine-reason : (reason : List ℕ) → IsReason reason → IsLine reason
IsLine-reason [] h = tt
IsLine-reason (c ∷ reason) h = (omega (arith, h.0), omega (arith, h.0), h.1)

IsLine-200 : (rest : List ℕ) → IsLine rest → IsLine (codes "200" ++ rest)
IsLine-200 rest l =
    (omega arith, omega arith, (omega arith, omega arith, (omega arith, omega arith, l)))

pub HasStatusOk-IsLine : (status : List ℕ) → HasStatusOk status → IsLine status
HasStatusOk-IsLine status ok = rw ok.is_text (
    IsLine-word ok.version (32 ∷ (codes "200" ++ ok.reason)) ok.is_word
      (omega arith, omega arith, IsLine-200 ok.reason (IsLine-reason ok.reason ok.is_reason)))

split_at-word :
    (word rest : List ℕ) → IsWord word → split_at 32 (word ++ (32 ∷ rest)) ≡ (word, some rest)
unfolding split_at
split_at-word [] rest h = refl
split_at-word (c ∷ word) rest h =
    let other : (c == 32) ≡ false = ground (arith, h.2) in
    rw (other, split_at-word word rest h.3) refl

split_at-reason :
    (reason : List ℕ) → IsReason reason → (split_at 32 (codes "200" ++ reason)).0 ≡ codes "200"
unfolding split_at
split_at-reason [] h = refl
split_at-reason (c ∷ reason) h = let space : (c == 32) ≡ true = ground (arith, h.0) in rw space refl

pub status_error-HasStatusOk : (status : List ℕ) → HasStatusOk status → status_error status ≡ 0
unfolding status_error
status_error-HasStatusOk status ok =
    rw
      (
        ok.is_text,
        split_at-word ok.version (codes "200" ++ ok.reason) ok.is_word,
        split_at-reason ok.reason ok.is_reason,
        str_eq_refl (codes "200"),
      )
      refl
