-- ===== src/Net/Decode/More.antt =====
-- A response that stands before other bytes in its buffer is decoded alike.
use os_course_lab.Base.{
  ℕ, zero, suc, ◌+◌, ◌≤◌, ◌≡◌, refl, true, Bool-cases, inl, inr, List, [], ◌∷◌, ◌++◌, Run, done,
  fault, ◌>>=◌, leb, arith, length, drop, length-append, length-drop, take-append_left,
}
use os_course_lab.Base.Buffers.{load_bytes}
use os_course_lab.Interface.{NodeMeta, Dirent}
use os_course_lab.Net.Decode.{load_le, parse_node_meta, parse_dirent}

-- What the first run answers, the second does.
abbrev Answers {ℓ} : {A : Type ℓ} → Run A → Run A → Type ℓ
Answers {A = A} m m' = (a : A) → m ≡ done a → m' ≡ done a

Answers-bind :
    {A B : Type 0} (m m' : Run A) (f f' : A → Run B)
    → Answers m m'
    → ((a : A) → Answers (f a) (f' a))
    → Answers (m >>= f) (m' >>= f')
Answers-bind (done a) m' f f' first later b e = rw (first a refl) (later a b e)
Answers-bind fault m' f f' first later b e = absurd (ground arith)

drop-append_left : (n : ℕ) (xs ys : List ℕ) → n ≤ length xs → drop n (xs ++ ys) ≡ drop n xs ++ ys
drop-append_left zero xs ys h = refl
drop-append_left (suc n) [] ys h = absurd (omega arith)
drop-append_left (suc n) (x ∷ xs) ys h = drop-append_left n xs ys (omega arith)

module _ (xs more : List ℕ) where
  load_bytes-more : (at n : ℕ) → Answers (load_bytes xs at n) (load_bytes (xs ++ more) at n)
  unfolding load_bytes
  load_bytes-more at n b e = elim (Bool-cases (leb (at + n) (length xs))) [
    | inr past ↦ absurd (ground (arith, past, e))
    | inl fits ↦
        let fits' : leb (at + n) (length (xs ++ more)) ≡ true =
          ground (arith, length-append xs more) in
        rw
          (
            fits',
            drop-append_left at xs more (ground arith),
            take-append_left n (drop at xs) more (ground (arith, length-drop at xs)),
          )
          (rw fits at e)
  ]

  load_le-more : (at n : ℕ) → Answers (load_le xs at n) (load_le (xs ++ more) at n)
  unfolding load_le
  load_le-more at n =
      Answers-bind (load_bytes xs at n) (load_bytes (xs ++ more) at n) _ _ (load_bytes-more at n)
        (λ bytes v e. e)

  pub parse_node_meta-more :
      (m : NodeMeta) → parse_node_meta xs ≡ done m → parse_node_meta (xs ++ more) ≡ done m
  unfolding parse_node_meta
  parse_node_meta-more = Answers-bind _ _ _ _ (load_le-more 0 8) (λ ino.
      Answers-bind _ _ _ _ (load_le-more 8 8) (λ parent.
        Answers-bind _ _ _ _ (load_le-more 16 2) (λ type.
          Answers-bind _ _ _ _ (load_le-more 18 4)
            (λ mode. Answers-bind _ _ _ _ (load_le-more 22 8) (λ size m e. e)))))

  pub parse_dirent-more :
      (d : Dirent) → parse_dirent xs ≡ done d → parse_dirent (xs ++ more) ≡ done d
  unfolding parse_dirent
  parse_dirent-more = Answers-bind _ _ _ _ (load_bytes-more 0 255) (λ name.
      Answers-bind _ _ _ _ (load_le-more 256 8)
        (λ ino. Answers-bind _ _ _ _ (load_le-more 264 2) (λ type d e. e)))
