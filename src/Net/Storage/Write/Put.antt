-- ===== src/Net/Storage/Write/Put.antt =====
-- Bytes put into a file, which grows with zeros where they begin past its end.
use os_course_lab.Base.{
  ℕ, ◌+◌, ◌-◌, ◌≡◌, ap, ap₂, ◌∙◌, sym, List, ◌++◌, length, take, drop, replicate, arith,
  length-append, length-take, length-replicate, take_all, take-append_left, drop-append, drop-drop,
}
use mathlib.Core.List.{append_assoc}

-- The first `at` bytes, filled up.
abbrev reached : List ℕ → (at : ℕ) → List ℕ
reached old at = take at (old ++ replicate (at - length old) 0)

unfoldable pub put : List ℕ → (at : ℕ) → List ℕ → List ℕ
put old at new = reached old at ++ (new ++ drop (at + length new) old)

length-reached : (old : List ℕ) (at : ℕ) → length (reached old at) ≡ at
length-reached old at = omega (
  arith,
  length-take at (old ++ replicate (at - length old) 0),
  length-append old (replicate (at - length old) 0),
  length-replicate {A = ℕ} (at - length old) 0,
)

module _ (old a b : List ℕ) (at : ℕ) where
  front-put : reached (put old at a) (at + length a) ≡ reached old at ++ a
  unfolding put
  front-put =
      let front = reached old at in
      let rest = drop (at + length a) old in
      let size = length-reached old at in
      let whole = length-append front a in
      take-append_left (at + length a) (front ++ (a ++ rest)) _
        (omega (arith, length-append front (a ++ rest), length-append a rest))
      ∙ ap (take (at + length a)) (sym (append_assoc front a rest))
      ∙ take-append_left (at + length a) (front ++ a) rest (omega arith)
      ∙ take_all (at + length a) (front ++ a) (omega arith)

  rest-put : drop (at + length a + length b) (put old at a) ≡ drop (at + length (a ++ b)) old
  unfolding put
  rest-put =
      let front = reached old at in
      let rest = drop (at + length a) old in
      let size = length-reached old at in
      sym (
        drop-drop (length b) (at + length a) (at + length a + length b) (front ++ (a ++ rest))
          (omega arith))
      ∙ ap (λ t. drop (length b) (drop (at + length a) t)) (sym (append_assoc front a rest))
      ∙ ap (drop (length b))
          (drop-append (front ++ a) rest (at + length a) (omega (arith, length-append front a)))
      ∙ drop-drop (length b) (at + length a) (at + length (a ++ b)) old
          (omega (arith, length-append a b))

  -- Two puts, the second where the first ends, are one.
  pub put-put : put (put old at a) (at + length a) b ≡ put old at (a ++ b)
  put-put =
      let rest = drop (at + length (a ++ b)) old in
      unfold put in
      ap₂ (λ x y. x ++ (b ++ y)) (unfold put in front-put) (unfold put in rest-put)
      ∙ append_assoc (reached old at) a (b ++ rest)
      ∙ ap (λ t. reached old at ++ t) (sym (append_assoc a b rest))
