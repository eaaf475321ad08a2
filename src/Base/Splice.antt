-- ===== src/Base/Splice.antt =====
-- Overwriting a range of a list.
use Prim.Native.Nat.{ℕ, zero, suc, ◌+◌, ◌-◌, ◌<◌, ◌≤◌, min}
use mathlib.Core.Path.{◌≡◌, refl, ap, ◌∙◌}
use mathlib.Core.List.{List, [], ◌∷◌, ◌++◌}
use native.Mathlib.Omega.{arith}
use os_course_lab.Base.Lists.{
  length, get_elem?, take, drop, length-append, length-drop, length-take,
}

module _ {ℓ} {A : Type ℓ} where
  -- `new` stands from position `at` on.
  unfoldable pub splice : List A → ℕ → List A → List A
  splice buf at new = take at buf ++ (new ++ drop (at + length new) buf)

  pub length-splice :
      (buf : List A) (at : ℕ) (new : List A)
      → at + length new ≤ length buf
      → length (splice buf at new) ≡ length buf
  unfolding splice
  length-splice buf at new h = omega (
    arith,
    length-append (take at buf) (new ++ drop (at + length new) buf),
    length-append new (drop (at + length new) buf),
    length-take at buf,
    length-drop (at + length new) buf,
  )

  take_exact : (xs ys : List A) (n : ℕ) → n ≡ length xs → take n (xs ++ ys) ≡ xs
  take_exact [] ys zero h = refl
  take_exact [] ys (suc n) h = absurd (omega arith)
  take_exact (x ∷ xs) ys zero h = absurd (omega arith)
  take_exact (x ∷ xs) ys (suc n) h = ap (λ t. x ∷ t) (take_exact xs ys n (omega arith))

  drop_exact : (xs ys : List A) (n : ℕ) → n ≡ length xs → drop n (xs ++ ys) ≡ ys
  drop_exact [] ys zero h = refl
  drop_exact [] ys (suc n) h = absurd (omega arith)
  drop_exact (x ∷ xs) ys zero h = absurd (omega arith)
  drop_exact (x ∷ xs) ys (suc n) h = drop_exact xs ys n (omega arith)

  -- What was before the range is kept.
  pub take-splice :
      (buf : List A) (at : ℕ) (new : List A)
      → at ≤ length buf
      → take at (splice buf at new) ≡ take at buf
  unfolding splice
  take-splice buf at new h = take_exact (take at buf) _ at (omega (arith, length-take at buf))

  -- The range holds what was put there.
  pub range-splice :
      (buf : List A) (at n : ℕ) (new : List A)
      → at ≤ length buf
      → n ≡ length new
      → take n (drop at (splice buf at new)) ≡ new
  unfolding splice
  range-splice buf at n new h e =
      rw
        (drop_exact (take at buf) (new ++ drop (at + length new) buf) at
          (omega (arith, length-take at buf)))
        (take_exact new _ n e)

  get_elem?-append_left :
      (xs ys : List A) (i : ℕ) → i < length xs → get_elem? (xs ++ ys) i ≡ get_elem? xs i
  get_elem?-append_left [] ys i h = absurd (omega arith)
  get_elem?-append_left (x ∷ xs) ys zero h = refl
  get_elem?-append_left (x ∷ xs) ys (suc i) h = get_elem?-append_left xs ys i (omega arith)

  get_elem?-append_right :
      (xs ys : List A) (i j : ℕ) → i ≡ length xs + j → get_elem? (xs ++ ys) i ≡ get_elem? ys j
  get_elem?-append_right [] ys i j h = ap (get_elem? ys) (omega arith)
  get_elem?-append_right (x ∷ xs) ys zero j h = absurd (omega arith)
  get_elem?-append_right (x ∷ xs) ys (suc i) j h = get_elem?-append_right xs ys i j (omega arith)

  pub get_elem?-take :
      (n : ℕ) (xs : List A) (i : ℕ) → i < n → get_elem? (take n xs) i ≡ get_elem? xs i
  get_elem?-take zero xs i h = absurd (omega arith)
  get_elem?-take (suc n) [] i h = refl
  get_elem?-take (suc n) (x ∷ xs) zero h = refl
  get_elem?-take (suc n) (x ∷ xs) (suc i) h = get_elem?-take n xs i (omega arith)

  pub get_elem?-drop :
      (n : ℕ) (xs : List A) (i j : ℕ) → j ≡ n + i → get_elem? (drop n xs) i ≡ get_elem? xs j
  get_elem?-drop zero xs i j h = ap (get_elem? xs) (omega arith)
  get_elem?-drop (suc n) [] i j h = refl
  get_elem?-drop (suc n) (x ∷ xs) i zero h = absurd (omega arith)
  get_elem?-drop (suc n) (x ∷ xs) i (suc j) h = get_elem?-drop n xs i j (omega arith)

  -- Outside the range nothing changes.
  pub get_elem?-splice_before :
      (buf : List A) (at : ℕ) (new : List A) (i : ℕ)
      → at ≤ length buf
      → i < at
      → get_elem? (splice buf at new) i ≡ get_elem? buf i
  unfolding splice
  get_elem?-splice_before buf at new i h before =
      get_elem?-append_left (take at buf) _ i (omega (arith, length-take at buf))
      ∙ get_elem?-take at buf i before

  pub get_elem?-splice_after :
      (buf : List A) (at : ℕ) (new : List A) (i : ℕ)
      → at ≤ length buf
      → at + length new ≤ i
      → get_elem? (splice buf at new) i ≡ get_elem? buf i
  unfolding splice
  get_elem?-splice_after buf at new i h after =
      get_elem?-append_right (take at buf) _ i (i - at) (omega (arith, length-take at buf))
      ∙ get_elem?-append_right new _ (i - at) (i - at - length new) (omega arith)
      ∙ get_elem?-drop (at + length new) buf (i - at - length new) i (omega arith)

  take-take : (n s m : ℕ) (xs : List A) → m ≡ min n s → take n (take s xs) ≡ take m xs
  take-take zero s zero xs e = refl
  take-take zero s (suc m) xs e = absurd (omega arith)
  take-take (suc n) zero zero xs e = refl
  take-take (suc n) zero (suc m) xs e = absurd (omega arith)
  take-take (suc n) (suc s) zero xs e = absurd (omega arith)
  take-take (suc n) (suc s) (suc m) [] e = refl
  take-take (suc n) (suc s) (suc m) (x ∷ xs) e = ap (λ t. x ∷ t) (take-take n s m xs (omega arith))

  -- `n` bytes from `o` on of the first `s`.
  pub take-drop-take :
      (n o s m : ℕ) (xs : List A)
      → m ≡ min n (s - o)
      → take n (drop o (take s xs)) ≡ take m (drop o xs)
  take-drop-take n zero s m xs e = take-take n s m xs (omega arith)
  take-drop-take n (suc o) zero zero xs e = take_nil n
    where
      take_nil : (k : ℕ) → take {A = A} k [] ≡ []
      take_nil zero = refl
      take_nil (suc k) = refl
  take-drop-take n (suc o) zero (suc m) xs e = absurd (omega arith)
  take-drop-take n (suc o) (suc s) m [] e = take_nils n m
    where
      take_nils : (k j : ℕ) → take {A = A} k [] ≡ take j []
      take_nils zero zero = refl
      take_nils zero (suc j) = refl
      take_nils (suc k) zero = refl
      take_nils (suc k) (suc j) = refl
  take-drop-take n (suc o) (suc s) m (x ∷ xs) e = take-drop-take n o s m xs (omega arith)

  pub length-range : (n o : ℕ) (xs : List A) → o + n ≤ length xs → length (take n (drop o xs)) ≡ n
  length-range n o xs h = omega (arith, length-take n (drop o xs), length-drop o xs)
