-- ===== src/Tests/Kernels.antt =====
-- A kernel that behaves as documented: a buffer that grows is filled with zeros, and a copy gets
-- as far as the user's bytes reach.
use os_course_lab.Base.{
  ℕ, ◌-◌, ◌≤◌, ◌≡◌, refl, ap, ◌∙◌, some, List, [], ◌∷◌, ◌++◌, arith, length, take, replicate,
  length-append, length-take, length-replicate, take_all, take-append_left,
}
use os_course_lab.Ram.Content.{Kernel, IsDocumented}

abbrev pub filled : List ℕ → ℕ → List ℕ
filled bytes n = take n bytes ++ replicate (n - length bytes) 0

abbrev pub simple_kernel : Kernel
simple_kernel = record {
  krealloc = λ old n. some (filled old n);
  copy_from_user = λ user n. (filled user n, n - length user);
  copy_to_user = λ bytes. 0;
}

append-nil : (bytes : List ℕ) → bytes ++ [] ≡ bytes
append-nil [] = refl
append-nil (b ∷ bytes) = ap (λ t. b ∷ t) (append-nil bytes)

pub length-filled : (bytes : List ℕ) (n : ℕ) → length (filled bytes n) ≡ n
length-filled bytes n = omega (
  arith,
  length-append (take n bytes) (replicate (n - length bytes) 0),
  length-take n bytes,
  length-replicate {A = ℕ} (n - length bytes) 0,
)

filled_keeps :
    (bytes : List ℕ) (n : ℕ) → length bytes ≤ n → take (length bytes) (filled bytes n) ≡ bytes
filled_keeps bytes n h = rw (take_all n bytes h) (
    take-append_left (length bytes) bytes (replicate (n - length bytes) 0) (omega arith)
    ∙ take_all (length bytes) bytes (omega arith))

filled_complete : (bytes : List ℕ) (n : ℕ) → n - length bytes ≡ 0 → filled bytes n ≡ take n bytes
filled_complete bytes n e = rw e (append-nil (take n bytes))

pub simple_kernel-IsDocumented : IsDocumented simple_kernel
simple_kernel-IsDocumented = record {
  length-krealloc =
      λ old new n e. let it : filled old n ≡ new = ground arith in rw (← it) (length-filled old n);
  krealloc_keeps = λ old new n e h.
      let it : filled old n ≡ new = ground arith in rw (← it) (filled_keeps old n h);
  length-copy_from_user = length-filled;
  copy_from_user_complete = filled_complete;
}
