-- ===== src/Tests/OnServer.antt =====
-- The storage on a server, at small inputs.
use os_course_lab.Base.{
  ℕ, ◌+◌, ◌-◌, drop, ◌≤◌, ◌≡◌, ◌⊎◌, refl, true, some, List, [], ◌∷◌, done, Ensures, length, arith,
}
use os_course_lab.Base.Text.{codes}
use os_course_lab.Base.Buffers.{load_bytes, store_bytes}
use os_course_lab.Base.Splice.{splice}
use os_course_lab.Net.Base64.{char_at, group, groups, base64_encode}
use os_course_lab.Net.Decode.{load_le, le_value}
use os_course_lab.Net.Decode.Fields.{le_bytes}
use os_course_lab.Net.Encode.{encode}
use os_course_lab.Net.Http.Request.{request_text, fill_request}
use os_course_lab.Net.Storage.{Host, encode_name}
use os_course_lab.Net.Storage.Errors.{
  IsIntOf, IsIntOrAbsent, Refuses, ReadRefuses, operations-failed,
}
use os_course_lab.Net.Storage.Content.{read}
use os_course_lab.Net.Storage.Entries.{
  lookup, iterate_dir, create_file, create_dir, unlink, rmdir, link, count_links, parent_name_mode,
  target_parent_name,
}
use os_course_lab.Net.Storage.Content.{ino_len_offset, unmoved}
use os_course_lab.Net.Storage.Requests.{requests-fit}
use os_course_lab.Net.Storage.Write.{data_arg, write}
use os_course_lab.Net.Storage.Write.Put.{put}
use os_course_lab.Net.Storage.Write.Whole.{write-put}
use os_course_lab.Net.Storage.Write.Ends.{AnswersChunks, ReportsAtMost, write_ends}
use os_course_lab.Tests.Kernels.{filled, length-filled}
use os_course_lab.Tests.Machines.{file_host, file_host-StoresChunks}

-- "Man" and one more byte
abbrev bytes : List ℕ
bytes = 77 ∷ 97 ∷ 110 ∷ 33 ∷ []

-- A write past the end of a file of one byte
write-put_example :
    (content : List ℕ) × (write file_host (some []) 7 true bytes 4 (some 3) (1 ∷ [])
      ≡ done (unmoved 4 (some 7), content))
    × (content ≡ put (1 ∷ []) 3 bytes)
write-put_example =
    write-put file_host [] 7 (λ content. content) bytes 3 (1 ∷ []) file_host-StoresChunks
      (omega arith, (omega arith, (omega arith, (omega arith, tt)))) (omega arith) (omega arith)
      (omega arith)

-- A server that stores nothing of a chunk, and a copy that gets as far as the user's bytes reach
abbrev idle_host : Host (List ℕ)
idle_host = record file_host {
  call = λ token method size args content.
      done (record { return_value = 0; bytes = le_bytes 8 0; data_len = 8 }, content);
  copy_from_user =
      λ user at n content. ((filled (drop at user) n, n - length (drop at user)), content);
}

reports_none :
    (len : ℕ) → ReportsAtMost len (record { return_value = 0; bytes = le_bytes 8 0; data_len = 8 })
unfolding le_bytes store_bytes splice load_le le_value load_bytes
reports_none len e = omega arith

idle_host-AnswersChunks : AnswersChunks idle_host [] 7
idle_host-AnswersChunks = record {
  length-copy_from_user = λ user at n w. length-filled (drop at user) n;
  answers = λ len offset encoded w small. reports_none len;
}

write_ends_example :
    Ensures
      (λ moved.
        (moved.0.offset ≡ some 3)
        ⊎ ((moved.0.count ≤ 4) × (moved.0.offset ≡ some (3 + moved.0.count))))
      (write idle_host (some []) 7 true bytes 4 (some 3) [])
write_ends_example = write_ends idle_host [] 7 bytes 4 3 [] idle_host-AnswersChunks (omega arith)

-- "Man" in Base64
bytes_text : base64_encode (77 ∷ 97 ∷ 110 ∷ []) 5 ≡ some (84 ∷ 87 ∷ 70 ∷ 117 ∷ [])
unfolding base64_encode groups group char_at
bytes_text = refl

requests-fit_example :
    (encode_name (codes "a b") ≡ done (encode (codes "a b")))
    × (fill_request
          (codes "t")
          (codes "create_file")
          (parent_name_mode 1000 420 (encode (codes "a b")))
        ≡ done (
            request_text
              (codes "t")
              (codes "create_file")
              (parent_name_mode 1000 420 (encode (codes "a b")))))
    × (fill_request (codes "t") (codes "link") (target_parent_name 1001 1000 (encode (codes "a b")))
        ≡ done (
            request_text
              (codes "t")
              (codes "link")
              (target_parent_name 1001 1000 (encode (codes "a b")))))
    × (fill_request
          (codes "t")
          (codes "write")
          (ino_len_offset 1001 3 0 (data_arg (encode (84 ∷ 87 ∷ 70 ∷ 117 ∷ []))))
        ≡ done (
            request_text
              (codes "t")
              (codes "write")
              (ino_len_offset 1001 3 0 (data_arg (encode (84 ∷ 87 ∷ 70 ∷ 117 ∷ []))))))
requests-fit_example =
    requests-fit (codes "t") (codes "a b") 1000 420 1001 1001 0 (77 ∷ 97 ∷ 110 ∷ [])
      (84 ∷ 87 ∷ 70 ∷ 117 ∷ []) (omega arith) (omega arith) (omega arith) (omega arith) bytes_text

-- A server that answers ENOENT to everything
abbrev empty_host : Host (List ℕ)
empty_host = record file_host {
  call = λ token method size args content.
      done (record { return_value = 2; bytes = []; data_len = 0 }, content);
}

operations-failed_example :
    Ensures
      (λ a. Refuses (IsIntOrAbsent 2) a.0)
      (lookup empty_host (some []) 1000 (some (codes "a b")) [])
    × Ensures
        (λ a. Refuses (IsIntOrAbsent 2) a.0)
        (iterate_dir empty_host (some []) 1001 (some 3) true [])
    × Ensures
        (λ a. Refuses (IsIntOf 2) a.0)
        (create_file empty_host (some []) 1000 (some (codes "a b")) 420 [])
    × Ensures
        (λ a. Refuses (IsIntOf 2) a.0)
        (create_dir empty_host (some []) 1000 (some (codes "a b")) 420 [])
    × Ensures (λ a. IsIntOf 2 a.0) (unlink empty_host (some []) 1000 (some (codes "a b")) [])
    × Ensures (λ a. IsIntOf 2 a.0) (rmdir empty_host (some []) 1000 (some (codes "a b")) [])
    × Ensures (λ a. IsIntOf 2 a.0) (link empty_host (some []) 1002 1000 (some (codes "a b")) [])
    × Ensures (λ a. a.0 ≡ 0) (count_links empty_host (some []) 1001 [])
    × Ensures (λ m. ReadRefuses 2 3 m.0) (read empty_host (some []) 1001 true 10 (some 3) [])
operations-failed_example =
    operations-failed empty_host [] 2 (omega arith) (codes "a b") 1000 420 1002 1001 10 3 []
      (λ method size args w. refl) (omega arith) (omega arith)
