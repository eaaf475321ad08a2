-- ===== src/Tests/OnFormats.antt =====
-- The formats at small inputs.
use os_course_lab.Base.{ℕ, ◌+◌, ◌-◌, ◌^◌, ◌<◌, ◌≡◌, refl, true, some, List, [], ◌∷◌, arith, done}
use os_course_lab.Interface.{dir, file, NodeMeta, Dirent, ok}
use os_course_lab.Interface.IoParams.{validate_io_params}
use os_course_lab.Interface.IoParams.Laws.{validate_io_params_wraps}
use os_course_lab.Net.Base64.{char_at, group, groups, base64_encode}
use os_course_lab.Net.Base64.Laws.{base64_decode, zero_filled, base64_decode-filled}
use os_course_lab.Net.Encode.{encode}
use os_course_lab.Net.Encode.Laws.{percent_decode, percent_decode-encode}
use os_course_lab.Net.Decode.{parse_node_meta, parse_dirent}
use os_course_lab.Net.Decode.Laws.{
  IsWireMeta, IsWireDirent, node_meta_bytes, dirent_bytes, parse_node_meta-node_meta_bytes,
  parse_dirent-dirent_bytes,
}

validate_io_params_wraps_example :
    (validate_io_params 10 (2 ^ 64 - 3) true ≡ ok (some (10 + (2 ^ 64 - 3) - 2 ^ 64)))
    × (10 + (2 ^ 64 - 3) - 2 ^ 64 < 10)
validate_io_params_wraps_example =
    validate_io_params_wraps 10 (2 ^ 64 - 3) (omega arith) (omega arith) (omega arith)

-- "Man" and "Ma"
abbrev man : List ℕ
man = 77 ∷ 97 ∷ 110 ∷ []

abbrev ma : List ℕ
ma = 77 ∷ 97 ∷ []

-- "TWFu", and "TWEA" where RFC 4648 has "TWE="
man_encoded : base64_encode man 5 ≡ some (84 ∷ 87 ∷ 70 ∷ 117 ∷ [])
unfolding base64_encode groups group char_at
man_encoded = refl

ma_encoded : base64_encode ma 5 ≡ some (84 ∷ 87 ∷ 69 ∷ 65 ∷ [])
unfolding base64_encode groups group char_at
ma_encoded = refl

base64_decode-filled_example : base64_decode (84 ∷ 87 ∷ 69 ∷ 65 ∷ []) ≡ zero_filled ma
base64_decode-filled_example =
    base64_decode-filled ma (84 ∷ 87 ∷ 69 ∷ 65 ∷ []) 5 (omega arith, (omega arith, tt))
      (omega arith) (omega arith) ma_encoded

-- "a b"
abbrev spaced : List ℕ
spaced = 97 ∷ 32 ∷ 98 ∷ []

percent_decode-encode_example : percent_decode (encode spaced) ≡ spaced
percent_decode-encode_example =
    percent_decode-encode spaced (omega arith, (omega arith, (omega arith, tt)))

abbrev some_meta : NodeMeta
some_meta = record { ino = 1001; parent_ino = 1000; type = file; mode = 0o100644; size = 70000 }

some_meta-IsWireMeta : IsWireMeta some_meta
some_meta-IsWireMeta = record {
  ino = omega arith;
  parent_ino = omega arith;
  type = tt;
  mode = omega arith;
  size = omega arith;
}

parse_node_meta-node_meta_bytes_example :
    parse_node_meta (node_meta_bytes some_meta) ≡ done some_meta
parse_node_meta-node_meta_bytes_example =
    parse_node_meta-node_meta_bytes some_meta some_meta-IsWireMeta

abbrev some_dirent : Dirent
some_dirent = record { name = spaced; ino = 1002; type = dir }

some_dirent-IsWireDirent : IsWireDirent some_dirent
some_dirent-IsWireDirent = record {
  name = (omega arith, (omega arith, (omega arith, tt)));
  short = omega arith;
  ino = omega arith;
  type = tt;
}

parse_dirent-dirent_bytes_example : parse_dirent (dirent_bytes some_dirent) ≡ done some_dirent
parse_dirent-dirent_bytes_example = parse_dirent-dirent_bytes some_dirent some_dirent-IsWireDirent
