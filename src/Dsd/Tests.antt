-- ===== src/Dsd/Tests.antt =====
-- Lists of bytes as values, and serializers that put a byte in front.
use portbase.Prelude.{
  ℕ, ◌<◌, ◌≡◌, refl, List, [], ◌∷◌, true, Option, none, some, ok, err, length, arith,
}
use portbase.Varint.{pack8}
use portbase.Dsd.{
  Codecs, incompatible_format, load, dump, dump_without_identifier, validate_serialization_format,
  gen_code,
}
use portbase.Dsd.RoundTrip.{Laws, in_gen_code, load-dump, load-dump-auto}
use mathlib.Core.Option.{some-injective}

abbrev put : List ℕ → Option (List ℕ)
put d = some (1 ∷ d)

abbrev pull : List ℕ → Option (List ℕ)
pull [] = none
pull (x ∷ d) = some d

put_back : (t d : List ℕ) → put t ≡ some d → (pull d ≡ some t) × (0 < length d)
put_back t d e = rw⁻¹ (some-injective (1 ∷ t) d e) (refl, omega arith)

abbrev plain : Codecs (List ℕ)
plain = record {
  bytes = λ d. some d;
  pack_json = put;
  pack_yaml = put;
  pack_cbor = put;
  pack_msgpack = put;
  unpack_json = pull;
  unpack_yaml = pull;
  unpack_cbor = pull;
  unpack_msgpack = pull;
  is_gencode = true;
  pack_gencode = put;
  unpack_gencode = pull;
  compress = put;
  decompress = pull;
}

plain_lem : Laws plain
plain_lem = record {
  json_back = put_back;
  yaml_back = put_back;
  cbor_back = put_back;
  msgpack_back = put_back;
  gencode_back = put_back;
  gzip_back = put_back;
}

load-dump_example : load plain (71 ∷ 1 ∷ 5 ∷ []) ≡ ok (gen_code, 5 ∷ [])
unfolding dump dump_without_identifier validate_serialization_format pack8
load-dump_example = load-dump plain plain_lem (5 ∷ []) in_gen_code (71 ∷ 1 ∷ 5 ∷ []) refl

load-dump-auto_example : load plain (0 ∷ 1 ∷ 5 ∷ []) ≡ err incompatible_format
unfolding dump dump_without_identifier validate_serialization_format pack8
load-dump-auto_example = load-dump-auto plain plain_lem (5 ∷ []) (0 ∷ 1 ∷ 5 ∷ []) refl
