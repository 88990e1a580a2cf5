-- ===== src/Dsd.antt =====
-- formats/dsd/format.go, dsd.go and compression.go: values behind a byte that names their format.
-- The serializers and gzip are other packages: `Codecs` is what the code calls of them.
pub mod RoundTrip
mod Tests
use portbase.Prelude.{
  ℕ, zero, suc, ◌+◌, List, [], ◌∷◌, ◌++◌, Bool, true, false, Option, none, some, leb, ◌==◌,
  if◌then◌else◌, Result, ok, err, panic, ◌>>=◌, map_err, or_err, length, drop,
}
use portbase.Varint
use portbase.Varint.{pack8, unpack8}

pub data Error : Type 0 where
  incompatible_format is_raw unexpected_eof codec_failed gencode_unsupported : Error
  varint_error : Varint.Error → Error

abbrev pub auto : ℕ
auto = 0

abbrev pub raw : ℕ
raw = 1

abbrev pub cbor : ℕ
cbor = 67

abbrev pub gen_code : ℕ
gen_code = 71

abbrev pub json : ℕ
json = 74

abbrev pub msg_pack : ℕ
msg_pack = 77

abbrev pub yaml : ℕ
yaml = 89

abbrev pub gzip : ℕ
gzip = 90

-- For the values of one type: what is packed and unpacked by each serializer, `none` for an error.
-- `bytes` is the type assertion to a byte slice, and `gencode` that to GenCodeCompatible.
pub record Codecs (T : Type 0) : Type 0 where
  pub bytes : T → Option (List ℕ)
  pub pack_json : T → Option (List ℕ)
  pub pack_yaml : T → Option (List ℕ)
  pub pack_cbor : T → Option (List ℕ)
  pub pack_msgpack : T → Option (List ℕ)
  pub unpack_json : List ℕ → Option T
  pub unpack_yaml : List ℕ → Option T
  pub unpack_cbor : List ℕ → Option T
  pub unpack_msgpack : List ℕ → Option T
  pub is_gencode : Bool
  pub pack_gencode : T → Option (List ℕ)
  pub unpack_gencode : List ℕ → Option T
  pub compress : List ℕ → Option (List ℕ)
  pub decompress : List ℕ → Option (List ℕ)

-- A format that is valid stands for itself, but AUTO for the default. DefaultSerializationFormat is a variable that
-- programs may set; here it has the value that format.go gives it, JSON.
unfoldable pub validate_serialization_format : ℕ → Option ℕ
validate_serialization_format format =
    if format == auto
    then some json
    else if format == raw
    then some format
    else if format == cbor
    then some format
    else if format == gen_code
    then some format
    else if format == json
    then some format
    else if format == yaml
    then some format
    else if format == msg_pack
    then some format
    else none

unfoldable pub validate_compression_format : ℕ → Option ℕ
validate_compression_format format =
    if format == auto then some gzip else if format == gzip then some format else none

unfoldable pub load_format : List ℕ → Result Error (ℕ × ℕ)
load_format blob = do
  (format, read) ← map_err varint_error (unpack8 blob)
  if leb (length blob) read then err unexpected_eof else ok (format, read)

module _ {T : Type 0} (c : Codecs T) where
  unfoldable pub load_as_format : List ℕ → ℕ → Result Error T
  load_as_format blob format =
      if format == raw
      then err is_raw
      else if format == json
      then or_err codec_failed (c.unpack_json blob)
      else if format == yaml
      then or_err codec_failed (c.unpack_yaml blob)
      else if format == cbor
      then or_err codec_failed (c.unpack_cbor blob)
      else if format == msg_pack
      then or_err codec_failed (c.unpack_msgpack blob)
      else if format == gen_code
      then (if c.is_gencode
          then or_err codec_failed (c.unpack_gencode blob)
          else err gencode_unsupported)
      else err incompatible_format

  -- LoadAsFormat behind the format, which is returned too.
  unfoldable pub load_rest : List ℕ → ℕ × ℕ → Result Error (ℕ × T)
  load_rest blob (format, read) = do
    value ← load_as_format (drop read blob) format
    ok (format, value)

  unfoldable pub decompress_and_load : List ℕ → ℕ → Result Error (ℕ × T)
  decompress_and_load blob compression = elim (validate_compression_format compression) [
    | none ↦ err incompatible_format
    | some _ ↦
        if compression == gzip
        then (or_err codec_failed (c.decompress blob) >>= λ plain.
            load_format plain >>= λ head. load_rest plain head)
        else err incompatible_format
  ]

  -- By the answer of ValidateSerializationFormat.
  unfoldable pub load_checked : List ℕ → ℕ × ℕ → Option ℕ → Result Error (ℕ × T)
  load_checked blob head (some _) = load_rest blob head
  load_checked blob head none = decompress_and_load (drop head.1 blob) head.0

  unfoldable pub load : List ℕ → Result Error (ℕ × T)
  load blob = do
    head ← load_format blob
    load_checked blob head (validate_serialization_format head.0)

  unfoldable pub dump_without_identifier : T → ℕ → Result Error (List ℕ)
  dump_without_identifier t format = elim (validate_serialization_format format) [
    | none ↦ err incompatible_format
    | some chosen ↦
        if chosen == raw
        then or_err incompatible_format (c.bytes t)
        else if chosen == json
        then or_err codec_failed (c.pack_json t)
        else if chosen == yaml
        then or_err codec_failed (c.pack_yaml t)
        else if chosen == cbor
        then or_err codec_failed (c.pack_cbor t)
        else if chosen == msg_pack
        then or_err codec_failed (c.pack_msgpack t)
        else if chosen == gen_code
        then (if c.is_gencode
            then or_err codec_failed (c.pack_gencode t)
            else err gencode_unsupported)
        else err incompatible_format
  ]

  -- The identifier in front is the format as it was asked for, AUTO too.
  unfoldable pub dump : T → ℕ → Result Error (List ℕ)
  dump t format = do packed ← dump_without_identifier t format; ok (pack8 format ++ packed)

  unfoldable pub dump_and_compress : T → ℕ → ℕ → Result Error (List ℕ)
  dump_and_compress t format compression = elim (validate_compression_format compression) [
    | none ↦ err incompatible_format
    | some chosen ↦ dump t format >>= λ plain.
        if chosen == gzip
        then (or_err codec_failed (c.compress plain) >>= λ packed. ok (pack8 chosen ++ packed))
        else err incompatible_format
  ]
