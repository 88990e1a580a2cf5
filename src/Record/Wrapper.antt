-- ===== src/Record/Wrapper.antt =====
-- database/record/wrapper.go: a record as bytes. The metadata goes through dsd, of which
-- `codecs` is the serializers at the type of the metadata.
pub mod RoundTrip
use portbase.Prelude.{
  ℕ, zero, suc, ◌+◌, List, [], ◌∷◌, ◌++◌, Bool, true, false, not, ◌&&◌, Option, none, some, ◌==◌,
  if◌then◌else◌, Result, ok, err, panic, ◌>>=◌, map_err, or_err, length, drop, leb,
}
use portbase.Prelude.Int.{ℤ, pos, negsuc}
use portbase.Varint
use portbase.Varint.{unpack8, get_next_block}
use portbase.Container
use portbase.Container.{Container, append_as_block, append, compile_data}
use portbase.Dsd
use portbase.Dsd.{Codecs, auto, raw, gen_code, dump, load}
use portbase.Record.Meta.{Meta, is_pos, is_deleted}
use portbase.Record.Key.{Base, parse_key}

pub data Error : Type 0 where
  missing_meta format_mismatch : Error
  incompatible_version : ℕ → Error
  varint_error : Varint.Error → Error
  dsd_error : Dsd.Error → Error
  container_error : Container.Error → Error

pub record Wrapper : Type 0 where
  pub base : Base
  pub open base use *
  pub format : ℕ
  pub payload : List ℕ

pub new_wrapper : List ℕ → Option Meta → ℕ → List ℕ → Wrapper
new_wrapper key m format bytes = record {
  base = record { db_name = (parse_key key).0; db_key = (parse_key key).1; meta = m };
  format = format;
  payload = bytes;
}

-- bytes[offset:] for a signed offset; the sum of lengths that it is here stays below 2 ^ 63.
slice_from : List ℕ → ℤ → Result Error (List ℕ)
slice_from bytes (negsuc _) = panic
slice_from bytes (pos n) = if leb n (length bytes) then ok (drop n bytes) else panic

-- Nothing for a deleted record, else the format's byte and the data.
marshal_with : Meta → Wrapper → ℕ → Result Error (List ℕ)
marshal_with m w format =
    if is_pos m.deleted
    then ok []
    else if not (format == auto) && not (format == w.format)
    then err format_mismatch
    else ok (w.format ∷ w.payload)

-- `if w.Meta() == nil { return nil, errors.New("missing meta") }`
abbrev require_meta : Option Meta → (Meta → Result Error (List ℕ)) → Result Error (List ℕ)
require_meta none next = err missing_meta
require_meta (some m) next = next m

pub marshal : Wrapper → ℕ → Result Error (List ℕ)
marshal w format = require_meta w.meta (λ m. marshal_with m w format)

-- The format, and what follows it; a deleted record has neither.
read_format : Meta → List ℕ → Result Error (ℕ × List ℕ)
read_format m bytes =
    if is_deleted m
    then ok (raw, bytes)
    else (map_err varint_error (unpack8 bytes) >>= λ head.
        slice_from bytes (pos head.1) >>= λ rest. ok (head.0, rest))

module _ (codecs : Codecs Meta) where
  marshal_record_with : Meta → Wrapper → Result Error (List ℕ)
  marshal_record_with m w = do
    meta_section ← map_err dsd_error (dump codecs m gen_code)
    sized ← map_err container_error (append_as_block meta_section (Container.new ((1 ∷ []) ∷ [])))
    data_section ← marshal w auto
    (bytes, _) ← map_err container_error (compile_data (append data_section sized))
    ok bytes

  pub marshal_record : Wrapper → Result Error (List ℕ)
  marshal_record w = require_meta w.meta (λ m. marshal_record_with m w)

  -- Behind the version.
  read_sections : List ℕ → List ℕ → List ℕ → Result Error Wrapper
  read_sections db key bytes = do
    (meta_section, n) ← map_err varint_error (get_next_block bytes)
    (_, new_meta) ← map_err dsd_error (load codecs meta_section)
    behind ← slice_from bytes n
    (format, rest) ← read_format new_meta behind
    ok (record {
      base = record { db_name = db; db_key = key; meta = some new_meta };
      format = format;
      payload = rest;
    })

  pub new_raw_wrapper : List ℕ → List ℕ → List ℕ → Result Error Wrapper
  new_raw_wrapper db key bytes = do
    (version, offset) ← map_err varint_error (unpack8 bytes)
    if version == 1
        then (slice_from bytes (pos offset) >>= λ behind. read_sections db key behind)
        else err (incompatible_version version)
