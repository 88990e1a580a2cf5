-- ===== src/Record/Wrapper/RoundTrip.antt =====
-- Reading a wrapped record behind marshalling it with its metadata.
use portbase.Prelude.{
  ℕ, ◌-◌, ◌^◌, ◌<◌, ◌≡◌, refl, sym, ap, ◌∙◌, List, [], ◌∷◌, ◌++◌, Bool, true, false, Option, none,
  some, if◌then◌else◌, Result, ok, ◌>>=◌, length, arith, append-nil, le→leb, Bool-cases, inl, inr,
}
use portbase.Prelude.Int.{pos}
use portbase.Varint
use portbase.Varint.{unpack8, get_next_block, pack64, prepend_length, pack8}
use portbase.Varint.Encoding.{groups, pack64-groups}
use portbase.Varint.Blocks.{get_next_block-prepend_length}
use portbase.Container
use portbase.Container.{Container, append_as_block, append, compile_data}
use portbase.Container.Valid.{content, IsValid, append_as_block-Yields, append-IsValid}
use portbase.Container.Whole.{compile_data-content}
use portbase.Dsd.RoundTrip.{load_format_byte}
use portbase.Dsd.{
  Codecs, auto, raw, gen_code, dump, dump_without_identifier, load, load_checked, load_rest,
  load_as_format, validate_serialization_format,
}
use portbase.Record.Meta.{Meta, is_pos, is_deleted}
use portbase.Record.GenCode.{gen_code_marshal, gen_code_unmarshal, int64_bytes}
use portbase.Record.GenCode.RoundTrip.{InRange, gen_code_unmarshal-gen_code_marshal}
use portbase.Record.Wrapper.{
  Wrapper, Error, require_meta, slice_from, marshal_with, marshal, marshal_record_with,
  marshal_record, read_format, read_sections, new_raw_wrapper,
}

unmarshalled : Option (Meta × ℕ) → Option Meta
unmarshalled none = none
unmarshalled (some (m, n)) = some m

-- The serializers of the metadata: its own code for GenCode.
pub with_gen_code : Codecs Meta → Codecs Meta
with_gen_code c = record c {
  is_gencode = true;
  pack_gencode = λ m. some (gen_code_marshal m);
  unpack_gencode = λ buf. unmarshalled (gen_code_unmarshal buf);
}

-- The bytes of a record: the version, the length of the metadata section, its identifier and bytes,
-- and the data section.
abbrev pub record_bytes : Meta → List ℕ → List ℕ
record_bytes m data_section = 1 ∷ 35 ∷ gen_code ∷ gen_code_marshal m ++ data_section

loads :
    (c : Codecs Meta) (m : Meta) (d : List ℕ)
    → length d ≡ 34
    → gen_code_unmarshal d ≡ some (m, 34)
    → load (with_gen_code c) (gen_code ∷ d) ≡ ok (gen_code, m)
unfolding load load_checked load_rest load_as_format validate_serialization_format with_gen_code
    unmarshalled
loads c m d e u = rw (load_format_byte gen_code d (omega arith) (omega (arith, e))) (rw u refl)

module _ (c : Codecs Meta) (m : Meta) where
  dump_meta : dump (with_gen_code c) m gen_code ≡ ok (gen_code ∷ gen_code_marshal m)
  unfolding dump dump_without_identifier with_gen_code validate_serialization_format pack8
  dump_meta = refl

  load_meta : InRange m → load (with_gen_code c) (gen_code ∷ gen_code_marshal m) ≡ ok (gen_code, m)
  load_meta r =
      loads c m (gen_code_marshal m) marshalled
        (rw append-nil at (gen_code_unmarshal-gen_code_marshal m [] r).0)
    where
      marshalled : length (gen_code_marshal m) ≡ 34
      marshalled = unfold gen_code_marshal int64_bytes in refl

  -- The version, the metadata as a block and the data section are the bytes of the record.
  marshal_parts :
      (w : Wrapper) (data_section : List ℕ)
      → marshal w auto ≡ ok data_section
      → marshal_record_with (with_gen_code c) m w ≡ ok (record_bytes m data_section)
  unfolding marshal_record_with
  marshal_parts w data_section e =
      let start = Container.new ((1 ∷ []) ∷ []) in
      let sized =
        append_as_block-Yields (gen_code ∷ gen_code_marshal m) start section_fits start_IsValid in
      let (valid, holds) = append-IsValid data_section sized.result sized.valid in
      let (c', compiled, _, _) = compile_data-content (append data_section sized.result) valid in
      rw dump_meta (
        rw sized.returned (
          rw e (
            rw compiled
              (ap ok (holds ∙ ap (λ t. t ++ data_section) sized.holds ∙ laid_out data_section)))))
    where
      section_fits : length (gen_code ∷ gen_code_marshal m) < 2 ^ 64
      section_fits = unfold gen_code_marshal int64_bytes in omega arith

      start_IsValid : IsValid (Container.new ((1 ∷ []) ∷ []))
      start_IsValid = unfold Container.new in (record { in_range = omega arith; cleared = refl })

      laid_out :
          (data_section : List ℕ)
          → (content (Container.new ((1 ∷ []) ∷ []))
                ++ (groups 9 (length (gen_code ∷ gen_code_marshal m))
                    ++ (gen_code ∷ gen_code_marshal m)))
              ++ data_section
            ≡ record_bytes m data_section
      laid_out data_section = unfold Container.new groups gen_code_marshal int64_bytes in refl

-- The data section of a record: nothing if it is deleted.
abbrev pub data_section_of : Wrapper → Meta → List ℕ
data_section_of w m = if is_pos m.deleted then [] else w.format ∷ w.payload

marshal-auto :
    (w : Wrapper) (m : Meta) → w.meta ≡ some m → marshal w auto ≡ ok (data_section_of w m)
unfolding marshal marshal_with
marshal-auto w m e = ap (λ o. require_meta o (λ m. marshal_with m w auto)) e ∙ ground arith

-- GetNextBlock on the metadata section.
section_block :
    (m : Meta) (rest : List ℕ)
    → get_next_block (35 ∷ gen_code ∷ gen_code_marshal m ++ rest)
      ≡ ok (gen_code ∷ gen_code_marshal m, pos 36)
section_block m rest =
    let section : List ℕ = gen_code ∷ gen_code_marshal m in
    let (buf, written, got) = get_next_block-prepend_length section rest (fits m) in
    let is : ok (35 ∷ section) ≡ ok buf = sym (sized m) ∙ written in subst_buf buf is got
  where
    fits : (m : Meta) → length (gen_code ∷ gen_code_marshal m) < 2 ^ 63 - 10
    fits m = unfold gen_code_marshal int64_bytes in omega arith

    sized :
        (m : Meta)
        → prepend_length (gen_code ∷ gen_code_marshal m) ≡ ok (35 ∷ gen_code ∷ gen_code_marshal m)
    sized m =
        unfold prepend_length gen_code_marshal int64_bytes in
        rw (pack64-groups 35 (omega arith)) (unfold groups in refl)

    size : (m : Meta) → length (35 ∷ gen_code ∷ gen_code_marshal m) ≡ 36
    size m = unfold gen_code_marshal int64_bytes in refl

    subst_buf :
        (buf : List ℕ)
        → Path (Result Varint.Error (List ℕ)) (ok (35 ∷ gen_code ∷ gen_code_marshal m)) (ok buf)
        → get_next_block (buf ++ rest) ≡ ok (gen_code ∷ gen_code_marshal m, pos (length buf))
        → get_next_block (35 ∷ gen_code ∷ gen_code_marshal m ++ rest)
          ≡ ok (gen_code ∷ gen_code_marshal m, pos 36)
    subst_buf buf is got =
        let p : buf ≡ 35 ∷ gen_code ∷ gen_code_marshal m = cc is in
        (rw p at got) ∙ ap (λ n. ok (gen_code ∷ gen_code_marshal m, pos n)) (size m)

slice_behind :
    (m : Meta) (behind : List ℕ)
    → slice_from (35 ∷ gen_code ∷ gen_code_marshal m ++ behind) (pos 36) ≡ ok behind
unfolding slice_from gen_code_marshal int64_bytes
slice_behind m behind =
    rw (le→leb 36 (length (35 ∷ gen_code ∷ gen_code_marshal m ++ behind)) (omega arith)) refl

unpack8_byte : (f : ℕ) (rest : List ℕ) → f < 128 → unpack8 (f ∷ rest) ≡ ok (f, 1)
unfolding unpack8
unpack8_byte f [] h = ground arith
unpack8_byte f (x ∷ rest) h = ground arith

rest_back :
    (f : ℕ) (rest : List ℕ)
    → Path
        (Result Error (ℕ × List ℕ))
        (slice_from (f ∷ rest) (pos 1) >>= λ behind. ok (f, behind))
        (ok (f, rest))
unfolding slice_from
rest_back f rest = rw (le→leb 1 (length (f ∷ rest)) (omega arith)) refl

format_back :
    (w : Wrapper) (m : Meta)
    → w.format < 128
    → read_format m (data_section_of w m)
      ≡ ok (if is_pos m.deleted then (raw, []) else (w.format, w.payload))
unfolding read_format is_deleted
format_back w m h = elim (Bool-cases (is_pos m.deleted)) [
  | inl gone ↦ rw gone refl
  | inr kept ↦ rw (kept, unpack8_byte w.format w.payload h) (rest_back w.format w.payload)
]

module _ (c : Codecs Meta) (m : Meta) (r : InRange m) (db key : List ℕ) where
  read_back :
      (behind : List ℕ)
      → read_sections (with_gen_code c) db key (35 ∷ gen_code ∷ gen_code_marshal m ++ behind) ≡ (
          read_format m behind >>= λ (format, rest). ok (record {
            base = record { db_name = db; db_key = key; meta = some m };
            format = format;
            payload = rest;
          }))
  unfolding read_sections
  read_back behind =
      rw (section_block m behind) (rw (load_meta c m r) (rw (slice_behind m behind) refl))

slice_one : (b : ℕ) (rest : List ℕ) → slice_from (b ∷ rest) (pos 1) ≡ ok rest
unfolding slice_from
slice_one b rest = rw (le→leb 1 (length (b ∷ rest)) (omega arith)) refl

-- A wrapped record with metadata in int64 range and a format below 128 is marshalled without an error,
-- and NewRawWrapper reads it back under the given name and key: the same metadata, format and data,
-- but no data if the record is deleted.
pub new_raw_wrapper-marshal_record :
    (c : Codecs Meta) (w : Wrapper) (m : Meta) (db key : List ℕ)
    → w.meta ≡ some m
    → InRange m
    → w.format < 128
    → (bytes : List ℕ) × (marshal_record (with_gen_code c) w ≡ ok bytes)
      × (new_raw_wrapper (with_gen_code c) db key bytes
          ≡ ok (record {
            base = record { db_name = db; db_key = key; meta = some m };
            format = if is_pos m.deleted then raw else w.format;
            payload = if is_pos m.deleted then [] else w.payload;
          }))
unfolding marshal_record new_raw_wrapper
new_raw_wrapper-marshal_record c w m db key e r h =
    let behind : List ℕ = data_section_of w m in
    let sections : List ℕ = 35 ∷ gen_code ∷ gen_code_marshal m ++ behind in
    (
      record_bytes m behind,
      ap (λ o. require_meta o (λ m. marshal_record_with (with_gen_code c) m w)) e
          ∙ marshal_parts c m w behind (marshal-auto w m e),
      rw (unpack8_byte 1 sections (omega arith)) (
          rw (slice_one 1 sections) (
            rw (read_back c m r db key behind)
              (rw (format_back w m h) (by_deletion (is_pos m.deleted))))),
    )
  where
    by_deletion :
        (gone : Bool)
        → Path
            (Result Error Wrapper)
            (ok (record {
              base = record { db_name = db; db_key = key; meta = some m };
              format = (if◌then◌else◌ {A = ℕ × List ℕ} gone (raw, []) (w.format, w.payload)).0;
              payload = (if◌then◌else◌ {A = ℕ × List ℕ} gone (raw, []) (w.format, w.payload)).1;
            }))
            (ok (record {
              base = record { db_name = db; db_key = key; meta = some m };
              format = if gone then raw else w.format;
              payload = if gone then [] else w.payload;
            }))
    by_deletion true = refl
    by_deletion false = refl
