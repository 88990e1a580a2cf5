-- ===== src/Dsd/RoundTrip.antt =====
-- Load on what Dump and DumpAndCompress write.
use portbase.Prelude.{
  ℕ, ◌<◌, ◌≡◌, refl, ap, List, [], ◌∷◌, ◌++◌, some, inl, inr, Result, ok, err, or_err, length,
  arith, bind_inv, or_err-ok, lt→ltb, Bool-cases,
}
use portbase.Varint.{pack8, unpack8}
use portbase.Dsd.{
  Error, incompatible_format, unexpected_eof, codec_failed, gencode_unsupported, Codecs, auto, cbor,
  gen_code, json, msg_pack, yaml, gzip, validate_serialization_format, validate_compression_format,
  load_format, load_as_format, load_rest, load_checked, decompress_and_load, load,
  dump_without_identifier, dump, dump_and_compress,
}

-- The serializers that a value is loaded with, and their identifiers.
pub data Serializer : Type 0 where
  in_cbor in_gen_code in_json in_msg_pack in_yaml : Serializer

abbrev pub id_of : Serializer → ℕ
id_of in_cbor = cbor
id_of in_gen_code = gen_code
id_of in_json = json
id_of in_msg_pack = msg_pack
id_of in_yaml = yaml

-- Documented of each serializer: it reads back what it packed, which is not empty; and gzip.
pub record Laws {T : Type 0} (c : Codecs T) : Type 0 where
  pub json_back :
      (t : T) (d : List ℕ) → c.pack_json t ≡ some d → (c.unpack_json d ≡ some t) × (0 < length d)
  pub yaml_back :
      (t : T) (d : List ℕ) → c.pack_yaml t ≡ some d → (c.unpack_yaml d ≡ some t) × (0 < length d)
  pub cbor_back :
      (t : T) (d : List ℕ) → c.pack_cbor t ≡ some d → (c.unpack_cbor d ≡ some t) × (0 < length d)
  pub msgpack_back :
      (t : T) (d : List ℕ)
      → c.pack_msgpack t ≡ some d
      → (c.unpack_msgpack d ≡ some t) × (0 < length d)
  pub gencode_back :
      (t : T) (d : List ℕ)
      → c.pack_gencode t ≡ some d
      → (c.unpack_gencode d ≡ some t) × (0 < length d)
  pub gzip_back :
      (d z : List ℕ) → c.compress d ≡ some z → (c.decompress z ≡ some d) × (0 < length z)

pub load_format_byte :
    (f : ℕ) (d : List ℕ) → f < 128 → 0 < length d → load_format (f ∷ d) ≡ ok (f, 1)
unfolding load_format unpack8
load_format_byte f [] hf hd = absurd (omega arith)
load_format_byte f (x ∷ d) hf hd = ground arith

load_format_empty : (f : ℕ) → f < 128 → load_format (f ∷ []) ≡ err unexpected_eof
unfolding load_format unpack8
load_format_empty f h = ground arith

pack8_byte : (f : ℕ) → f < 128 → pack8 f ≡ f ∷ []
unfolding pack8
pack8_byte f h = rw (lt→ltb f 128 h)

id_of-lt : (s : Serializer) → id_of s < 128
id_of-lt in_cbor = omega arith
id_of-lt _ = omega arith

id_of-valid : (s : Serializer) → validate_serialization_format (id_of s) ≡ some (id_of s)
unfolding validate_serialization_format
id_of-valid in_cbor = refl
id_of-valid _ = refl

module _ {T : Type 0} (c : Codecs T) (laws : Laws c) where
  -- Unpacking what was packed.
  unpacks :
      (t : T) (s : Serializer) (d : List ℕ)
      → dump_without_identifier c t (id_of s) ≡ ok d
      → (load_as_format c d (id_of s) ≡ ok t) × (0 < length d)
  unfolding dump_without_identifier load_as_format validate_serialization_format
  unpacks t in_cbor d e = let (back, full) = laws.cbor_back t d (or_err-ok _ _ e) in (rw back, full)
  unpacks t in_json d e = let (back, full) = laws.json_back t d (or_err-ok _ _ e) in (rw back, full)
  unpacks t in_msg_pack d e =
      let (back, full) = laws.msgpack_back t d (or_err-ok _ _ e) in (rw back, full)
  unpacks t in_yaml d e = let (back, full) = laws.yaml_back t d (or_err-ok _ _ e) in (rw back, full)
  unpacks t in_gen_code d e = elim (Bool-cases c.is_gencode) [
    | inl there ↦
        let (back, full) = laws.gencode_back t d (or_err-ok _ _ (rw there at e)) in
        (rw (there, back), full)
    | inr missing ↦ absurd (differ (rw missing at e))
  ]
    where
      differ : Path (Result Error (List ℕ)) (err gencode_unsupported) (ok d) → ⊥
      differ p = ground arith

  -- Reading the identifier and what follows it, of a value that Dump wrote.
  loads_dumped :
      (t : T) (s : Serializer) (blob : List ℕ)
      → dump c t (id_of s) ≡ ok blob
      → (load_format blob ≡ ok (id_of s, 1)) × (load_rest c blob (id_of s, 1) ≡ ok (id_of s, t))
  unfolding dump load_rest
  loads_dumped t s blob e =
      let (d, packed, whole) = bind_inv _ (dump_without_identifier c t (id_of s)) e in
      let (back, full) = unpacks t s d packed in
      let is : blob ≡ id_of s ∷ d =
        ground (arith, whole, ap (λ p. p ++ d) (pack8_byte (id_of s) (id_of-lt s))) in
      rw is (load_format_byte (id_of s) d (id_of-lt s) full, rw back)

  load_serialized :
      (blob : List ℕ) (s : Serializer) {r : Result Error (ℕ × T)}
      → load_format blob ≡ ok (id_of s, 1)
      → load_rest c blob (id_of s, 1) ≡ r
      → load c blob ≡ r
  unfolding load
  load_serialized blob s head rest = rw (head, id_of-valid s) (unfold load_checked in rest)

  load-gzip :
      (z plain : List ℕ) {head : ℕ × ℕ} {r : Result Error (ℕ × T)}
      → 0 < length z
      → c.decompress z ≡ some plain
      → load_format plain ≡ ok head
      → load_rest c plain head ≡ r
      → load c (gzip ∷ z) ≡ r
  unfolding load load_checked decompress_and_load validate_serialization_format
      validate_compression_format
  load-gzip z plain full back head rest =
      rw (load_format_byte gzip z (omega arith) full) (rw back (rw head rest))

  -- For each serializer that packs a value, Load returns the format and the value from what Dump
  -- wrote.
  pub load-dump :
      (t : T) (s : Serializer) (blob : List ℕ)
      → dump c t (id_of s) ≡ ok blob
      → load c blob ≡ ok (id_of s, t)
  load-dump t s blob e =
      let (head, rest) = loads_dumped t s blob e in load_serialized blob s head rest

  -- What Dump writes for the format AUTO, with which it packs JSON, Load always refuses: the
  -- identifier in front is that of AUTO.
  pub load-dump-auto :
      (t : T) (blob : List ℕ) → dump c t auto ≡ ok blob → load c blob ≡ err incompatible_format
  unfolding dump load load_checked load_rest load_as_format validate_serialization_format
  load-dump-auto t blob e =
      let (d, packed, whole) = bind_inv _ (dump_without_identifier c t auto) e in
      let full = (laws.json_back t d (or_err-ok _ _ (auto_json t d packed))).1 in
      ground (arith, refused d full)
    where
      auto_json :
          (t : T) (d : List ℕ)
          → dump_without_identifier c t auto ≡ ok d
          → or_err codec_failed (c.pack_json t) ≡ ok d
      auto_json t d p = unfold dump_without_identifier in p

      refused : (d : List ℕ) → 0 < length d → load c (pack8 auto ++ d) ≡ err incompatible_format
      refused d full = rw (pack8_byte 0 (omega arith), load_format_byte 0 d (omega arith) full)

  -- For each serializer, Load returns the format and the value from what DumpAndCompress wrote.
  pub load-dump_and_compress :
      (t : T) (s : Serializer) (blob : List ℕ)
      → dump_and_compress c t (id_of s) gzip ≡ ok blob
      → load c blob ≡ ok (id_of s, t)
  unfolding dump_and_compress validate_compression_format
  load-dump_and_compress t s blob e =
      let (plain, dumped, rest) = bind_inv _ (dump c t (id_of s)) e in
      let (z, squeezed, whole) = bind_inv _ (or_err codec_failed (c.compress plain)) rest in
      let (back, full) = laws.gzip_back plain z (or_err-ok _ _ squeezed) in
      let (head, inner) = loads_dumped t s plain dumped in
      let is : blob ≡ gzip ∷ z =
        ground (arith, whole, ap (λ p. p ++ z) (pack8_byte gzip (omega arith))) in
      rw is (load-gzip z plain full back head inner)
