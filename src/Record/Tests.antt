-- ===== src/Record/Tests.antt =====
-- Runs of database/record and of its theorems at concrete records.
use portbase.Prelude.{ℕ, ◌≡◌, refl, List, [], ◌∷◌, ◌++◌, true, false, none, some, ok, length, arith}
use portbase.Prelude.Int.{pos, negsuc}
use portbase.Dsd.{Codecs}
use portbase.Record.Meta.{
  Meta, update, delete, set_relativate_expiry, set_absolute_expiry, check_validity,
  get_relative_expiry, is_deleted,
}
use portbase.Record.Meta.Expiry.{update-set_relativate_expiry, delete_final}
use portbase.Record.GenCode.{gen_code_marshal, gen_code_unmarshal, gen_code_size}
use portbase.Record.GenCode.RoundTrip.{InRange, gen_code_unmarshal-gen_code_marshal}
use portbase.Record.Key.{Base, parse_key}
use portbase.Record.Wrapper.{Wrapper, marshal_record, new_raw_wrapper}
use portbase.Record.Wrapper.RoundTrip.{with_gen_code, new_raw_wrapper-marshal_record}

abbrev hidden : Meta
hidden = record {
  created = pos 5;
  modified = pos 7;
  expires = pos 0;
  deleted = negsuc 9;
  secret = true;
  cronjewel = false;
}

abbrev plain : Meta
plain = record hidden { deleted = pos 0; secret = false }

-- No serializer but GenCode.
abbrev no_codecs : Codecs Meta
no_codecs = record {
  bytes = λ _. none;
  pack_json = λ _. none;
  pack_yaml = λ _. none;
  pack_cbor = λ _. none;
  pack_msgpack = λ _. none;
  unpack_json = λ _. none;
  unpack_yaml = λ _. none;
  unpack_cbor = λ _. none;
  unpack_msgpack = λ _. none;
  is_gencode = false;
  pack_gencode = λ _. none;
  unpack_gencode = λ _. none;
  compress = λ _. none;
  decompress = λ _. none;
}

hidden-InRange : InRange hidden
hidden-InRange = record {
  created_fits = omega arith;
  modified_fits = omega arith;
  expires_fits = omega arith;
  deleted_fits = omega arith;
}

split_run : parse_key (b'a' ∷ b':' ∷ b'b' ∷ b':' ∷ []) ≡ (b'a' ∷ [], b'b' ∷ b':' ∷ [])
unfolding parse_key
split_run = refl

update-set_relativate_expiry_example :
    (check_validity (pos 111) (some (update (pos 100) (set_relativate_expiry (pos 10) plain)))
      ≡ false)
    × (get_relative_expiry (pos 111) (update (pos 100) (set_relativate_expiry (pos 10) plain))
        ≡ pos 0)
update-set_relativate_expiry_example =
    update-set_relativate_expiry 10 100 111 plain (omega arith) (omega arith) (omega arith)

delete_final_example :
    (check_validity (pos 9) (some (update (pos 8) (delete (pos 7) plain))) ≡ false)
    × (is_deleted (update (pos 8) (delete (pos 7) plain)) ≡ true)
    × (check_validity
          (pos 9)
          (some (update (pos 8) (set_absolute_expiry (pos 0) (delete (pos 7) plain))))
        ≡ true)
delete_final_example = delete_final 7 9 8 plain (omega arith)

gen_code_unmarshal-gen_code_marshal_example :
    (gen_code_unmarshal (gen_code_marshal hidden ++ (9 ∷ [])) ≡ some (hidden, 34))
    × (length (gen_code_marshal hidden) ≡ gen_code_size)
gen_code_unmarshal-gen_code_marshal_example =
    gen_code_unmarshal-gen_code_marshal hidden (9 ∷ []) hidden-InRange

abbrev core : List ℕ
core = b'c' ∷ b'o' ∷ []

abbrev core_key : List ℕ
core_key = b'c' ∷ b'o' ∷ b':' ∷ b'a' ∷ b':' ∷ []

abbrev unnamed : Base
unnamed = record { db_name = []; db_key = []; meta = none }

abbrev wrapped : Wrapper
wrapped = record {
  base = record { db_name = core; db_key = core; meta = some hidden };
  format = 74;
  payload = 1 ∷ 2 ∷ [];
}

new_raw_wrapper-marshal_record_example :
    (bytes : List ℕ) × (marshal_record (with_gen_code no_codecs) wrapped ≡ ok bytes)
    × (new_raw_wrapper (with_gen_code no_codecs) core core bytes ≡ ok wrapped)
new_raw_wrapper-marshal_record_example =
    new_raw_wrapper-marshal_record no_codecs wrapped hidden core core refl hidden-InRange
      (omega arith)
