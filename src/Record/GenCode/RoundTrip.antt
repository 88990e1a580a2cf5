-- ===== src/Record/GenCode/RoundTrip.antt =====
-- Unmarshalling metadata behind marshalling it.
use portbase.Prelude.{
  ℕ, ◌+◌, ◌*◌, ◌/◌, ◌%◌, ◌^◌, ◌<◌, ◌≡◌, refl, ◌∙◌, ap, List, ◌++◌, Bool, true, false, none, some,
  ◌==◌, length, arith, le→ltb, lt→ltb,
}
use portbase.Prelude.Int.{ℤ, bits64, int64, IsInt64, bits64-lt, int64-bits64}
use portbase.Record.Meta.{Meta}
use portbase.Record.GenCode.{
  gen_code_size, int64_bytes, flag_byte, gen_code_marshal, read_int64, gen_code_unmarshal,
}

pub record InRange (m : Meta) : Type 0 where
  pub created_fits : IsInt64 m.created
  pub modified_fits : IsInt64 m.modified
  pub expires_fits : IsInt64 m.expires
  pub deleted_fits : IsInt64 m.deleted

eight_bytes :
    (b : ℕ)
    → b < 2 ^ 64
    → b / 2 ^ 0 % 256
        + b / 2 ^ 8 % 256 * 2 ^ 8
        + b / 2 ^ 16 % 256 * 2 ^ 16
        + b / 2 ^ 24 % 256 * 2 ^ 24
        + b / 2 ^ 32 % 256 * 2 ^ 32
        + b / 2 ^ 40 % 256 * 2 ^ 40
        + b / 2 ^ 48 % 256 * 2 ^ 48
        + b / 2 ^ 56 % 256 * 2 ^ 56
      ≡ b
eight_bytes b h = omega arith

read_back :
    (z : ℤ)
    → IsInt64 z
    → int64 (
        bits64 z / 2 ^ 0 % 256
        + bits64 z / 2 ^ 8 % 256 * 2 ^ 8
        + bits64 z / 2 ^ 16 % 256 * 2 ^ 16
        + bits64 z / 2 ^ 24 % 256 * 2 ^ 24
        + bits64 z / 2 ^ 32 % 256 * 2 ^ 32
        + bits64 z / 2 ^ 40 % 256 * 2 ^ 40
        + bits64 z / 2 ^ 48 % 256 * 2 ^ 48
        + bits64 z / 2 ^ 56 % 256 * 2 ^ 56)
      ≡ z
read_back z h = ap int64 (eight_bytes (bits64 z) (bits64-lt z)) ∙ int64-bits64 z h

flag_back : (flag : Bool) → (flag_byte flag == 1) ≡ flag
unfolding flag_byte
flag_back true = refl
flag_back false = refl

-- GenCodeUnmarshal gives back the metadata that GenCodeMarshal wrote, whatever follows, and reads 34
-- bytes, if the times are int64; GenCodeMarshal writes as many.
pub gen_code_unmarshal-gen_code_marshal :
    (m : Meta) (rest : List ℕ)
    → InRange m
    → (gen_code_unmarshal (gen_code_marshal m ++ rest) ≡ some (m, 34))
      × (length (gen_code_marshal m) ≡ gen_code_size)
unfolding gen_code_unmarshal gen_code_marshal int64_bytes read_int64 flag_byte gen_code_size
gen_code_unmarshal-gen_code_marshal m rest r = (
  rw (le→ltb (length (gen_code_marshal m ++ rest)) 34 (omega arith)) (λ i. some (
    record {
      created = read_back m.created r.created_fits i;
      modified = read_back m.modified r.modified_fits i;
      expires = read_back m.expires r.expires_fits i;
      deleted = read_back m.deleted r.deleted_fits i;
      secret = flag_back m.secret i;
      cronjewel = flag_back m.cronjewel i;
    },
    34,
  )),
  refl,
)

-- GenCodeUnmarshal fails on a buffer of fewer than 34 bytes.
pub gen_code_unmarshal_short :
    (buf : List ℕ) → length buf < gen_code_size → gen_code_unmarshal buf ≡ none
unfolding gen_code_unmarshal
gen_code_unmarshal_short buf h = rw (lt→ltb _ _ h)
