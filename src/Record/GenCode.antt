-- ===== src/Record/GenCode.antt =====
-- database/record/meta-gencode.go: the 34 bytes of the metadata.
pub mod RoundTrip
use portbase.Prelude.{
  ℕ, zero, suc, ◌+◌, ◌*◌, ◌/◌, ◌%◌, ◌^◌, List, [], ◌∷◌, ◌++◌, Bool, true, false, none, some, Option,
  ltb, ◌==◌, if◌then◌else◌, length, get_elem?,
}
use portbase.Prelude.Int.{ℤ, bits64, int64}
use portbase.Record.Meta.{Meta}

unfoldable pub gen_code_size : ℕ
gen_code_size = 34

-- byte(z >> k): the low byte of the shifted pattern. No shift here reaches the sign's copies.
abbrev byte_at : ℕ → ℕ → ℕ
byte_at bits k = bits / 2 ^ k % 256

-- The eight bytes of an int64, the lowest first.
unfoldable pub int64_bytes : ℤ → List ℕ
int64_bytes z =
    let bits = bits64 z in
    byte_at bits 0
    ∷ byte_at bits 8
    ∷ byte_at bits 16
    ∷ byte_at bits 24
    ∷ byte_at bits 32
    ∷ byte_at bits 40
    ∷ byte_at bits 48
    ∷ byte_at bits 56
    ∷ []

unfoldable pub flag_byte : Bool → ℕ
flag_byte flag = if flag then 1 else 0

-- The buffer that is passed in is only reused, and every byte of it is written.
unfoldable pub gen_code_marshal : Meta → List ℕ
gen_code_marshal m =
    int64_bytes m.created
    ++ (int64_bytes m.modified
        ++ (int64_bytes m.expires
            ++ (int64_bytes m.deleted ++ (flag_byte m.secret ∷ flag_byte m.cronjewel ∷ []))))

-- buf[i]; the length is checked before.
abbrev at : List ℕ → ℕ → ℕ
at buf i = elim (get_elem? buf i) [ none ↦ 0 | some b ↦ b ]

-- The shifted bytes share no bits, so `|` is a sum.
pub read_int64 : List ℕ → ℕ → ℤ
read_int64 buf o = int64 (
    at buf (0 + o)
    + at buf (1 + o) * 2 ^ 8
    + at buf (2 + o) * 2 ^ 16
    + at buf (3 + o) * 2 ^ 24
    + at buf (4 + o) * 2 ^ 32
    + at buf (5 + o) * 2 ^ 40
    + at buf (6 + o) * 2 ^ 48
    + at buf (7 + o) * 2 ^ 56)

-- `none` is the error of a buffer that is too short. The number is that of the bytes read.
pub gen_code_unmarshal : List ℕ → Option (Meta × ℕ)
gen_code_unmarshal buf =
    if ltb (length buf) gen_code_size
    then none
    else some (
      record {
        created = read_int64 buf 0;
        modified = read_int64 buf 8;
        expires = read_int64 buf 16;
        deleted = read_int64 buf 24;
        secret = at buf 32 == 1;
        cronjewel = at buf 33 == 1;
      },
      34,
    )
