-- ===== src/Prelude/Bytes.antt =====
-- A byte slice is a list of numbers below 256. Masks on one byte as arithmetic, each a table of
-- 256 entries that is checked by evaluation.
use Prim.Native.Nat.{ℕ, zero, suc, ◌+◌, ◌%◌, ◌<◌, bit_and, bit_or}
use mathlib.Core.Path.{◌≡◌, refl}
use mathlib.Core.Bool.{Bool, true, ◌&&◌}
use native.Mathlib.Omega.{arith}
use portbase.Prelude.Tests.{◌==◌, ==_iff}

abbrev pub IsByte : ℕ → Type 0
IsByte b = b < 256

holds_below : ℕ → (ℕ → Bool) → Bool
holds_below zero p = true
holds_below (suc n) p = p n && holds_below n p

holds_below→eq : (n : ℕ) (p : ℕ → Bool) (x : ℕ) → holds_below n p ≡ true → x < n → p x ≡ true
unfolding holds_below
holds_below→eq zero p x h lt = absurd (omega arith)
holds_below→eq (suc n) p x h lt = ground (arith, holds_below→eq n p x)

set_top_table : holds_below 256 (λ x. bit_or x 0x80 == x % 128 + 128) ≡ true
unfolding holds_below
set_top_table = refl

pub set_top_bit : (x : ℕ) → x < 256 → bit_or x 0x80 ≡ x % 128 + 128
set_top_bit x h = (==_iff _ _).0 (holds_below→eq 256 _ x set_top_table h)

low_bits_table : holds_below 256 (λ x. bit_and x 0x7f == x % 128) ≡ true
unfolding holds_below
low_bits_table = refl

pub low_bits : (x : ℕ) → x < 256 → bit_and x 0x7f ≡ x % 128
low_bits x h = (==_iff _ _).0 (holds_below→eq 256 _ x low_bits_table h)
