-- ===== src/Connection/Bits.antt =====
-- The masks and exclusive-ors of Connection.cpp on single bytes as arithmetic; each fact is a table
-- that is checked by evaluation.
use Prim.Native.Nat.{bit_and, bit_or, bit_xor}
use epic_1bit2qbit.Prelude.{
  ℕ, zero, suc, ◌+◌, ◌*◌, ◌/◌, ◌%◌, ◌<◌, ◌≡◌, refl, Bool, true, ◌&&◌, arith, nat_beq, nat_beq_iff,
}

-- A test of every number under a bound, from the largest down.
unfoldable pub table : (ℕ → Bool) → ℕ → Bool
table test zero = true
table test (suc k) = table test k && test k

table_entry : (test : ℕ → Bool) (bound i : ℕ) → i < bound → table test bound ≡ true → test i ≡ true
unfolding table
table_entry test zero i in_range checked = absurd (omega arith)
table_entry test (suc k) i in_range checked = ground (arith, table_entry test k i)

pub below :
    (n : ℕ) (f g : ℕ → ℕ) → table (λ x. nat_beq (f x) (g x)) n ≡ true → (x : ℕ) → x < n → f x ≡ g x
below n f g h x lt = (nat_beq_iff (f x) (g x)).0 (table_entry (λ y. nat_beq (f y) (g y)) n x lt h)

pub every_byte :
    (f g : ℕ → ℕ) → table (λ x. nat_beq (f x) (g x)) 256 ≡ true → (x : ℕ) → x < 256 → f x ≡ g x
every_byte = below 256

pub top_bit : (b : ℕ) → b < 256 → bit_and b 0x80 ≡ b / 128 * 128
unfolding table
top_bit = below 256 (λ b. bit_and b 0x80) (λ b. b / 128 * 128) refl

pub low_seven : (b : ℕ) → b < 256 → bit_and b 0x7f ≡ b % 128
unfolding table
low_seven = below 256 (λ b. bit_and b 0x7f) (λ b. b % 128) refl

pub low_four : (b : ℕ) → b < 256 → bit_and b 0x0f ≡ b % 16
unfolding table
low_four = below 256 (λ b. bit_and b 0x0f) (λ b. b % 16) refl

pub control_bit : (b : ℕ) → b < 16 → bit_and b 0x08 ≡ b / 8 * 8
unfolding table
control_bit = below 16 (λ b. bit_and b 0x08) (λ b. b / 8 * 8) refl

pub set_top_bit : (b : ℕ) → b < 128 → bit_or 0x80 b ≡ 128 + b
unfolding table
set_top_bit = below 128 (λ b. bit_or 0x80 b) (λ b. 128 + b) refl

xor_table : table (λ m. table (λ x. nat_beq (bit_xor (bit_xor x m) m) x) 256) 256 ≡ true
unfolding table
xor_table = refl

-- Masking twice with one byte gives the byte back.
pub xor_twice : (m x : ℕ) → m < 256 → x < 256 → bit_xor (bit_xor x m) m ≡ x
xor_twice m x hm hx = (nat_beq_iff (bit_xor (bit_xor x m) m) x).0 (
    table_entry (λ y. nat_beq (bit_xor (bit_xor y m) m) y) 256 x hx
      (table_entry (λ k. table (λ y. nat_beq (bit_xor (bit_xor y k) k) y) 256) 256 m hm xor_table))
