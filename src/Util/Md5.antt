-- ===== src/Util/Md5.antt =====
-- server/src/util/md5.cc: the digest of a message. A read past the end of the padded message is
-- undefined, and is `none` here.
pub mod Rounds
pub mod Digest
pub mod Vectors
use Prim.Native.Nat.{bit_and, bit_or, bit_xor}
use tp.Common.{
  ℕ, zero, suc, ◌+◌, ◌-◌, ◌*◌, ◌/◌, ◌%◌, ◌^◌, Bool, Option, none, some, List, [], ◌∷◌, ◌++◌, length,
  ltb, ◌==◌, not, if◌then◌else◌,
}
use tp.Text.{Text}
use tp.Util.Hex.{bin2hex}

-- A cast to `uint32_t`.
abbrev pub u32 : ℕ → ℕ
u32 n = n % 2 ^ 32

-- `~x`
abbrev complement : ℕ → ℕ
complement x = 2 ^ 32 - 1 - x

-- LEFTROTATE
abbrev left_rotate : ℕ → ℕ → ℕ
left_rotate x c = bit_or (u32 (x * 2 ^ c)) (x / 2 ^ (32 - c))

unfoldable pub to_bytes : ℕ → Text
to_bytes val = val % 256 ∷ val / 2 ^ 8 % 256 ∷ val / 2 ^ 16 % 256 ∷ val / 2 ^ 24 % 256 ∷ []

unfoldable pub to_int32 : ℕ → ℕ → ℕ → ℕ → ℕ
to_int32 a b c d =
    bit_or (bit_or (bit_or a (u32 (b * 2 ^ 8))) (u32 (c * 2 ^ 16))) (u32 (d * 2 ^ 24))

-- h0, h1, h2 and h3, or a, b, c and d.
pub record Registers : Type 0 where
  pub a : ℕ
  pub b : ℕ
  pub c : ℕ
  pub d : ℕ

abbrev initial_registers : Registers
initial_registers = record { a = 0x67452301; b = 0xefcdab89; c = 0x98badcfe; d = 0x10325476 }

-- The first length from `new_len` on that is 56 modulo 64. The first argument bounds the rounds.
unfoldable pub padded_length : ℕ → ℕ → ℕ
padded_length zero new_len = new_len
padded_length (suc fuel) new_len =
    let longer = padded_length fuel (new_len + 1) in if new_len % 64 == 56 then new_len else longer

abbrev zeros : ℕ → Text
zeros zero = []
zeros (suc n) = 0 ∷ zeros n

abbrev pub new_length : ℕ → ℕ
new_length initial_len = padded_length 64 (initial_len + 1)

-- The buffer `msg`, of `new_len + 8` bytes.
unfoldable pub padded_message : Text → Text
padded_message initial_msg =
    let n = length initial_msg in
    let size = to_bytes (u32 (n * 8)) ++ to_bytes (u32 (n / 2 ^ 29)) in
    initial_msg ++ (0x80 ∷ (zeros (new_length n - (n + 1)) ++ size))
