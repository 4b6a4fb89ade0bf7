-- ===== src/Util/Md5/Rounds.antt =====
-- The rounds of server/src/util/md5.cc, its chunks, and the digest.
use Prim.Native.Nat.{bit_and, bit_or, bit_xor}
use tp.Common.{
  ℕ, zero, suc, ◌+◌, ◌*◌, ◌%◌, Option, none, some, List, [], ◌∷◌, ◌++◌, length, ltb, if◌then◌else◌,
}
use tp.Text.{Text}
use tp.Util.Hex.{bin2hex}
use tp.Util.Md5.{
  u32, complement, left_rotate, to_bytes, to_int32, Registers, initial_registers, new_length,
  padded_message,
}

-- The tables k and r, row by row.
abbrev table : List (ℕ × ℕ)
table =
    (0xd76aa478, 7)
    ∷ (0xe8c7b756, 12)
    ∷ (0x242070db, 17)
    ∷ (0xc1bdceee, 22)
    ∷ (0xf57c0faf, 7)
    ∷ (0x4787c62a, 12)
    ∷ (0xa8304613, 17)
    ∷ (0xfd469501, 22)
    ∷ (0x698098d8, 7)
    ∷ (0x8b44f7af, 12)
    ∷ (0xffff5bb1, 17)
    ∷ (0x895cd7be, 22)
    ∷ (0x6b901122, 7)
    ∷ (0xfd987193, 12)
    ∷ (0xa679438e, 17)
    ∷ (0x49b40821, 22)
    ∷ (0xf61e2562, 5)
    ∷ (0xc040b340, 9)
    ∷ (0x265e5a51, 14)
    ∷ (0xe9b6c7aa, 20)
    ∷ (0xd62f105d, 5)
    ∷ (0x02441453, 9)
    ∷ (0xd8a1e681, 14)
    ∷ (0xe7d3fbc8, 20)
    ∷ (0x21e1cde6, 5)
    ∷ (0xc33707d6, 9)
    ∷ (0xf4d50d87, 14)
    ∷ (0x455a14ed, 20)
    ∷ (0xa9e3e905, 5)
    ∷ (0xfcefa3f8, 9)
    ∷ (0x676f02d9, 14)
    ∷ (0x8d2a4c8a, 20)
    ∷ (0xfffa3942, 4)
    ∷ (0x8771f681, 11)
    ∷ (0x6d9d6122, 16)
    ∷ (0xfde5380c, 23)
    ∷ (0xa4beea44, 4)
    ∷ (0x4bdecfa9, 11)
    ∷ (0xf6bb4b60, 16)
    ∷ (0xbebfbc70, 23)
    ∷ (0x289b7ec6, 4)
    ∷ (0xeaa127fa, 11)
    ∷ (0xd4ef3085, 16)
    ∷ (0x04881d05, 23)
    ∷ (0xd9d4d039, 4)
    ∷ (0xe6db99e5, 11)
    ∷ (0x1fa27cf8, 16)
    ∷ (0xc4ac5665, 23)
    ∷ (0xf4292244, 6)
    ∷ (0x432aff97, 10)
    ∷ (0xab9423a7, 15)
    ∷ (0xfc93a039, 21)
    ∷ (0x655b59c3, 6)
    ∷ (0x8f0ccc92, 10)
    ∷ (0xffeff47d, 15)
    ∷ (0x85845dd1, 21)
    ∷ (0x6fa87e4f, 6)
    ∷ (0xfe2ce6e0, 10)
    ∷ (0xa3014314, 15)
    ∷ (0x4e0811a1, 21)
    ∷ (0xf7537e82, 6)
    ∷ (0xbd3af235, 10)
    ∷ (0x2ad7d2bb, 15)
    ∷ (0xeb86d391, 21)
    ∷ []

-- `w[g]`
abbrev word_at : List ℕ → ℕ → ℕ
word_at [] g = 0
word_at (w ∷ ws) zero = w
word_at (w ∷ ws) (suc g) = word_at ws g

-- f and g of the round i.
unfoldable pub mix : ℕ → Registers → ℕ × ℕ
mix i r =
    if ltb i 16
    then (bit_or (bit_and r.b r.c) (bit_and (complement r.b) r.d), i)
    else (if ltb i 32
        then (bit_or (bit_and r.d r.b) (bit_and (complement r.d) r.c), (5 * i + 1) % 16)
        else (if ltb i 48
            then (bit_xor (bit_xor r.b r.c) r.d, (3 * i + 5) % 16)
            else (bit_xor r.c (bit_or r.b (complement r.d)), (7 * i) % 16)))

unfoldable pub round : ℕ → ℕ → ℕ → List ℕ → Registers → Registers
round i k shift w r =
    let (f, g) = mix i r in
    record {
      a = r.d;
      b = u32 (r.b + left_rotate (u32 (r.a + f + k + word_at w g)) shift);
      c = r.b;
      d = r.c;
    }

-- The main loop, from the round i on.
unfoldable pub rounds : List (ℕ × ℕ) → ℕ → List ℕ → Registers → Registers
rounds [] i w r = r
rounds ((k, shift) ∷ rows) i w r = rounds rows (i + 1) w (round i k shift w r)

-- The words of the message, from where it stands on.
unfoldable pub read_words : ℕ → Text → Option (List ℕ × Text)
read_words zero msg = some ([], msg)
read_words (suc n) (a ∷ b ∷ c ∷ d ∷ msg) = elim (read_words n msg) [
  | none ↦ none
  | some (w, rest) ↦ some (to_int32 a b c d ∷ w, rest)
]
read_words (suc n) msg = none

unfoldable pub add_chunk : List ℕ → Registers → Registers
add_chunk w h =
    let r = rounds table 0 w h in
    record { a = u32 (h.a + r.a); b = u32 (h.b + r.b); c = u32 (h.c + r.c); d = u32 (h.d + r.d) }

-- The loop over the chunks, with what is left of the message. The first argument bounds its rounds.
unfoldable pub process_chunks : ℕ → ℕ → ℕ → Text → Registers → Option Registers
process_chunks zero offset new_len msg h = none
process_chunks (suc fuel) offset new_len msg h =
    if ltb offset new_len
    then elim (read_words 16 msg) [
      | none ↦ none
      | some (w, rest) ↦ process_chunks fuel (offset + 64) new_len rest (add_chunk w h)
    ]
    else some h

abbrev pub digest : Registers → Text
digest h = to_bytes h.a ++ to_bytes h.b ++ to_bytes h.c ++ to_bytes h.d

unfoldable pub md5 : Text → Option Text
md5 initial_msg =
    let new_len = new_length (length initial_msg) in
    elim (process_chunks (suc new_len) 0 new_len (padded_message initial_msg) initial_registers) [
      | none ↦ none
      | some h ↦ some (digest h)
    ]

unfoldable pub md5_str : Text → Option Text
md5_str msg = elim (md5 msg) [ none ↦ none | some output ↦ some (bin2hex output) ]
