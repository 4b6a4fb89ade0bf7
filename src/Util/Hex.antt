-- ===== src/Util/Hex.antt =====
-- server/src/util/bin2hex.cc: bytes as hexadecimal text, and back.
use tp.Common.{
  ℕ, ◌+◌, ◌-◌, ◌*◌, ◌/◌, ◌%◌, ◌<◌, ◌≡◌, refl, ap, ◌&&◌, [], ◌∷◌, length, All, leb, ltb, ◌==◌,
  if◌then◌else◌, arith,
}
use tp.Text.{Text}

-- The digit that a stream in `hex` mode writes.
abbrev hex_digit : ℕ → ℕ
hex_digit n = if ltb n 10 then b'0' + n else b'a' + (n - 10)

-- `setw(2)` and `setfill('0')`: two digits for each byte.
unfoldable pub bin2hex : Text → Text
bin2hex [] = []
bin2hex (b ∷ bin) = hex_digit (b / 16) ∷ hex_digit (b % 16) ∷ bin2hex bin

-- The cases of the switch; 0 for what is not a digit.
unfoldable pub get_bin_val : ℕ → ℕ
get_bin_val c =
    if leb b'0' c && leb c b'9'
    then c - b'0'
    else (if leb b'a' c && leb c b'f'
        then c - b'a' + 10
        else (if leb b'A' c && leb c b'F' then c - b'A' + 10 else 0))

-- The loop, on a text of even length.
unfoldable pub read_pairs : Text → Text
unfolding get_bin_val
read_pairs [] = []
read_pairs (h ∷ []) = []
read_pairs (h ∷ l ∷ hex) = (get_bin_val h * 16 + get_bin_val l) % 256 ∷ read_pairs hex

unfoldable pub hex2bin : Text → Text
unfolding read_pairs
hex2bin hex = if length hex % 2 == 0 then read_pairs hex else []

get_bin_val-hex_digit : (n : ℕ) → n < 16 → get_bin_val (hex_digit n) ≡ n
unfolding get_bin_val
get_bin_val-hex_digit n h = ground arith

pub length-bin2hex : (bin : Text) → length (bin2hex bin) ≡ 2 * length bin
unfolding bin2hex
length-bin2hex [] = refl
length-bin2hex (b ∷ bin) = ground (arith, length-bin2hex bin)

byte : (b : ℕ) → b < 256 → (b / 16 * 16 + b % 16) % 256 ≡ b
byte b h = omega arith

read_pairs-bin2hex : (bin : Text) → All (λ b. b < 256) bin → read_pairs (bin2hex bin) ≡ bin
unfolding read_pairs bin2hex
read_pairs-bin2hex [] h = refl
read_pairs-bin2hex (b ∷ bin) h =
    rw
      (
        get_bin_val-hex_digit (b / 16) (omega arith),
        get_bin_val-hex_digit (b % 16) (omega arith),
        read_pairs-bin2hex bin h.1,
      )
      (ap (λ (c : ℕ). c ∷ bin) (byte b h.0))

-- Bytes that are written as hexadecimal text are read back.
pub hex2bin-bin2hex : (bin : Text) → All (λ b. b < 256) bin → hex2bin (bin2hex bin) ≡ bin
unfolding hex2bin
hex2bin-bin2hex bin h =
    let even : (2 * length bin) % 2 ≡ 0 = omega arith in
    rw (length-bin2hex bin, even) (read_pairs-bin2hex bin h)
