-- ===== src/Util/Md5/Digest.antt =====
-- The digest of every message exists, and has 16 bytes.
use tp.Common.{
  ℕ, zero, suc, ◌+◌, ◌-◌, ◌*◌, ◌/◌, ◌%◌, ◌^◌, ◌<◌, ◌≤◌, ◌≡◌, refl, ◌∙◌, Option, none, some, List,
  [], ◌∷◌, ◌++◌, length, length-append, All, All-append, arith,
}
use tp.Text.{Text}
use tp.Util.Hex.{bin2hex, length-bin2hex}
use tp.Util.Md5.{
  u32, to_bytes, zeros, padded_length, new_length, padded_message, Registers, initial_registers,
}
use tp.Util.Md5.Rounds.{read_words, add_chunk, process_chunks, digest, md5, md5_str}

-- The padding ends at the first length that is 56 modulo 64.
padded_length_lem :
    (fuel n : ℕ) → (120 - n % 64) % 64 ≤ fuel → padded_length fuel n ≡ n + (120 - n % 64) % 64
unfolding padded_length
padded_length_lem zero n h = omega arith
padded_length_lem (suc fuel) n h = ground (arith, padded_length_lem fuel (n + 1))

length-zeros : (n : ℕ) → length (zeros n) ≡ n
length-zeros zero = refl
length-zeros (suc n) = omega (arith, length-zeros n)

-- The buffer has 8 bytes behind the padding.
length-padded_message : (msg : Text) → length (padded_message msg) ≡ new_length (length msg) + 8
unfolding padded_message to_bytes
length-padded_message msg =
    let n = length msg in
    let k = new_length n - (n + 1) in
    let size = to_bytes (u32 (n * 8)) ++ to_bytes (u32 (n / 2 ^ 29)) in
    length-append msg (0x80 ∷ (zeros k ++ size))
    ∙ omega (
      arith,
      length-append (zeros k) size,
      length-zeros k,
      padded_length_lem 64 (n + 1) (omega arith),
    )

-- The message is padded to whole chunks of 64 bytes, with at least 9 bytes and at most 72.
pub padded_message_chunks :
    (msg : Text)
    → (length (padded_message msg) % 64 ≡ 0)
      × (length msg + 9 ≤ length (padded_message msg))
      × (length (padded_message msg) ≤ length msg + 72)
padded_message_chunks msg =
    let pad = padded_length_lem 64 (length msg + 1) (omega arith) in
    (
      omega (arith, pad, length-padded_message msg),
      omega (arith, pad, length-padded_message msg),
      omega (arith, pad, length-padded_message msg),
    )

abbrev ReadsWords : ℕ → ℕ → Option (List ℕ × Text) → Type 0
ReadsWords n left none = ⊥
ReadsWords n left (some (w, rest)) = (length w ≡ n) × (length rest ≡ left)

read_words-ReadsWords :
    (n left : ℕ) (msg : Text) → length msg ≡ 4 * n + left → ReadsWords n left (read_words n msg)
unfolding read_words
read_words-ReadsWords zero left msg h = (refl, omega arith)
read_words-ReadsWords (suc n) left (a ∷ b ∷ c ∷ d ∷ msg) h =
    go (read_words n msg) (read_words-ReadsWords n left msg (omega arith))
  where
    go :
        (o : Option (List ℕ × Text))
        → ReadsWords n left o
        → ReadsWords (suc n) left (elim o [
          | none ↦ none
          | some (w, rest) ↦ some (tp.Util.Md5.to_int32 a b c d ∷ w, rest)
        ])
    go none r = r
    go (some (w, rest)) (e, l) = (omega arith, l)
read_words-ReadsWords (suc n) left (a ∷ b ∷ c ∷ []) h = absurd (omega arith)
read_words-ReadsWords (suc n) left (a ∷ b ∷ []) h = absurd (omega arith)
read_words-ReadsWords (suc n) left (a ∷ []) h = absurd (omega arith)
read_words-ReadsWords (suc n) left [] h = absurd (omega arith)

-- Whole chunks are read to the end, in as many rounds.
process_chunks_lem :
    (m fuel offset new_len : ℕ) (msg : Text) (h : Registers)
    → offset + m * 64 ≡ new_len + 8
    → length msg ≡ m * 64
    → m < fuel
    → (h' : Registers) × (process_chunks fuel offset new_len msg h ≡ some h')
unfolding process_chunks
process_chunks_lem m zero offset new_len msg h e l lt = absurd (omega arith)
process_chunks_lem zero (suc fuel) offset new_len msg h e l lt = (h, ground arith)
process_chunks_lem (suc m) (suc fuel) offset new_len msg h e l lt =
    let (h', done) =
      go (read_words 16 msg) (read_words-ReadsWords 16 (m * 64) msg (omega arith)) (λ w rest left.
        process_chunks_lem m fuel (offset + 64) new_len rest (add_chunk w h) (omega arith) left
          (omega arith)) in
    (h', ground (arith, done))
  where
    go :
        (o : Option (List ℕ × Text))
        → ReadsWords 16 (m * 64) o
        → ((w : List ℕ) (rest : Text)
            → length rest ≡ m * 64
            → (h' : Registers) × (process_chunks fuel (offset + 64) new_len rest (add_chunk w h)
                ≡ some h'))
        → (h' : Registers) × (elim o [
          | none ↦ none
          | some (w, rest) ↦ process_chunks fuel (offset + 64) new_len rest (add_chunk w h)
        ]
            ≡ some h')
    go none r next = absurd r
    go (some (w, rest)) (_, left) next = next w rest left

pub chunks_processed :
    (msg : Text)
    → (h : Registers) × (process_chunks
          (suc (new_length (length msg)))
          0
          (new_length (length msg))
          (padded_message msg)
          initial_registers
        ≡ some h)
chunks_processed msg =
    let n = length msg in
    let pad = padded_length_lem 64 (n + 1) (omega arith) in
    process_chunks_lem ((new_length n + 8) / 64) (suc (new_length n)) 0 (new_length n)
      (padded_message msg) initial_registers (omega (arith, pad))
      (omega (arith, pad, length-padded_message msg)) (omega (arith, pad))

word_bytes : (n : ℕ) → All (λ b. b < 256) (to_bytes n)
unfolding to_bytes
word_bytes n = (omega arith, (omega arith, (omega arith, (omega arith, tt))))

-- Every message has a digest, of 16 bytes: no byte past the padded message is read, and the loops
-- end.
pub md5_returns :
    (msg : Text)
    → (output : Text) × (md5 msg ≡ some output) × (length output ≡ 16) × All (λ b. b < 256) output
unfolding md5 to_bytes
md5_returns msg =
    let (h, done) = chunks_processed msg in
    (
      digest h,
      rw (done, md5),
      refl,
      All-append (λ b. b < 256) (to_bytes h.a) (to_bytes h.b ++ to_bytes h.c ++ to_bytes h.d)
          (word_bytes h.a)
          (All-append (λ b. b < 256) (to_bytes h.b) (to_bytes h.c ++ to_bytes h.d) (word_bytes h.b)
            (All-append (λ b. b < 256) (to_bytes h.c) (to_bytes h.d) (word_bytes h.c)
              (word_bytes h.d))),
    )

-- The text of a digest has 32 characters.
pub md5_str_returns : (msg : Text) → (text : Text) × (md5_str msg ≡ some text) × (length text ≡ 32)
unfolding md5_str
md5_str_returns msg =
    let (output, done, size, _) = md5_returns msg in
    (bin2hex output, rw (done, md5_str), omega (arith, length-bin2hex output, size))
