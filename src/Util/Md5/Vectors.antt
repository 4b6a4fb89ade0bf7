-- ===== src/Util/Md5/Vectors.antt =====
-- Digests from the test suite of RFC 1321.
use tp.Common.{◌≡◌, refl, some}
use tp.Text.{codes}
use tp.Util.Hex.{bin2hex}
use tp.Util.Md5.{to_bytes, to_int32, padded_length, padded_message}
use tp.Util.Md5.Rounds.{mix, round, rounds, read_words, add_chunk, process_chunks, md5, md5_str}

empty_digest : md5_str (codes "") ≡ some (codes "d41d8cd98f00b204e9800998ecf8427e")
unfolding md5_str md5 process_chunks add_chunk read_words rounds round mix padded_message
    padded_length to_bytes to_int32 bin2hex
empty_digest = refl

abc_digest : md5_str (codes "abc") ≡ some (codes "900150983cd24fb0d6963f7d28e17f72")
unfolding md5_str md5 process_chunks add_chunk read_words rounds round mix padded_message
    padded_length to_bytes to_int32 bin2hex
abc_digest = refl
