-- ===== src/Crypto/Examples.antt =====
-- Tests of the model of the encodings, and the theorems at concrete inputs.
use vacps.Prelude.{◌≡◌, refl, arith, [], ◌∷◌, map, none, Every, none_left, also}
use vacps.Process.State.{Bytes}
use vacps.Crypto.Hex.{
  bytes, length_must_be_even, invalid_hex_character, to_hex, from_hex, from_pairs,
}
use vacps.Crypto.HexLaws.{IsByte, lower_hex, from_hex-to_hex, to_hex-from_hex}
use vacps.Crypto.Base64.{
  decoded, invalid_base64_character, invalid_base64url_character, decode_block_failed, all_chars,
  strip_space, pad_loop, count_pad, zeros, trim_padding, strip_pad, base64_encode, decode_cleaned,
  base64_decode, base64url_encode, base64url_decode,
}
use vacps.Crypto.Base64Laws.{padding}
use vacps.Crypto.Blocks.{letters_of, encode_block, blocks_of, decode_block, blocks-IsOpenssl}
use vacps.Crypto.RoundTrip.{base64url_decode-base64url_encode}

abbrev three_bytes : Bytes
three_bytes = 255 ∷ 0 ∷ 171 ∷ []

abbrev two_bytes : Bytes
two_bytes = 255 ∷ 239 ∷ []

three_bytes-Every : Every IsByte three_bytes
three_bytes-Every = also (omega arith) (also (omega arith) (also (omega arith) none_left))

two_bytes-Every : Every IsByte two_bytes
two_bytes-Every = also (omega arith) (also (omega arith) none_left)

hex_text : to_hex three_bytes ≡ b'f' ∷ b'f' ∷ b'0' ∷ b'0' ∷ b'a' ∷ b'b' ∷ []
unfolding to_hex
hex_text = refl

odd_text : from_hex (b'a' ∷ []) ≡ length_must_be_even
unfolding from_hex from_pairs
odd_text = refl

no_hex_text : from_hex (b'a' ∷ b'g' ∷ []) ≡ invalid_hex_character
unfolding from_hex from_pairs
no_hex_text = refl

upper_text : from_hex (b'F' ∷ b'f' ∷ []) ≡ bytes (255 ∷ [])
unfolding from_hex from_pairs
upper_text = refl

standard_text : base64_encode encode_block decode_block two_bytes ≡ b'/' ∷ b'+' ∷ b'8' ∷ b'=' ∷ []
unfolding base64_encode encode_block letters_of padding
standard_text = refl

url_text : base64url_encode encode_block decode_block two_bytes ≡ b'_' ∷ b'-' ∷ b'8' ∷ []
unfolding base64url_encode base64_encode encode_block letters_of padding strip_pad
url_text = refl

-- White space is skipped and missing padding is added.
spaced_text :
    base64_decode encode_block decode_block (b'/' ∷ b' ' ∷ b'+' ∷ 10 ∷ b'8' ∷ [])
    ≡ decoded two_bytes
unfolding base64_decode decode_cleaned decode_block blocks_of strip_space pad_loop all_chars
    trim_padding count_pad zeros
spaced_text = refl

bad_text : base64_decode encode_block decode_block (b'*' ∷ []) ≡ invalid_base64_character
unfolding base64_decode decode_cleaned decode_block blocks_of strip_space pad_loop all_chars
bad_text = refl

bad_url_text : base64url_decode encode_block decode_block (b'*' ∷ []) ≡ invalid_base64url_character
unfolding base64url_decode strip_space all_chars base64_decode decode_cleaned
bad_url_text = refl

refused_text : base64_decode (λ s. none) (λ s. none) (b'A' ∷ []) ≡ decode_block_failed
unfolding base64_decode decode_cleaned strip_space pad_loop all_chars
refused_text = refl

from_hex-to_hex_example : from_hex (to_hex three_bytes) ≡ bytes three_bytes
from_hex-to_hex_example = from_hex-to_hex three_bytes three_bytes-Every

to_hex-from_hex_example : to_hex (255 ∷ []) ≡ map lower_hex (b'F' ∷ b'f' ∷ [])
to_hex-from_hex_example = to_hex-from_hex (b'F' ∷ b'f' ∷ []) (255 ∷ []) upper_text

base64url_decode-base64url_encode_example :
    base64url_decode encode_block decode_block
      (base64url_encode encode_block decode_block two_bytes)
    ≡ decoded two_bytes
base64url_decode-base64url_encode_example =
    base64url_decode-base64url_encode encode_block decode_block 64 (blocks-IsOpenssl 64) two_bytes
      (omega arith) (omega arith) two_bytes-Every
