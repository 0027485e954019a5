-- ===== src/Crypto/Base64.antt =====
-- The base64 encodings of crypto/crypto.cpp over OpenSSL's `EVP_EncodeBlock` and
-- `EVP_DecodeBlock`, which are parameters; `none` is a negative result of theirs.
use vacps.Prelude.{
  ℕ, zero, suc, ◌+◌, ◌-◌, ◌*◌, ◌/◌, ◌%◌, [], ◌∷◌, ◌++◌, map, Bool, true, false, not, ◌&&◌, ◌||◌,
  Option, none, some, ltb, leb, ◌==◌, if◌then◌else◌, length, take, get_elem?,
}
use vacps.Process.State.{Bytes}
use vacps.Process.Budget.{u64_mod}

pub data Decoded : Type 0 where
  decoded : Bytes → Decoded
  invalid_base64_character invalid_base64url_character decode_block_failed length_overflow : Decoded

abbrev pub is_space : ℕ → Bool
is_space c = c == b' ' || (c == 10 || (c == 13 || c == 9))

-- A letter of the standard alphabet.
abbrev pub is_letter : ℕ → Bool
is_letter c =
    (leb b'A' c && leb c b'Z')
    || ((leb b'a' c && leb c b'z') || ((leb b'0' c && leb c b'9') || (c == b'+' || c == b'/')))

abbrev pub is_base64_char : ℕ → Bool
is_base64_char c = is_letter c || c == b'='

unfoldable pub all_chars : (ℕ → Bool) → Bytes → Bool
all_chars test [] = true
all_chars test (c ∷ cs) = test c && all_chars test cs

unfoldable pub strip_space : Bytes → Bytes
strip_space [] = []
strip_space (c ∷ cs) = let rest = strip_space cs in if is_space c then rest else c ∷ rest

-- At most three rounds bring a length to a multiple of four.
unfoldable pub pad_loop : ℕ → Bytes → Bytes
pad_loop zero s = s
pad_loop (suc n) s = let more = pad_loop n (s ++ b'=' ∷ []) in if length s % 4 == 0 then s else more

-- Whether the character so many places before the end is `=`.
abbrev pub ends_at : ℕ → Bytes → Bool
ends_at k s = elim (get_elem? s (length s - k)) [ none ↦ false | some c ↦ c == b'=' ]

unfoldable pub count_pad : Bytes → ℕ
count_pad s = if ends_at 1 s then if leb 2 (length s) && ends_at 2 s then 2 else 1 else 0

unfoldable pub zeros : ℕ → Bytes
zeros zero = []
zeros (suc n) = 0 ∷ zeros n

-- The decoded bytes `out` of `capacity`, of which `n` were written, cut by the padding; the
-- subtraction wraps.
unfoldable pub trim_padding : ℕ → ℕ → Bytes → Decoded
trim_padding capacity pad out =
    let real = (length out + u64_mod - pad) % u64_mod in
    if ltb capacity real
    then length_overflow
    else decoded (take real (out ++ zeros (capacity - length out)))

-- `c == '+'` and `'/'` as base64url has them, and back.
abbrev pub to_url : ℕ → ℕ
to_url c = if c == b'+' then b'-' else if c == b'/' then b'_' else c

abbrev pub from_url : ℕ → ℕ
from_url c = if c == b'-' then b'+' else if c == b'_' then b'/' else c

abbrev pub put_back : ℕ → Bytes → Bytes
put_back c [] = if c == b'=' then [] else c ∷ []
put_back c (d ∷ ds) = c ∷ d ∷ ds

-- The loop `while (!s.empty() && s.back() == '=') s.pop_back()`.
unfoldable pub strip_pad : Bytes → Bytes
strip_pad [] = []
strip_pad (c ∷ cs) = put_back c (strip_pad cs)

abbrev pub or_empty : Option Bytes → Bytes
or_empty none = []
or_empty (some s) = s

module _ (encode_block : Bytes → Option Bytes) (decode_block : Bytes → Option Bytes) where
  unfoldable pub base64_encode : Bytes → Bytes
  base64_encode s = if length s == 0 then [] else or_empty (encode_block s)

  abbrev pub decode_padded : Bytes → Option Bytes → Decoded
  decode_padded padded none = decode_block_failed
  decode_padded padded (some out) = trim_padding (3 * (length padded / 4)) (count_pad padded) out

  -- Behind the stripping of white space.
  unfoldable pub decode_cleaned : Bytes → Decoded
  decode_cleaned cleaned =
      let padded = pad_loop 3 cleaned in
      if length cleaned == 0
      then decoded []
      else if not (all_chars is_base64_char padded)
      then invalid_base64_character
      else decode_padded padded (decode_block padded)

  unfoldable pub base64_decode : Bytes → Decoded
  base64_decode s = decode_cleaned (strip_space s)

  unfoldable pub base64url_encode : Bytes → Bytes
  base64url_encode s = strip_pad (map to_url (base64_encode s))

  unfoldable pub base64url_decode : Bytes → Decoded
  base64url_decode s =
      let standard = map from_url (strip_space s) in
      if not (all_chars is_base64_char standard)
      then invalid_base64url_character
      else base64_decode standard
