-- ===== src/Crypto/RoundTrip.antt =====
-- The round trip of base64url over OpenSSL's block functions.
use vacps.Prelude.{
  ℕ, ◌+◌, ◌*◌, ◌/◌, ◌≤◌, ◌<◌, ◌≡◌, refl, sym, ap, ◌∙◌, arith, [], ◌∷◌, ◌++◌, append-nil, map, true,
  Option, ◌==◌, if◌then◌else◌, if_false, length, length-append, Every,
}
use vacps.Process.State.{Bytes}
use vacps.Process.Budget.{u64_mod}
use vacps.Crypto.HexLaws.{IsByte}
use vacps.Crypto.Base64.{
  Decoded, decoded, is_base64_char, all_chars, strip_space, pad_loop, to_url, from_url, strip_pad,
  or_empty, base64_encode, decode_cleaned, base64_decode, base64url_encode, base64url_decode,
}
use vacps.Crypto.Base64Laws.{
  padding, missing, IsOpenssl, AllLetters, map-padding, strip_pad-url, strip_space-url,
  strip_space-letters, from_url-to_url, all_chars-padding, pad_loop-padding, count_pad-padding,
  trim_padding-zeros, length-padding,
}

-- The lengths of an encoded text.
blocks :
    (n l m : ℕ)
    → 0 < n
    → m ≡ missing n
    → l + m ≡ 4 * ((n + 2) / 3)
    → (m ≤ 2) × ((0 < l) × (3 * ((l + m) / 4) ≡ n + m))
blocks n l m p e h = (omega arith, (omega arith, omega arith))

module _ (encode_block : Bytes → Option Bytes) (decode_block : Bytes → Option Bytes) (limit : ℕ)
    (o : IsOpenssl encode_block decode_block limit) where
  encoded :
      (s : Bytes)
      → 0 < length s
      → length s ≤ limit
      → base64url_encode encode_block decode_block s ≡ map to_url (o.letters s)
  unfolding base64url_encode base64_encode
  encoded s p h =
      let m = missing (length s) in
      let standard : (if length s == 0 then [] else or_empty (encode_block s))
          ≡ o.letters s ++ padding m =
        if_false (λ (t : Bytes). t ≡ o.letters s ++ padding m) (length s == 0) _ _ (ground arith)
          (ap or_empty (o.encodes s h)) in
      ap (λ (t : Bytes). strip_pad (map to_url t)) standard
      ∙ (ap strip_pad (map-padding (o.letters s) m)
          ∙ strip_pad-url (o.letters s) m (o.are_letters s))

  cleaned :
      (s : Bytes)
      → 0 < length s
      → length s ≤ limit
      → length s + 2 < u64_mod
      → Every IsByte s
      → decode_cleaned encode_block decode_block (o.letters s) ≡ decoded s
  unfolding decode_cleaned
  cleaned s p h f b =
      let l = o.letters s in
      let m = missing (length s) in
      let a = o.are_letters s in
      let (small, (some_l, size)) = blocks (length s) (length l) m p refl (o.counted s) in
      let padded : pad_loop 3 l ≡ l ++ padding m =
        pad_loop-padding m 3 l ((length s + 2) / 3) (omega arith) (omega arith) (o.counted s) in
      let total : length (l ++ padding m) ≡ length l + m =
        length-append l (padding m) ∙ ap (λ (n : ℕ). length l + n) (length-padding m) in
      if_false (λ (r : Decoded). r ≡ decoded s) (length l == 0) _ _ (ground arith)
        (rw
          (
            padded,
            all_chars-padding l m a,
            o.decodes s h b,
            total,
            size,
            count_pad-padding l m ((length s + 2) / 3) a small some_l (o.counted s),
          )
          (trim_padding-zeros s m (omega arith)))

  decodes :
      (l : Bytes)
      → AllLetters l
      → base64url_decode encode_block decode_block (map to_url l)
        ≡ decode_cleaned encode_block decode_block l
  unfolding base64url_decode base64_decode
  decodes l a =
      let standard : map from_url (strip_space (map to_url l)) ≡ l =
        ap (map from_url) (strip_space-url l a) ∙ from_url-to_url l a in
      let legal : all_chars is_base64_char l ≡ true =
        ap (all_chars is_base64_char) (sym (append-nil l))
        ∙ (unfold padding in all_chars-padding l 0 a) in
      rw (standard, legal, strip_space-letters l a) refl

  decoded_back :
      (s : Bytes)
      → 0 < length s
      → length s ≤ limit
      → length s + 2 < u64_mod
      → Every IsByte s
      → base64url_decode encode_block decode_block (base64url_encode encode_block decode_block s)
        ≡ decoded s
  decoded_back s p h f b =
      ap (base64url_decode encode_block decode_block) (encoded s p h)
      ∙ (decodes (o.letters s) (o.are_letters s) ∙ cleaned s p h f b)

  -- Where OpenSSL's block functions do what they document up to a size, bytes up to this size are
  -- decoded from their base64url text.
  pub base64url_decode-base64url_encode :
      (s : Bytes)
      → length s ≤ limit
      → length s + 2 < u64_mod
      → Every IsByte s
      → base64url_decode encode_block decode_block (base64url_encode encode_block decode_block s)
        ≡ decoded s
  base64url_decode-base64url_encode [] h f b =
      unfold base64url_decode base64url_encode base64_encode base64_decode decode_cleaned
        strip_space strip_pad all_chars in
      refl
  base64url_decode-base64url_encode (c ∷ s) h f b = decoded_back (c ∷ s) (omega arith) h f b
