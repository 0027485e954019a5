-- ===== src/Crypto/Base64Laws.antt =====
-- Base64url text is decoded to the bytes that it encodes, given what OpenSSL documents.
use vacps.Prelude.{
  ℕ, zero, suc, ◌+◌, ◌-◌, ◌*◌, ◌/◌, ◌%◌, ◌≤◌, ◌<◌, ◌≡◌, refl, sym, ap, ◌∙◌, arith, [], ◌∷◌, ◌++◌,
  append-nil, append_assoc, map, Bool, true, false, not, ◌&&◌, ◌||◌, Option, none, some, leb, ltb,
  ◌==◌, if_true, if_false, length, length-append, take-append_le, take_all, get_elem?, Every,
  ==_iff,
}
use vacps.Process.State.{Bytes}
use vacps.Process.Budget.{u64_mod}
use vacps.Crypto.HexLaws.{IsByte, all_below_lem}
use vacps.Crypto.Base64.{
  Decoded, decoded, is_space, is_letter, is_base64_char, all_chars, strip_space, pad_loop, ends_at,
  count_pad, zeros, trim_padding, to_url, from_url, put_back, strip_pad,
}

unfoldable pub padding : ℕ → Bytes
padding zero = []
padding (suc n) = b'=' ∷ padding n

-- How many bytes are missing to a multiple of three.
abbrev pub missing : ℕ → ℕ
missing n = (3 - n % 3) % 3

-- What OpenSSL documents: up to a size, a non-empty block is encoded by letters and as many `=` as
-- bytes are missing to a multiple of three, four characters for three bytes, and decoding gives the
-- bytes and a zero for each `=`.
pub record IsOpenssl (encode_block : Bytes → Option Bytes) (decode_block : Bytes → Option Bytes)
    (limit : ℕ) : Type 0 where
  pub letters : Bytes → Bytes
  pub encodes :
      (s : Bytes)
      → length s ≤ limit
      → encode_block s ≡ some (letters s ++ padding (missing (length s)))
  pub are_letters : (s : Bytes) → all_chars is_letter (letters s) ≡ true
  pub counted : (s : Bytes) → length (letters s) + missing (length s) ≡ 4 * ((length s + 2) / 3)
  pub decodes :
      (s : Bytes)
      → length s ≤ limit
      → Every IsByte s
      → decode_block (letters s ++ padding (missing (length s)))
        ≡ some (s ++ zeros (missing (length s)))

-- A letter survives the way to base64url and back, and is neither white space nor padding.
pub record IsUrlLetter (c : ℕ) : Type 0 where
  pub back : from_url (to_url c) ≡ c
  pub no_pad : (to_url c == b'=') ≡ false
  pub no_space : is_space (to_url c) ≡ false

abbrev travels : ℕ → Bool
travels c =
    not (is_letter c)
    || (from_url (to_url c) == c && (not (to_url c == b'=') && not (is_space (to_url c))))

letter-IsUrlLetter : (c : ℕ) → is_letter c ≡ true → IsUrlLetter c
letter-IsUrlLetter c h =
    let k = all_below_lem 128 (λ x. travels x) c refl (ground arith) in
    let g =
      split (is_letter c) (from_url (to_url c) == c) (to_url c == b'=') (is_space (to_url c)) h k in
    record { back = (==_iff (from_url (to_url c)) c).0 g.0; no_pad = g.1.0; no_space = g.1.1 }
  where
    split :
        (l a b d : Bool)
        → l ≡ true
        → (not l || (a && (not b && not d))) ≡ true
        → (a ≡ true) × ((b ≡ false) × (d ≡ false))
    split l a b d h k = ground arith

plain : (c : ℕ) → is_letter c ≡ true → is_space c ≡ false
plain c h = ground arith

no_equals : (c : ℕ) → is_letter c ≡ true → (c == b'=') ≡ false
no_equals c h = ground arith

-- What holds of a text of letters.
abbrev pub AllLetters : Bytes → Type 0
AllLetters s = all_chars is_letter s ≡ true

first_letter : (c : ℕ) (cs : Bytes) → AllLetters (c ∷ cs) → is_letter c ≡ true
unfolding all_chars
first_letter c cs h = ground arith

other_letters : (c : ℕ) (cs : Bytes) → AllLetters (c ∷ cs) → AllLetters cs
unfolding all_chars
other_letters c cs h = ground arith

pub map-padding : (xs : Bytes) (m : ℕ) → map to_url (xs ++ padding m) ≡ map to_url xs ++ padding m
unfolding padding
map-padding [] zero = refl
map-padding [] (suc m) = ap (◌∷◌ b'=') (map-padding [] m)
map-padding (c ∷ xs) m = ap (◌∷◌ (to_url c)) (map-padding xs m)

strip_pad-padding : (m : ℕ) → strip_pad (padding m) ≡ []
unfolding strip_pad padding
strip_pad-padding zero = refl
strip_pad-padding (suc m) = ap (put_back b'=') (strip_pad-padding m)

pub strip_pad-url :
    (xs : Bytes) (m : ℕ) → AllLetters xs → strip_pad (map to_url xs ++ padding m) ≡ map to_url xs
unfolding strip_pad
strip_pad-url [] m h = strip_pad-padding m
strip_pad-url (c ∷ []) m h =
    ap (put_back (to_url c)) (strip_pad-padding m)
    ∙ if_false (λ (s : Bytes). s ≡ to_url c ∷ []) (to_url c == b'=') _ _
        ((letter-IsUrlLetter c (first_letter c [] h)).no_pad) refl
strip_pad-url (c ∷ d ∷ xs) m h =
    ap (put_back (to_url c)) (strip_pad-url (d ∷ xs) m (other_letters c (d ∷ xs) h))

pub strip_space-url : (xs : Bytes) → AllLetters xs → strip_space (map to_url xs) ≡ map to_url xs
unfolding strip_space
strip_space-url [] h = refl
strip_space-url (c ∷ xs) h =
    rw ((letter-IsUrlLetter c (first_letter c xs h)).no_space)
      (ap (◌∷◌ (to_url c)) (strip_space-url xs (other_letters c xs h)))

pub strip_space-letters : (xs : Bytes) → AllLetters xs → strip_space xs ≡ xs
unfolding strip_space
strip_space-letters [] h = refl
strip_space-letters (c ∷ xs) h =
    rw (plain c (first_letter c xs h)) (ap (◌∷◌ c) (strip_space-letters xs (other_letters c xs h)))

pub from_url-to_url : (xs : Bytes) → AllLetters xs → map from_url (map to_url xs) ≡ xs
from_url-to_url [] h = refl
from_url-to_url (c ∷ xs) h =
    rw ((letter-IsUrlLetter c (first_letter c xs h)).back)
      (ap (◌∷◌ c) (from_url-to_url xs (other_letters c xs h)))

pub all_chars-padding :
    (xs : Bytes) (m : ℕ) → AllLetters xs → all_chars is_base64_char (xs ++ padding m) ≡ true
unfolding all_chars padding
all_chars-padding [] zero h = refl
all_chars-padding [] (suc m) h = all_chars-padding [] m refl
all_chars-padding (c ∷ xs) m h =
    rw (first_letter c xs h) (all_chars-padding xs m (other_letters c xs h))

pub pad_loop-padding :
    (m n : ℕ) (s : Bytes) (k : ℕ)
    → m ≤ n
    → m ≤ 3
    → length s + m ≡ 4 * k
    → pad_loop n s ≡ s ++ padding m
unfolding pad_loop padding
pad_loop-padding zero zero s k l b e = sym (append-nil s)
pad_loop-padding zero (suc n) s k l b e =
    if_true (λ (t : Bytes). t ≡ s ++ []) (length s % 4 == 0) _ _ (ground arith) (sym (append-nil s))
pad_loop-padding (suc m) zero s k l b e = absurd (omega arith)
pad_loop-padding (suc m) (suc n) s k l b e =
    if_false (λ (t : Bytes). t ≡ s ++ b'=' ∷ padding m) (length s % 4 == 0) _ _ (ground arith)
      (pad_loop-padding m n (s ++ b'=' ∷ []) k (omega arith) (omega arith)
          (omega (arith, e, length-append s (b'=' ∷ [])))
        ∙ append_assoc s (b'=' ∷ []) (padding m))

-- Whether `=` stands at an index.
abbrev at_pad : ℕ → Bytes → Bool
at_pad i s = elim (get_elem? s i) [ none ↦ false | some c ↦ c == b'=' ]

at_pad-padding : (i m : ℕ) → at_pad i (padding m) ≡ ltb i m
unfolding padding
at_pad-padding i zero = ground arith
at_pad-padding zero (suc m) = ground arith
at_pad-padding (suc i) (suc m) = at_pad-padding i m ∙ ground arith

at_pad-letters :
    (xs : Bytes) (i m : ℕ)
    → AllLetters xs
    → at_pad i (xs ++ padding m) ≡ (leb (length xs) i && ltb i (length xs + m))
at_pad-letters [] i m h = at_pad-padding i m ∙ ground arith
at_pad-letters (c ∷ xs) zero m h = no_equals c (first_letter c xs h) ∙ ground arith
at_pad-letters (c ∷ xs) (suc i) m h = at_pad-letters xs i m (other_letters c xs h) ∙ ground arith

pub length-padding : (m : ℕ) → length (padding m) ≡ m
unfolding padding
length-padding zero = refl
length-padding (suc m) = omega (arith, length-padding m)

is_zero : (s : Bytes) → (length s == 0) ≡ true → s ≡ []
is_zero [] h = refl
is_zero (c ∷ s) h = absurd (ground arith)

ends_at-padding :
    (xs : Bytes) (k m : ℕ)
    → AllLetters xs
    → ends_at k (xs ++ padding m)
      ≡ (leb (length xs) (length xs + m - k) && ltb (length xs + m - k) (length xs + m))
ends_at-padding xs k m h =
    let total : length (xs ++ padding m) ≡ length xs + m =
      length-append xs (padding m) ∙ ap (λ (n : ℕ). length xs + n) (length-padding m) in
    ap (λ (n : ℕ). at_pad (n - k) (xs ++ padding m)) total ∙ at_pad-letters xs _ m h

-- A text of letters with its padding, of a length that four divides.
pub count_pad-padding :
    (xs : Bytes) (m k : ℕ)
    → AllLetters xs
    → m ≤ 2
    → 0 < length xs
    → length xs + m ≡ 4 * k
    → count_pad (xs ++ padding m) ≡ m
unfolding count_pad
count_pad-padding xs m k h b p e =
    let total : length (xs ++ padding m) ≡ length xs + m =
      length-append xs (padding m) ∙ ap (λ (n : ℕ). length xs + n) (length-padding m) in
    rw (ends_at-padding xs 1 m h, ends_at-padding xs 2 m h, total) (ground arith)

length-zeros : (m : ℕ) → length (zeros m) ≡ m
unfolding zeros
length-zeros zero = refl
length-zeros (suc m) = omega (arith, length-zeros m)

pub trim_padding-zeros :
    (s : Bytes) (m : ℕ)
    → length s + m < u64_mod
    → trim_padding (length s + m) m (s ++ zeros m) ≡ decoded s
unfolding trim_padding
trim_padding-zeros s m h =
    let total : length (s ++ zeros m) ≡ length s + m =
      length-append s (zeros m) ∙ ap (λ (n : ℕ). length s + n) (length-zeros m) in
    let real : (length s + m + u64_mod - m) % u64_mod ≡ length s = omega arith in
    rw (total, real)
      (if_false (λ (r : Decoded). r ≡ decoded s) (ltb (length s + m) (length s)) _ _ (ground arith)
        (ap decoded (
          take-append_le (length s) (s ++ zeros m) (zeros (length s + m - (length s + m)))
            (omega (arith, total))
          ∙ (take-append_le (length s) s (zeros m) (omega arith)
              ∙ take_all (length s) s (omega arith)))))
