-- ===== src/Crypto/Blocks.antt =====
-- Block functions that do what OpenSSL documents, by RFC 4648: an instance of the parameters.
use vacps.Prelude.{
  ℕ, suc, ◌+◌, ◌-◌, ◌*◌, ◌/◌, ◌%◌, ◌<◌, ◌≡◌, refl, ap, arith, [], ◌∷◌, ◌++◌, Bool, true, ◌&&◌,
  Option, some, ltb, ◌==◌, ==_iff, if◌then◌else◌, length, Every, also,
}
use vacps.Process.State.{Bytes}
use vacps.Crypto.HexLaws.{IsByte, all_below_lem}
use vacps.Crypto.Base64.{is_letter, all_chars, zeros}
use vacps.Crypto.Base64Laws.{padding, missing, IsOpenssl}

abbrev letter : ℕ → ℕ
letter n =
    if ltb n 26
    then n + b'A'
    else if ltb n 52
    then n - 26 + b'a'
    else if ltb n 62
    then n - 52 + b'0'
    else if n == 62
    then b'+'
    else b'/'

abbrev index : ℕ → ℕ
index c =
    if c == b'='
    then 0
    else if c == b'+'
    then 62
    else if c == b'/'
    then 63
    else if ltb c b'A'
    then c - b'0' + 52
    else if ltb c b'a'
    then c - b'A'
    else c - b'a' + 26

is_good : ℕ → Bool
is_good n = is_letter (letter n) && index (letter n) == n

letter_good : (n : ℕ) → n < 64 → (is_letter (letter n) ≡ true) × (index (letter n) ≡ n)
unfolding is_good
letter_good n h =
    let k = all_below_lem 64 (λ m. is_good m) n refl h in
    both (is_letter (letter n)) (index (letter n)) k
  where
    both : (b : Bool) (m : ℕ) → (b && m == n) ≡ true → (b ≡ true) × (m ≡ n)
    both b m k = (ground arith, (==_iff m n).0 (ground arith))

-- Numbers of six bits out of bytes.
abbrev six₁ : ℕ → ℕ
six₁ a = a / 4 % 64

abbrev six₂ : ℕ → ℕ → ℕ
six₂ a b = (a % 4 * 16 + b / 16) % 64

abbrev six₃ : ℕ → ℕ → ℕ
six₃ b c = (b % 16 * 4 + c / 64) % 64

abbrev six₄ : ℕ → ℕ
six₄ c = c % 64

unfoldable pub letters_of : Bytes → Bytes
letters_of [] = []
letters_of (a ∷ []) = letter (six₁ a) ∷ letter (six₂ a 0) ∷ []
letters_of (a ∷ b ∷ []) = letter (six₁ a) ∷ letter (six₂ a b) ∷ letter (six₃ b 0) ∷ []
letters_of (a ∷ b ∷ c ∷ rest) =
    letter (six₁ a) ∷ letter (six₂ a b) ∷ letter (six₃ b c) ∷ letter (six₄ c) ∷ letters_of rest

unfoldable pub encode_block : Bytes → Option Bytes
encode_block s = some (letters_of s ++ padding (missing (length s)))

abbrev join_four : ℕ → ℕ → ℕ → ℕ → Bytes → Bytes
join_four w x y z rest = (w * 4 + x / 16) ∷ (x % 16 * 16 + y / 4) ∷ (y % 4 * 64 + z) ∷ rest

unfoldable pub blocks_of : Bytes → Bytes
blocks_of (w ∷ x ∷ y ∷ z ∷ rest) =
    join_four (index w) (index x) (index y) (index z) (blocks_of rest)
blocks_of _ = []

unfoldable pub decode_block : Bytes → Option Bytes
decode_block s = some (blocks_of s)

are_letters : (s : Bytes) → all_chars is_letter (letters_of s) ≡ true
unfolding all_chars letters_of
are_letters [] = refl
are_letters (a ∷ []) =
    rw ((letter_good (six₁ a) (omega arith)).0, (letter_good (six₂ a 0) (omega arith)).0) refl
are_letters (a ∷ b ∷ []) =
    rw
      (
        (letter_good (six₁ a) (omega arith)).0,
        (letter_good (six₂ a b) (omega arith)).0,
        (letter_good (six₃ b 0) (omega arith)).0,
      )
      refl
are_letters (a ∷ b ∷ c ∷ rest) =
    rw
      (
        (letter_good (six₁ a) (omega arith)).0,
        (letter_good (six₂ a b) (omega arith)).0,
        (letter_good (six₃ b c) (omega arith)).0,
        (letter_good (six₄ c) (omega arith)).0,
      )
      (are_letters rest)

counted : (s : Bytes) → length (letters_of s) + missing (length s) ≡ 4 * ((length s + 2) / 3)
unfolding letters_of
counted [] = refl
counted (a ∷ []) = refl
counted (a ∷ b ∷ []) = refl
counted (a ∷ b ∷ c ∷ rest) = omega (arith, counted rest)

missing_three : (n : ℕ) → missing (suc (suc (suc n))) ≡ missing n
missing_three n = omega arith

-- Three bytes out of the numbers of six bits.
bytes₃ :
    (a b c : ℕ)
    → a < 256
    → b < 256
    → c < 256
    → (rest : Bytes) → join_four (six₁ a) (six₂ a b) (six₃ b c) (six₄ c) rest ≡ a ∷ b ∷ c ∷ rest
bytes₃ a b c ha hb hc rest =
    let first : six₁ a * 4 + six₂ a b / 16 ≡ a = omega arith in
    let second : six₂ a b % 16 * 16 + six₃ b c / 4 ≡ b = omega arith in
    let third : six₃ b c % 4 * 64 + six₄ c ≡ c = omega arith in rw (first, second, third) refl

blocks-letters :
    (s : Bytes)
    → Every IsByte s
    → blocks_of (letters_of s ++ padding (missing (length s))) ≡ s ++ zeros (missing (length s))
unfolding blocks_of letters_of padding zeros
blocks-letters [] h = refl
blocks-letters (a ∷ []) (also ha h) =
    rw ((letter_good (six₁ a) (omega arith)).1, (letter_good (six₂ a 0) (omega arith)).1)
      (bytes₃ a 0 0 ha (omega arith) (omega arith) [])
blocks-letters (a ∷ b ∷ []) (also ha (also hb h)) =
    rw
      (
        (letter_good (six₁ a) (omega arith)).1,
        (letter_good (six₂ a b) (omega arith)).1,
        (letter_good (six₃ b 0) (omega arith)).1,
      )
      (bytes₃ a b 0 ha hb (omega arith) [])
blocks-letters (a ∷ b ∷ c ∷ rest) (also ha (also hb (also hc h))) =
    rw
      (
        missing_three (length rest),
        (letter_good (six₁ a) (omega arith)).1,
        (letter_good (six₂ a b) (omega arith)).1,
        (letter_good (six₃ b c) (omega arith)).1,
        (letter_good (six₄ c) (omega arith)).1,
        blocks-letters rest h,
      )
      (bytes₃ a b c ha hb hc _)

pub blocks-IsOpenssl : (limit : ℕ) → IsOpenssl encode_block decode_block limit
unfolding encode_block decode_block
blocks-IsOpenssl limit = record {
  letters = letters_of;
  encodes = λ s h. refl;
  are_letters = are_letters;
  counted = counted;
  decodes = λ s h b. ap some (blocks-letters s b);
}
