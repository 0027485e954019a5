-- ===== src/Crypto/HexLaws.antt =====
-- Hexadecimal text and bytes are read and printed alike.
use vacps.Prelude.{
  ℕ, zero, suc, ◌+◌, ◌*◌, ◌/◌, ◌%◌, ◌<◌, ◌≡◌, inl, inr, refl, sym, ap, ◌∙◌, arith, [], ◌∷◌, map,
  Bool, true, false, not, ◌&&◌, Option, none, some, leb, ltb, ◌==◌, if◌then◌else◌, if_true,
  if_false, length, Every, also, Bool-cases, ==_iff,
}
use vacps.Process.State.{Bytes}
use vacps.Crypto.Hex.{
  HexResult, bytes, length_must_be_even, hex_digit, to_hex, nibble, join, from_pairs, checked,
  from_hex,
}

-- A test of all numbers below a bound.
abbrev pub all_below : ℕ → (ℕ → Bool) → Bool
all_below zero test = true
all_below (suc n) test = test n && all_below n test

pub all_below_lem :
    (n : ℕ) (test : ℕ → Bool) (k : ℕ) → all_below n test ≡ true → k < n → test k ≡ true
all_below_lem zero test k h l = absurd (omega arith)
all_below_lem (suc n) test k h l = elim (Bool-cases (k == n)) [
  | inl e ↦ let same : k ≡ n = (==_iff k n).0 e in rw same (ground arith)
  | inr e ↦ all_below_lem n test k (ground arith) (ground arith)
]

abbrev is_nibble : ℕ → Bool
is_nibble n = elim (nibble (hex_digit n)) [ none ↦ false | some m ↦ m == n ]

nibble-hex_digit : (n : ℕ) → n < 16 → nibble (hex_digit n) ≡ some n
nibble-hex_digit n h =
    let k = all_below_lem 16 (λ m. is_nibble m) n refl h in read (nibble (hex_digit n)) k
  where
    read : (o : Option ℕ) → elim o [ none ↦ false | some m ↦ m == n ] ≡ true → o ≡ some n
    read none e = absurd (cc)
    read (some m) e = ap some ((==_iff m n).0 e)

-- A byte.
abbrev pub IsByte : ℕ → Type 0
IsByte b = b < 256

from_pairs-to_hex : (bs : Bytes) → Every IsByte bs → from_pairs (to_hex bs) ≡ some bs
unfolding from_pairs to_hex
from_pairs-to_hex [] h = refl
from_pairs-to_hex (b ∷ bs) (also p h) =
    rw
      (
        nibble-hex_digit (b / 16) (omega arith),
        nibble-hex_digit (b % 16) (omega arith),
        from_pairs-to_hex bs h,
      )
      (ap (λ (c : ℕ). some (c ∷ bs)) (omega arith))

length-to_hex : (bs : Bytes) → length (to_hex bs) ≡ 2 * length bs
unfolding to_hex
length-to_hex [] = omega arith
length-to_hex (b ∷ bs) = omega (arith, length-to_hex bs)

-- Printing bytes as hexadecimal text and reading it gives the bytes back.
pub from_hex-to_hex : (bs : Bytes) → Every IsByte bs → from_hex (to_hex bs) ≡ bytes bs
unfolding from_hex
from_hex-to_hex bs h =
    if_false (λ (r : HexResult). r ≡ bytes bs) (not (length (to_hex bs) % 2 == 0)) _ _
      (let l = length-to_hex bs in ground arith) (ap checked (from_pairs-to_hex bs h))

abbrev pub lower_hex : ℕ → ℕ
lower_hex c = if leb b'A' c && leb c b'F' then c + 32 else c

abbrev prints : ℕ → Bool
prints c = elim (nibble c) [ none ↦ true | some n ↦ hex_digit n == lower_hex c && ltb n 16 ]

small_char : (c n : ℕ) → nibble c ≡ some n → c < 256
small_char c n h = ground arith

hex_digit-nibble : (c n : ℕ) → nibble c ≡ some n → (hex_digit n ≡ lower_hex c) × (n < 16)
hex_digit-nibble c n h =
    let k = all_below_lem 256 (λ m. prints m) c refl (small_char c n h) in read (nibble c) h k
  where
    read :
        (o : Option ℕ)
        → o ≡ some n
        → elim o [ none ↦ true | some m ↦ hex_digit m == lower_hex c && ltb m 16 ] ≡ true
        → (hex_digit n ≡ lower_hex c) × (n < 16)
    read none e k = absurd (cc)
    read (some m) e k =
        let same : m ≡ n = cc in
        rw⁻¹ same ((==_iff (hex_digit m) (lower_hex c)).0 (ground arith), ground arith)

-- What a joined pair consists of.
record Joined (x y : Option ℕ) (z : Option Bytes) (bs : Bytes) : Type 0 where
  hi : ℕ
  lo : ℕ
  rest : Bytes
  high : x ≡ some hi
  low : y ≡ some lo
  others : z ≡ some rest
  together : bs ≡ (hi * 16 + lo) ∷ rest

join-Joined :
    (x y : Option ℕ) (z : Option Bytes) (bs : Bytes) → join x y z ≡ some bs → Joined x y z bs
join-Joined none y z bs h = absurd (cc)
join-Joined (some hi) none z bs h = absurd (cc)
join-Joined (some hi) (some lo) none bs h = absurd (cc)
join-Joined (some hi) (some lo) (some rest) bs h = record {
  hi = hi;
  lo = lo;
  rest = rest;
  high = refl;
  low = refl;
  others = refl;
  together = cc;
}

halves : (hi lo : ℕ) → hi < 16 → lo < 16 → ((hi * 16 + lo) / 16 ≡ hi) × ((hi * 16 + lo) % 16 ≡ lo)
halves hi lo h l = (omega arith, omega arith)

to_hex-from_pairs :
    (s bs : Bytes) → length s % 2 ≡ 0 → from_pairs s ≡ some bs → to_hex bs ≡ map lower_hex s
unfolding from_pairs to_hex
to_hex-from_pairs [] bs l h = let none_read : bs ≡ [] = cc in rw none_read refl
to_hex-from_pairs (a ∷ []) bs l h = absurd (omega arith)
to_hex-from_pairs (a ∷ b ∷ rest) bs l h =
    let j = join-Joined (nibble a) (nibble b) (from_pairs rest) bs h in
    let (high, hi_small) = hex_digit-nibble a j.hi j.high in
    let (low, lo_small) = hex_digit-nibble b j.lo j.low in
    let (first, second) = halves j.hi j.lo hi_small lo_small in
    let more = to_hex-from_pairs rest j.rest (omega arith) j.others in
    rw j.together (rw (first, second, high, low, more) refl)

-- Text that is read as hexadecimal is printed again in lower case.
pub to_hex-from_hex : (s bs : Bytes) → from_hex s ≡ bytes bs → to_hex bs ≡ map lower_hex s
unfolding from_hex
to_hex-from_hex s bs h = elim (Bool-cases (length s % 2 == 0)) [
  | inl e ↦
      let even = even_checked e in
      to_hex-from_pairs s bs ((==_iff (length s % 2) 0).0 e) (read (from_pairs s) (sym even ∙ h))
  | inr e ↦ let odd = odd_refused e in absurd (refused (sym odd ∙ h))
]
  where
    read : (o : Option Bytes) → checked o ≡ bytes bs → o ≡ some bs
    read none e = absurd (cc)
    read (some cs) e = cc

    even_checked : (length s % 2 == 0) ≡ true → from_hex s ≡ checked (from_pairs s)
    even_checked e =
        if_false (λ (r : HexResult). r ≡ checked (from_pairs s)) (not (length s % 2 == 0)) _ _
          (ap not e) refl

    odd_refused : (length s % 2 == 0) ≡ false → from_hex s ≡ length_must_be_even
    odd_refused e =
        if_true (λ (r : HexResult). r ≡ length_must_be_even) (not (length s % 2 == 0)) _ _
          (ap not e) refl

    refused : length_must_be_even ≡ bytes bs → ⊥
    refused e = cc
