-- ===== src/CommandLine/Exact.antt =====
-- Which numbers the command line accepts.
use native.Mathlib.Nat.{mul_comm, mul_assoc, add-mul, pow-suc}
use vacps.Prelude.{
  ℕ, suc, ◌+◌, ◌-◌, ◌*◌, ◌^◌, ◌≡◌, refl, sym, ap, ◌∙◌, arith, [], ◌∷◌, Bool, true, false, ◌&&◌,
  Option, none, some, leb, if◌then◌else◌, length, Bool-cases, inl, inr, not,
}
use vacps.Process.State.{Bytes}
use vacps.CommandLine.{Expected, value, unexpected}
use vacps.CommandLine.Numbers.{
  is_digit, scan, from_chars, parsed, result_out_of_range, check_parsed, parse_unsigned_full,
}

unfoldable pub all_digits : Bytes → Bool
all_digits [] = true
all_digits (c ∷ cs) = is_digit c && all_digits cs

-- The number that the digits denote, by the weights of their places.
unfoldable pub decimal : Bytes → ℕ
decimal [] = 0
decimal (c ∷ cs) = (c - 48) * 10 ^ length cs + decimal cs

abbrev pub accepted : Expected ℕ → Option ℕ
accepted (value n) = some n
accepted (unexpected e) = none

abbrev pub is_empty : Bytes → Bool
is_empty [] = true
is_empty (c ∷ cs) = false

place : (acc k n d : ℕ) → (acc * 10 + k) * 10 ^ n + d ≡ acc * (10 ^ n * 10) + (k * 10 ^ n + d)
place acc k n d =
    omega (arith, add-mul (acc * 10) k (10 ^ n), mul_assoc acc 10 (10 ^ n), mul_comm 10 (10 ^ n))

longer : (acc n d : ℕ) → acc * 10 ^ (suc n) + d ≡ acc * (10 ^ n * 10) + d
longer acc n d = ap (λ (x : ℕ). acc * x + d) (pow-suc 10 n)

scan-digits :
    (acc : ℕ) (s : Bytes) → all_digits s ≡ true → scan acc s ≡ (acc * 10 ^ length s + decimal s, [])
unfolding all_digits scan decimal
scan-digits acc [] h = ap (λ (n : ℕ). (n, [])) (omega arith)
scan-digits acc (c ∷ cs) h = elim (Bool-cases (is_digit c)) [
  | inl d ↦ rw d (
      scan-digits (acc * 10 + (c - 48)) cs (ap (λ (b : Bool). b && all_digits cs) (sym d) ∙ h)
      ∙ ap (λ (n : ℕ). (n, []))
          (place acc (c - 48) (length cs) (decimal cs) ∙ sym (longer acc (length cs) _)))
  | inr d ↦ absurd (ground arith)
]

scan-stops : (acc : ℕ) (s : Bytes) → all_digits s ≡ false → is_empty (scan acc s).1 ≡ false
unfolding all_digits scan
scan-stops acc [] h = absurd (ground arith)
scan-stops acc (c ∷ cs) h = elim (Bool-cases (is_digit c)) [
  | inl d ↦
      rw d (scan-stops (acc * 10 + (c - 48)) cs (ap (λ (b : Bool). b && all_digits cs) (sym d) ∙ h))
  | inr d ↦ rw d refl
]

read-accepted :
    (option raw : Bytes) (n : ℕ) (rest : Bytes) (fits : Bool)
    → accepted (check_parsed option raw (if fits then parsed n rest else result_out_of_range))
      ≡ (if is_empty rest && fits then some n else none)
read-accepted option raw n [] true = refl
read-accepted option raw n [] false = refl
read-accepted option raw n (c ∷ rest) true = refl
read-accepted option raw n (c ∷ rest) false = refl

digits-accepted :
    (max : ℕ) (option : Bytes) (c : ℕ) (cs : Bytes)
    → all_digits (c ∷ cs) ≡ true
    → is_digit c ≡ true
    → accepted (parse_unsigned_full max option (c ∷ cs))
      ≡ (if leb (decimal (c ∷ cs)) max then some (decimal (c ∷ cs)) else none)
unfolding parse_unsigned_full from_chars
digits-accepted max option c cs h d =
    let whole : scan 0 (c ∷ cs) ≡ (decimal (c ∷ cs), []) =
      scan-digits 0 (c ∷ cs) h ∙ ap (λ (n : ℕ). (n, [])) (omega arith) in
    rw (d, whole) (read-accepted option (c ∷ cs) (decimal (c ∷ cs)) [] _)

others-accepted :
    (max : ℕ) (option : Bytes) (c : ℕ) (cs : Bytes)
    → all_digits (c ∷ cs) ≡ false
    → accepted (parse_unsigned_full max option (c ∷ cs)) ≡ none
unfolding parse_unsigned_full from_chars
others-accepted max option c cs h = elim (Bool-cases (is_digit c)) [
  | inl d ↦ rw d (
      read-accepted option (c ∷ cs) (scan 0 (c ∷ cs)).0 (scan 0 (c ∷ cs)).1 _
      ∙ (rw (scan-stops 0 (c ∷ cs) h) refl))
  | inr d ↦ rw d refl
]

first_digit : (c : ℕ) (cs : Bytes) → all_digits (c ∷ cs) ≡ true → is_digit c ≡ true
unfolding all_digits
first_digit c cs h = ground arith

-- A text is accepted as a number exactly if it is not empty, has digits only, and denotes a number
-- up to the largest; then the result is that number.
pub parse_unsigned_full-exact :
    (max : ℕ) (option raw : Bytes)
    → accepted (parse_unsigned_full max option raw) ≡ (
        if not (is_empty raw) && (all_digits raw && leb (decimal raw) max)
        then some (decimal raw)
        else none)
parse_unsigned_full-exact max option [] = unfold parse_unsigned_full in refl
parse_unsigned_full-exact max option (c ∷ cs) = elim (Bool-cases (all_digits (c ∷ cs))) [
  | inl h ↦ rw h (digits-accepted max option c cs h (first_digit c cs h))
  | inr h ↦ rw h (others-accepted max option c cs h)
]
