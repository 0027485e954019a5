-- ===== src/TextDecoder/Labels.antt =====
-- The labels of encodings that `Decoder::create` takes.
use vacps.Prelude.{
  ℕ, ◌≡◌, refl, sym, ap, ◌∙◌, arith, [], ◌∷◌, ◌++◌, map, true, Option, none, some, if◌then◌else◌,
  if-split, if_true, Every, none_left, also,
}
use vacps.Process.State.{Bytes}
use vacps.CommandLine.Names.{same_bytes}
use vacps.TextDecoder.{
  Encoding, utf8, utf16le, utf16be, DecoderOptions, is_blank, to_lower, trim_front, put_front,
  trim_back, ascii_lower_trim, parse_encoding_label, new_decoder, create, encoding_name,
}

abbrev pub IsBlank : ℕ → Type 0
IsBlank c = is_blank c ≡ true

map-append : (f : ℕ → ℕ) (xs ys : Bytes) → map f (xs ++ ys) ≡ map f xs ++ map f ys
map-append f [] ys = refl
map-append f (x ∷ xs) ys = ap (◌∷◌ (f x)) (map-append f xs ys)

to_lower_blank : (c : ℕ) → is_blank (to_lower c) ≡ is_blank c
to_lower_blank c = ground arith

map-Every : (s : Bytes) → Every IsBlank s → Every IsBlank (map to_lower s)
map-Every [] none_left = none_left
map-Every (c ∷ cs) (also h r) = also (to_lower_blank c ∙ h) (map-Every cs r)

trim_front-map : (s : Bytes) → map to_lower (trim_front s) ≡ trim_front (map to_lower s)
unfolding trim_front
trim_front-map [] = refl
trim_front-map (c ∷ cs) =
    rw (to_lower_blank c, sym (trim_front-map cs))
      (if-split
        (λ (r : Bytes).
          map to_lower r
          ≡ (if is_blank c then map to_lower (trim_front cs) else to_lower c ∷ map to_lower cs))
        (is_blank c) _ _ (λ h. rw h refl) (λ h. rw h refl))

put_front-map :
    (c : ℕ) (s : Bytes) → map to_lower (put_front c s) ≡ put_front (to_lower c) (map to_lower s)
put_front-map c [] = rw (to_lower_blank c) (
    if-split (λ (r : Bytes). map to_lower r ≡ (if is_blank c then [] else to_lower c ∷ []))
      (is_blank c) _ _ (λ h. rw h refl) (λ h. rw h refl))
put_front-map c (d ∷ ds) = refl

trim_back-map : (s : Bytes) → map to_lower (trim_back s) ≡ trim_back (map to_lower s)
unfolding trim_back
trim_back-map [] = refl
trim_back-map (c ∷ cs) =
    put_front-map c (trim_back cs) ∙ ap (put_front (to_lower c)) (trim_back-map cs)

trim_front-Every : (a s : Bytes) → Every IsBlank a → trim_front (a ++ s) ≡ trim_front s
unfolding trim_front
trim_front-Every [] s none_left = refl
trim_front-Every (c ∷ cs) s (also h r) =
    if_true (λ (t : Bytes). t ≡ trim_front s) (is_blank c) _ _ h (trim_front-Every cs s r)

trim_back-Every : (b : Bytes) → Every IsBlank b → trim_back b ≡ []
unfolding trim_back
trim_back-Every [] none_left = refl
trim_back-Every (c ∷ cs) (also h r) =
    ap (put_front c) (trim_back-Every cs r)
    ∙ if_true (λ (t : Bytes). t ≡ []) (is_blank c) _ _ h refl

name_trimmed :
    (e : Encoding) (b : Bytes)
    → Every IsBlank b
    → trim_back (trim_front (encoding_name e ++ b)) ≡ encoding_name e
unfolding trim_front trim_back
name_trimmed utf8 b h = rw (trim_back-Every b h) refl
name_trimmed utf16le b h = rw (trim_back-Every b h) refl
name_trimmed utf16be b h = rw (trim_back-Every b h) refl

lower_trimmed :
    (e : Encoding) (a l b : Bytes)
    → Every IsBlank a
    → Every IsBlank b
    → map to_lower l ≡ encoding_name e
    → ascii_lower_trim (a ++ (l ++ b)) ≡ encoding_name e
unfolding ascii_lower_trim
lower_trimmed e a l b ha hb h =
    let lower : map to_lower (a ++ (l ++ b))
        ≡ map to_lower a ++ (encoding_name e ++ map to_lower b) =
      map-append to_lower a (l ++ b)
      ∙ ap (λ (x : Bytes). map to_lower a ++ x)
          (map-append to_lower l b ∙ ap (λ (x : Bytes). x ++ map to_lower b) h) in
    trim_back-map (trim_front (a ++ (l ++ b)))
    ∙ (ap trim_back (trim_front-map (a ++ (l ++ b)) ∙ ap trim_front lower)
        ∙ (ap trim_back (
              trim_front-Every (map to_lower a) (encoding_name e ++ map to_lower b)
                (map-Every a ha))
            ∙ name_trimmed e (map to_lower b) (map-Every b hb)))

parse_encoding_name :
    (e : Encoding) (s : Bytes)
    → ascii_lower_trim s ≡ encoding_name e
    → parse_encoding_label s ≡ some e
unfolding parse_encoding_label same_bytes
parse_encoding_name utf8 s h = rw h refl
parse_encoding_name utf16le s h = rw h refl
parse_encoding_name utf16be s h = rw h refl

-- The name that `encoding` gives, in any case and between any blanks, creates a new decoder of this
-- encoding.
pub create-encoding_name :
    (e : Encoding) (a l b : Bytes) (options : DecoderOptions)
    → Every IsBlank a
    → Every IsBlank b
    → map to_lower l ≡ encoding_name e
    → create (a ++ (l ++ b)) options ≡ some (new_decoder e options)
unfolding create
create-encoding_name e a l b options ha hb h =
    ap
      (λ (o : Option Encoding). elim o [
        | none ↦ none
        | some encoding ↦ some (new_decoder encoding options)
      ])
      (parse_encoding_name e (a ++ (l ++ b)) (lower_trimmed e a l b ha hb h))
