-- ===== src/TextDecoder/Repair.antt =====
-- What `utf8_to_well_formed` of text/decoder.cpp gives, and that its loop ends inside its buffer.
use vacps.Prelude.{
  ℕ, zero, suc, ◌≤◌, ◌<◌, ◌≡◌, ◌⊎◌, inl, inr, refl, sym, ap, subst, arith, [], ◌∷◌, ◌++◌, Bool,
  true, false, Option, some, ltb, ◌==◌, if-split, if_false, length, length-append, length-drop,
  take, drop,
}
use vacps.Process.State.{Bytes}
use vacps.TextDecoder.{Outcome, text, not_valid, Units, Conversion, converted, error_at, Simdutf}
use vacps.TextDecoder.Convert.{
  replacement, prepend, good_part, replace_loop, from_units, utf8_to_well_formed,
}

-- What simdutf documents: an error is at a byte of the input, and neither the input nor what
-- stands in front of the error gives more units than it has bytes.
pub record IsDocumented (s : Simdutf) : Type 0 where
  pub error_inside :
      (chunk : Bytes) (k : ℕ)
      → s.convert_utf8_to_utf16_with_errors chunk ≡ error_at k
      → k < length chunk
  pub units_fit :
      (chunk : Bytes) (us : Units)
      → s.convert_utf8_to_utf16_with_errors chunk ≡ converted us
      → length us ≤ length chunk
  pub prefix_fit :
      (chunk : Bytes) (k : ℕ)
      → s.convert_utf8_to_utf16_with_errors chunk ≡ error_at k
      → length (s.convert_utf8_to_utf16 (take k chunk)) ≤ k

-- The units of a text in which U+FFFD stands for each byte that is in error.
pub data Repairs (s : Simdutf) : Bytes → Units → Type 0 where
  nothing : Repairs s [] []
  whole :
      {chunk : Bytes} {us : Units}
      → s.convert_utf8_to_utf16_with_errors chunk ≡ converted us
      → Repairs s chunk us
  replaced :
      {chunk : Bytes} {us : Units} (k : ℕ)
      → s.convert_utf8_to_utf16_with_errors chunk ≡ error_at k
      → Repairs s (drop (suc k) chunk) us
      → Repairs s chunk ((good_part s k chunk ++ replacement ∷ []) ++ us)

-- A result of the loop, in the buffer of as many units as there are bytes.
record Ends (s : Simdutf) (input : Bytes) (o : Option Units) : Type 0 where
  units : Units
  ends : o ≡ some units
  fits : length units ≤ length input
  repairs : Repairs s input units

-- What the conversion gives: the input itself if it is valid, and else an error if errors are
-- fatal, or the repaired text, whose units fit the buffer.
pub data IsWellFormed (s : Simdutf) (input : Bytes) : Bool → Outcome → Type 0 where
  unchanged :
      {fatal : Bool}
      → (length input ≡ 0) ⊎ (s.validate_utf8 input ≡ true)
      → IsWellFormed s input fatal (text input)
  refused : s.validate_utf8 input ≡ false → IsWellFormed s input true not_valid
  repaired :
      (units : Units)
      → s.validate_utf8 input ≡ false
      → length units ≤ length input
      → Repairs s input units
      → IsWellFormed s input false (text (s.convert_units_to_utf8 units))

module _ (s : Simdutf) (o : IsDocumented s) where
  good_part-length :
      (chunk : Bytes) (k : ℕ)
      → s.convert_utf8_to_utf16_with_errors chunk ≡ error_at k
      → length (good_part s k chunk) ≤ k
  good_part-length chunk k e =
      if-split (λ (us : Units). length us ≤ k) (ltb 0 k) (s.convert_utf8_to_utf16 (take k chunk)) []
        (λ h. o.prefix_fit chunk k e) (λ h. omega arith)

  from_error :
      (chunk : Bytes) (k : ℕ) (r : Option Units)
      → s.convert_utf8_to_utf16_with_errors chunk ≡ error_at k
      → Ends s (drop (suc k) chunk) r
      → Ends s chunk (prepend (good_part s k chunk ++ replacement ∷ []) r)
  from_error chunk k r e later = record {
    units = (good_part s k chunk ++ replacement ∷ []) ++ later.units;
    ends = ap (prepend (good_part s k chunk ++ replacement ∷ [])) later.ends;
    fits = omega (
      arith,
      length-append (good_part s k chunk ++ replacement ∷ []) later.units,
      length-append (good_part s k chunk) (replacement ∷ []),
      good_part-length chunk k e,
      later.fits,
      length-drop (suc k) chunk,
      o.error_inside chunk k e,
    );
    repairs = replaced k e later.repairs;
  }

  from_conversion :
      (chunk : Bytes) (loop : Bytes → Option Units) (v : Conversion)
      → s.convert_utf8_to_utf16_with_errors chunk ≡ v
      → ((k : ℕ) → Ends s (drop (suc k) chunk) (loop (drop (suc k) chunk)))
      → Ends s chunk (elim v [
        | converted us ↦ some us
        | error_at k ↦ prepend (good_part s k chunk ++ replacement ∷ []) (loop (drop (suc k) chunk))
      ])
  from_conversion chunk loop (converted us) e later = record {
    units = us;
    ends = refl;
    fits = o.units_fit chunk us e;
    repairs = whole e;
  }
  from_conversion chunk loop (error_at k) e later =
      from_error chunk k (loop (drop (suc k) chunk)) e (later k)

  replace_loop-Ends :
      (n : ℕ) (input : Bytes) → length input ≤ n → Ends s input (replace_loop s n input)
  unfolding replace_loop
  replace_loop-Ends n [] h = record {
    units = [];
    ends = refl;
    fits = omega arith;
    repairs = nothing;
  }
  replace_loop-Ends zero (c ∷ cs) h = absurd (omega arith)
  replace_loop-Ends (suc n) (c ∷ cs) h =
      from_conversion (c ∷ cs) (λ rest. replace_loop s n rest)
        (s.convert_utf8_to_utf16_with_errors (c ∷ cs)) refl
        (λ k. replace_loop-Ends n (drop k cs) (omega (arith, length-drop k cs)))

  from_Ends :
      (input : Bytes) (r : Option Units)
      → s.validate_utf8 input ≡ false
      → Ends s input r
      → IsWellFormed s input false (from_units s r)
  from_Ends input r h e =
      subst (λ (r : Option Units). IsWellFormed s input false (from_units s r)) (sym e.ends)
        (repaired e.units h e.fits e.repairs)

  -- Where simdutf does what it documents, the conversion of UTF-8 ends, and gives the input itself
  -- if it is empty or valid, and else an error exactly if errors are fatal, or the text in which
  -- U+FFFD stands for each byte in error, whose units fit the buffer of one unit for each byte.
  pub utf8_to_well_formed-IsWellFormed :
      (input : Bytes) (fatal : Bool)
      → IsWellFormed s input fatal (utf8_to_well_formed s input fatal)
  unfolding utf8_to_well_formed
  utf8_to_well_formed-IsWellFormed [] fatal = unchanged (inl refl)
  utf8_to_well_formed-IsWellFormed (c ∷ cs) true =
      if_false (IsWellFormed s (c ∷ cs) true) (length (c ∷ cs) == 0) _ _ (ground arith) (
        if-split (IsWellFormed s (c ∷ cs) true) (s.validate_utf8 (c ∷ cs)) _ _
          (λ h. unchanged (inr h)) (λ h. refused h))
  utf8_to_well_formed-IsWellFormed (c ∷ cs) false =
      if_false (IsWellFormed s (c ∷ cs) false) (length (c ∷ cs) == 0) _ _ (ground arith) (
        if-split (IsWellFormed s (c ∷ cs) false) (s.validate_utf8 (c ∷ cs)) _ _
          (λ h. unchanged (inr h))
          (λ h.
            from_Ends (c ∷ cs) _ h (replace_loop-Ends (length (c ∷ cs)) (c ∷ cs) (omega arith))))
