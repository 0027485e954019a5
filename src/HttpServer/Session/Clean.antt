-- ===== src/HttpServer/Session/Clean.antt =====
-- Whatever the handler answers, what a session puts on the stream is a clean response.
use vacps.Prelude.{
  ℕ, ◌≤◌, ◌≡◌, ◌≢◌, refl, ap, arith, ℤ, pos, negsuc, List, [], ◌∷◌, Bool, true, false, not, ◌&&◌,
  Option, none, some, ltb, ◌==◌, length, Every, none_left, also, if-split,
}
use vacps.Process.State.{Bytes}
use vacps.HttpServer.{Header, ServerResponse, ResponseFault}
use vacps.HttpServer.Checks.{
  is_transport_owned_header, is_tchar, all_bytes, is_valid_header_name, is_field_char,
  is_valid_header_value, in_range, has_no_body, validate_headers, validate_response,
}

-- No byte that could end a field or the header: NUL, LF, CR; in a name neither a space nor a colon.
pub record IsValueByte (c : ℕ) : Type 0 where
  pub no_nul : c ≢ 0
  pub no_lf : c ≢ 10
  pub no_cr : c ≢ 13

pub record IsNameByte (c : ℕ) : Type 0 where
  pub clean : IsValueByte c
  pub no_space : c ≢ 32
  pub no_colon : c ≢ 58
  pub ascii : c ≤ 126

pub record IsCleanHeader (h : Header) : Type 0 where
  pub named : h.0 ≢ []
  pub name : Every IsNameByte h.0
  pub value : Every IsValueByte h.1
  pub own : is_transport_owned_header h.0 ≡ false

-- A byte that fails a test is none that passes it.
differs : (test : ℕ → Bool) (c d : ℕ) → test c ≡ true → test d ≡ false → c ≢ d
differs test c d h k e = let same = ap test e in absurd (cc)

tchar-IsNameByte : (c : ℕ) → is_tchar c ≡ true → IsNameByte c
tchar-IsNameByte c h = record {
  clean = record {
    no_nul = differs (λ x. is_tchar x) c 0 h refl;
    no_lf = differs (λ x. is_tchar x) c 10 h refl;
    no_cr = differs (λ x. is_tchar x) c 13 h refl;
  };
  no_space = differs (λ x. is_tchar x) c 32 h refl;
  no_colon = differs (λ x. is_tchar x) c 58 h refl;
  ascii = ground arith;
}

field_char-IsValueByte : (c : ℕ) → is_field_char c ≡ true → IsValueByte c
field_char-IsValueByte c h = record {
  no_nul = differs (λ x. is_field_char x) c 0 h refl;
  no_lf = differs (λ x. is_field_char x) c 10 h refl;
  no_cr = differs (λ x. is_field_char x) c 13 h refl;
}

all_bytes-Every :
    (P : ℕ → Type 0) (test : ℕ → Bool)
    → ((c : ℕ) → test c ≡ true → P c)
    → (s : Bytes) → all_bytes test s ≡ true
    → Every P s
unfolding all_bytes
all_bytes-Every P test f [] h = none_left
all_bytes-Every P test f (c ∷ cs) h =
    also (f c (ground arith)) (all_bytes-Every P test f cs (ground arith))

pub valid_name :
    (name : Bytes) → is_valid_header_name name ≡ true → (name ≢ []) × Every IsNameByte name
unfolding is_valid_header_name
valid_name [] h = absurd (ground arith)
valid_name (c ∷ cs) h =
    (λ e. absurd (cc), all_bytes-Every IsNameByte (λ x. is_tchar x) tchar-IsNameByte (c ∷ cs) h)

pub valid_value : (value : Bytes) → is_valid_header_value value ≡ true → Every IsValueByte value
unfolding is_valid_header_value
valid_value value h =
    all_bytes-Every IsValueByte (λ x. is_field_char x) field_char-IsValueByte value h

-- What holds where a check finds no fault.
abbrev pub Passes : Type 0 → Option ResponseFault → Type 0
Passes P none = P
Passes P (some fault) = Unit

Passes-map : (P Q : Type 0) (o : Option ResponseFault) → (P → Q) → Passes P o → Passes Q o
Passes-map P Q none f h = f h
Passes-map P Q (some fault) f h = tt

validate_headers-Every : (hs : List Header) → Passes (Every IsCleanHeader hs) (validate_headers hs)
unfolding validate_headers
validate_headers-Every [] = none_left
validate_headers-Every ((name, value) ∷ rest) =
    let P = Passes (Every IsCleanHeader ((name, value) ∷ rest)) in
    if-split P (is_transport_owned_header name) _ _ (λ _. tt)
      (λ o.
        if-split P (not (is_valid_header_name name)) _ _ (λ _. tt)
          (λ n.
            if-split P (not (is_valid_header_value value)) _ _ (λ _. tt)
              (λ v.
                let named = valid_name name (ground arith) in
                let first : IsCleanHeader (name, value) = record {
                  named = named.0;
                  name = named.1;
                  value = valid_value value (ground arith);
                  own = o;
                } in
                Passes-map (Every IsCleanHeader rest) _ (validate_headers rest)
                  (λ more. also first more) (validate_headers-Every rest))))

-- A response that may be sent, with a body up to a limit.
pub record IsSendable (limit : ℕ) (status : ℤ) (headers : List Header) (body : Bytes) : Type 0 where
  pub final : (n : ℕ) × (status ≡ pos n) × (200 ≤ n) × (n ≤ 599)
  pub headers_clean : Every IsCleanHeader headers
  pub body_allowed : has_no_body status ≡ true → body ≡ []
  pub body_limited : length body ≤ limit

in_range-final :
    (status : ℤ) → in_range status ≡ true → (n : ℕ) × (status ≡ pos n) × (200 ≤ n) × (n ≤ 599)
in_range-final (pos n) h = (n, refl, ground arith, ground arith)
in_range-final (negsuc n) h = absurd (ground arith)

empty_body : (body : Bytes) → (length body == 0) ≡ true → body ≡ []
empty_body [] h = refl
empty_body (c ∷ cs) h = absurd (ground arith)

pub validate_response-IsSendable :
    (r : ServerResponse) (limit : ℕ)
    → Passes (IsSendable limit r.status r.headers r.body) (validate_response r limit)
unfolding validate_response
validate_response-IsSendable r limit =
    let P = Passes (IsSendable limit r.status r.headers r.body) in
    if-split P (not (in_range r.status)) _ _ (λ _. tt)
      (λ a.
        if-split P (has_no_body r.status && not (length r.body == 0)) _ _ (λ _. tt)
          (λ b.
            if-split P (ltb limit (length r.body)) _ _ (λ _. tt)
              (λ c.
                Passes-map (Every IsCleanHeader r.headers) _ (validate_headers r.headers)
                  (λ hs. record {
                    final = in_range-final r.status (ground arith);
                    headers_clean = hs;
                    body_allowed = λ n. empty_body r.body (ground arith);
                    body_limited = ground arith;
                  })
                  (validate_headers-Every r.headers))))
