-- ===== src/HttpServer/Checks.antt =====
-- What http/server.cpp checks and answers without input or output: the options, the responses of
-- the handler, and the fixed responses.
use vacps.Prelude.{
  ℕ, ◌+◌, min, ℤ, pos, negsuc, List, [], ◌∷◌, Bool, true, false, not, ◌&&◌, ◌||◌, Option, none,
  some, ltb, leb, ◌==◌, if◌then◌else◌, length,
}
use vacps.Process.State.{Bytes}
use vacps.HttpServer.{
  ServerOptions, ServerResponse, OptionFault, host_required, no_request_bytes, no_header_bytes,
  no_response_bytes, no_io_timeout, no_handler_timeout, ResponseFault, invalid_status,
  must_not_include_body, body_too_large, transport_owned, invalid_name, invalid_value, Header,
}

-- `std::tolower` in the C locale.
abbrev pub lower : ℕ → ℕ
lower c = if leb b'A' c && leb c b'Z' then c + 32 else c

unfoldable pub ieq : Bytes → Bytes → Bool
ieq [] [] = true
ieq [] (b ∷ bs) = false
ieq (a ∷ rest) [] = false
ieq (a ∷ rest) (b ∷ bs) = lower a == lower b && ieq rest bs

unfoldable pub is_transport_owned_header : Bytes → Bool
is_transport_owned_header name =
    ieq name (b'c' ∷ b'o' ∷ b'n' ∷ b'n' ∷ b'e' ∷ b'c' ∷ b't' ∷ b'i' ∷ b'o' ∷ b'n' ∷ [])
    || (ieq name (
          b'c' ∷ b'o' ∷ b'n' ∷ b't' ∷ b'e' ∷ b'n' ∷ b't' ∷ b'-' ∷ b'l' ∷ b'e' ∷ b'n' ∷ b'g' ∷ b't'
          ∷ b'h' ∷ [])
        || (ieq name (
              b't' ∷ b'r' ∷ b'a' ∷ b'n' ∷ b's' ∷ b'f' ∷ b'e' ∷ b'r' ∷ b'-' ∷ b'e' ∷ b'n' ∷ b'c'
              ∷ b'o' ∷ b'd' ∷ b'i' ∷ b'n' ∷ b'g' ∷ [])
            || (ieq name (b'u' ∷ b'p' ∷ b'g' ∷ b'r' ∷ b'a' ∷ b'd' ∷ b'e' ∷ [])
                || (ieq name (b't' ∷ b'r' ∷ b'a' ∷ b'i' ∷ b'l' ∷ b'e' ∷ b'r' ∷ [])
                    || (ieq name (b't' ∷ b'e' ∷ [])
                        || (ieq name (
                              b'k' ∷ b'e' ∷ b'e' ∷ b'p' ∷ b'-' ∷ b'a' ∷ b'l' ∷ b'i' ∷ b'v' ∷ b'e'
                              ∷ [])
                            || (ieq name (
                                b'p' ∷ b'r' ∷ b'o' ∷ b'x' ∷ b'y' ∷ b'-' ∷ b'c' ∷ b'o' ∷ b'n' ∷ b'n'
                                ∷ b'e' ∷ b'c' ∷ b't' ∷ b'i' ∷ b'o' ∷ b'n' ∷ []))))))))

-- A character of an RFC 7230 token.
abbrev pub is_tchar : ℕ → Bool
is_tchar c =
    (leb b'0' c && leb c b'9')
    || ((leb b'A' c && leb c b'Z')
        || ((leb b'a' c && leb c b'z')
            || (c == 33
                || (c == 35
                    || (c == 36
                        || (c == 37
                            || (c == 38
                                || (c == 39
                                    || (c == 42
                                        || (c == 43
                                            || (c == 45
                                                || (c == 46
                                                    || (c == 94
                                                        || (c == 95
                                                            || (c == 96
                                                            || (c == 124
                                                            || (c == 126)))))))))))))))))

unfoldable pub all_bytes : (ℕ → Bool) → Bytes → Bool
all_bytes test [] = true
all_bytes test (c ∷ cs) = test c && all_bytes test cs

unfoldable pub is_valid_header_name : Bytes → Bool
is_valid_header_name [] = false
is_valid_header_name (c ∷ cs) = all_bytes is_tchar (c ∷ cs)

abbrev pub is_field_char : ℕ → Bool
is_field_char c = if c == 0 || (c == 13 || c == 10) then false else not (ltb c 32 && not (c == 9))

unfoldable pub is_valid_header_value : Bytes → Bool
is_valid_header_value value = all_bytes is_field_char value

abbrev is_positive : ℤ → Bool
is_positive (pos n) = ltb 0 n
is_positive (negsuc n) = false

-- The options that `async_listen` refuses.
unfoldable pub validate_options : ServerOptions → Option OptionFault
validate_options opts =
    if length opts.host == 0
    then some host_required
    else if opts.max_request_bytes == 0
    then some no_request_bytes
    else if opts.max_header_bytes == 0
    then some no_header_bytes
    else if opts.max_response_bytes == 0
    then some no_response_bytes
    else if not (is_positive opts.io_timeout)
    then some no_io_timeout
    else if not (is_positive opts.handler_timeout)
    then some no_handler_timeout
    else none

abbrev pub in_range : ℤ → Bool
in_range (pos n) = not (ltb n 200 || ltb 599 n)
in_range (negsuc n) = false

abbrev pub has_no_body : ℤ → Bool
has_no_body (pos n) = n == 204 || (n == 205 || n == 304)
has_no_body (negsuc n) = false

-- The loop over the headers.
unfoldable pub validate_headers : List Header → Option ResponseFault
validate_headers [] = none
validate_headers ((name, value) ∷ rest) =
    let more = validate_headers rest in
    if is_transport_owned_header name
    then some (transport_owned name)
    else if not (is_valid_header_name name)
    then some (invalid_name name)
    else if not (is_valid_header_value value)
    then some invalid_value
    else more

unfoldable pub validate_response : ServerResponse → ℕ → Option ResponseFault
validate_response res max_body =
    if not (in_range res.status)
    then some invalid_status
    else if has_no_body res.status && not (length res.body == 0)
    then some must_not_include_body
    else if ltb max_body (length res.body)
    then some body_too_large
    else validate_headers res.headers

unfoldable pub clamp_header_limit : ℕ → ℕ
clamp_header_limit n = min n 4294967295

abbrev pub fixed_status_body : ℕ → Bytes
fixed_status_body status =
    if status == 400
    then b'B' ∷ b'a' ∷ b'd' ∷ b' ' ∷ b'R' ∷ b'e' ∷ b'q' ∷ b'u' ∷ b'e' ∷ b's' ∷ b't' ∷ []
    else if status == 413
    then b'P' ∷ b'a' ∷ b'y' ∷ b'l' ∷ b'o' ∷ b'a' ∷ b'd' ∷ b' ' ∷ b'T' ∷ b'o' ∷ b'o' ∷ b' ' ∷ b'L'
      ∷ b'a' ∷ b'r' ∷ b'g' ∷ b'e' ∷ []
    else if status == 500
    then b'I' ∷ b'n' ∷ b't' ∷ b'e' ∷ b'r' ∷ b'n' ∷ b'a' ∷ b'l' ∷ b' ' ∷ b'S' ∷ b'e' ∷ b'r' ∷ b'v'
      ∷ b'e' ∷ b'r' ∷ b' ' ∷ b'E' ∷ b'r' ∷ b'r' ∷ b'o' ∷ b'r' ∷ []
    else if status == 504
    then b'G' ∷ b'a' ∷ b't' ∷ b'e' ∷ b'w' ∷ b'a' ∷ b'y' ∷ b' ' ∷ b'T' ∷ b'i' ∷ b'm' ∷ b'e' ∷ b'o'
      ∷ b'u' ∷ b't' ∷ []
    else b'E' ∷ b'r' ∷ b'r' ∷ b'o' ∷ b'r' ∷ []

abbrev pub fixed_error_response : ℕ → ServerResponse
fixed_error_response status = record {
  status = pos status;
  headers =
      (
        b'C' ∷ b'o' ∷ b'n' ∷ b't' ∷ b'e' ∷ b'n' ∷ b't' ∷ b'-' ∷ b'T' ∷ b'y' ∷ b'p' ∷ b'e' ∷ [],
        b't' ∷ b'e' ∷ b'x' ∷ b't' ∷ b'/' ∷ b'p' ∷ b'l' ∷ b'a' ∷ b'i' ∷ b'n' ∷ b';' ∷ b' ' ∷ b'c'
            ∷ b'h' ∷ b'a' ∷ b'r' ∷ b's' ∷ b'e' ∷ b't' ∷ b'=' ∷ b'u' ∷ b't' ∷ b'f' ∷ b'-' ∷ b'8'
            ∷ [],
      )
      ∷ [];
  body = fixed_status_body status;
}
