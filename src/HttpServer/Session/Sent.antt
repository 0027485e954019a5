-- ===== src/HttpServer/Session/Sent.antt =====
-- Whatever a handler answers and a client sends, a session puts only clean responses on the stream.
use vacps.Prelude.{ℕ, ◌≡◌, ◌⊎◌, pos, [], Bool, true, false, Every}
use vacps.HttpServer.{ServerResponse, ServerOptions}
use vacps.HttpServer.Checks.{fixed_error_response, fixed_status_body}
use vacps.HttpServer.Session.{Written, Output}
use vacps.HttpServer.Session.Clean.{IsCleanHeader, IsSendable}

-- The status of an error that the server answers by itself.
abbrev pub IsErrorStatus : ℕ → Type 0
IsErrorStatus n = ((n ≡ 400) ⊎ (n ≡ 413)) ⊎ ((n ≡ 500) ⊎ (n ≡ 504))

-- A response on the stream: one that may be sent, within the limit of the options, or an error of the server's own, with its fixed body or none, that closes the connection.
pub data IsClean (opts : ServerOptions) (w : Written) : Type 0 where
  may_be_sent : IsSendable opts.max_response_bytes w.status w.headers w.body → IsClean opts w
  own_error :
      (n : ℕ)
      → IsErrorStatus n
      → w.status ≡ pos n
      → Every IsCleanHeader w.headers
      → (w.body ≡ fixed_status_body n) ⊎ (w.body ≡ [])
      → w.keep_alive ≡ false
      → IsClean opts w

-- What is chosen to be written, and `force_close`.
data IsChosen (opts : ServerOptions) : ServerResponse × Bool → Type 0 where
  sendable :
      (r : ServerResponse) (force : Bool)
      → IsSendable opts.max_response_bytes r.status r.headers r.body
      → IsChosen opts (r, force)
  fixed : (n : ℕ) → IsErrorStatus n → IsChosen opts (fixed_error_response n, true)

abbrev AllClean : ServerOptions → Output → Type 0
AllClean opts o = Every (λ (w : Written). IsClean opts w) o.written
