-- ===== src/HttpServer/Session/Paced.antt =====
-- The pace of a session: one response for each request, and none after a connection is to close.
use vacps.Prelude.{
  ℕ, ◌≡◌, ◌≢◌, ◌⊎◌, inl, inr, refl, arith, pos, List, [], ◌∷◌, Bool, true, false, not, ◌&&◌, Option,
  none, some, ◌==◌, ==_iff, length, if-split, if◌then◌else◌,
}
use vacps.HttpServer.{ServerRequest, ServerResponse, ServerOptions, ResponseFault}
use vacps.HttpServer.Checks.{validate_response}
use vacps.HttpServer.Session.{
  Answer, responds, fails, etimedout, check_response, choose_response, Written, write_response,
  Round, Read, read_failed, received, Received, Output, on_read_error, IoError,
  is_benign_disconnect, is_body_limit, is_malformed_request, respond, on_read, session_run,
}

-- What is sent for an answer of the handler: its response if that may be sent, which keeps the
-- connection as `keep` says, and else an error that closes it, 504 exactly for a time-out.
pub data IsContent (opts : ServerOptions) (is_head keep : Bool) (w : Written)
    : Answer → Type 0 where
  handed_over :
      (r : ServerResponse)
      → validate_response r opts.max_response_bytes ≡ none
      → w.status ≡ r.status
      → w.headers ≡ r.headers
      → w.body ≡ (if is_head then [] else r.body)
      → (is_head ≡ true → w.content_length ≡ some (length r.body))
      → w.keep_alive ≡ keep
      → IsContent opts is_head keep w (responds r)
  refused :
      (r : ServerResponse) (fault : ResponseFault)
      → validate_response r opts.max_response_bytes ≡ some fault
      → w.status ≡ pos 500
      → w.keep_alive ≡ false
      → IsContent opts is_head keep w (responds r)
  late : w.status ≡ pos 504 → w.keep_alive ≡ false → IsContent opts is_head keep w (fails etimedout)
  failed :
      (code : ℕ)
      → code ≢ etimedout
      → w.status ≡ pos 500
      → w.keep_alive ≡ false
      → IsContent opts is_head keep w (fails code)

-- A response to a request that the handler has answered. A handler's response keeps the connection
-- exactly if the request asks for it and the session is not told to stop.
pub record IsResponse (opts : ServerOptions) (q : Received) (r : Round) (w : Written) : Type 0 where
  pub version : w.version ≡ q.request.version
  pub content : IsContent opts q.is_head (q.keep_alive && not r.stop_write) w r.answer

-- The responses and requests of a session's passes, and whether it has ended: each pass but the
-- last reads a request and writes its response, which keeps the connection. The last pass is told
-- to stop before or behind the handler, or reads an error, with a response exactly for a body over
-- the limit, and for a malformed request unless it is told to stop, or writes a response that closes
-- the connection or fails.
pub data IsPaced (opts : ServerOptions)
    : List Round → List Written → List ServerRequest → Bool → Type 0 where
  waits : IsPaced opts [] [] [] false
  stopped : {r : Round} {rs : List Round} → r.stop_first ≡ true → IsPaced opts (r ∷ rs) [] [] true
  silent :
      {r : Round} {rs : List Round} (e : IoError)
      → r.read ≡ read_failed e
      → (is_benign_disconnect e ≡ true)
        ⊎ ((is_body_limit e ≡ false) × ((is_malformed_request e ≡ false) ⊎ (r.stop_read ≡ true)))
      → IsPaced opts (r ∷ rs) [] [] true
  unreadable :
      {r : Round} {rs : List Round} {w : Written} (e : IoError)
      → r.read ≡ read_failed e
      → is_benign_disconnect e ≡ false
      → ((is_body_limit e ≡ true) × (w.status ≡ pos 413))
        ⊎ ((is_malformed_request e ≡ true) × (w.status ≡ pos 400))
      → w.keep_alive ≡ false
      → IsPaced opts (r ∷ rs) (w ∷ []) [] true
  unanswered :
      {r : Round} {rs : List Round} (q : Received)
      → r.read ≡ received q
      → r.stop_handled ≡ true
      → IsPaced opts (r ∷ rs) [] (q.request ∷ []) true
  last :
      {r : Round} {rs : List Round} {w : Written} (q : Received)
      → r.read ≡ received q
      → IsResponse opts q r w
      → (w.keep_alive ≡ false) ⊎ (r.write_ok ≡ false)
      → IsPaced opts (r ∷ rs) (w ∷ []) (q.request ∷ []) true
  answered :
      {r : Round} {rs : List Round} {w : Written} {ws : List Written} {qs : List ServerRequest}
      {b : Bool} (q : Received)
      → r.read ≡ received q
      → IsResponse opts q r w
      → w.keep_alive ≡ true
      → r.write_ok ≡ true
      → IsPaced opts rs ws qs b
      → IsPaced opts (r ∷ rs) (w ∷ ws) (q.request ∷ qs) b

closing : (keep stop : Bool) → (keep && (not true && not stop)) ≡ false
closing keep stop = ground arith

module _ (opts : ServerOptions) where
  abbrev written_for : ℕ → Bool → Bool → Bool → ServerResponse × Bool → Written
  written_for version keep head stop c = write_response version keep head (c.0) (c.1) stop

  check_response-IsContent :
      (version : ℕ) (keep head stop : Bool) (r : ServerResponse) (o : Option ResponseFault)
      → validate_response r opts.max_response_bytes ≡ o
      → IsContent opts head
          (keep && not stop)
          (written_for version keep head stop (check_response r o))
          (responds r)
  unfolding write_response
  check_response-IsContent version keep head stop r none e =
      handed_over r e refl refl refl (λ h. rw h refl) refl
  check_response-IsContent version keep head stop r (some fault) e =
      refused r fault e refl (closing keep stop)

  choose_response-IsContent :
      (version : ℕ) (keep head stop : Bool) (a : Answer)
      → IsContent opts head
          (keep && not stop)
          (written_for version keep head stop (choose_response opts a))
          a
  unfolding choose_response
  choose_response-IsContent version keep head stop (responds r) =
      check_response-IsContent version keep head stop r
        (validate_response r opts.max_response_bytes) refl
  choose_response-IsContent version keep head stop (fails code) =
      if-split
        (λ (c : ServerResponse × Bool).
          IsContent opts head (keep && not stop) (written_for version keep head stop c)
            (fails code))
        (code == etimedout) _ _
        (λ h.
          unfold write_response in rw ((==_iff code etimedout).0 h) (late refl (closing keep stop)))
        (λ h. unfold write_response in failed code (λ e. ground arith) refl (closing keep stop))

  respond-IsResponse : (q : Received) (r : Round) → IsResponse opts q r (respond opts q r)
  unfolding respond write_response
  respond-IsResponse q r = record {
    version = refl;
    content =
        choose_response-IsContent q.request.version q.keep_alive q.is_head r.stop_write r.answer;
  }

  abbrev Paced : List Round → Output → Type 0
  Paced rs o = IsPaced opts rs o.written o.handled o.ended

  on_read_error-Paced :
      (e : IoError) (r : Round) (rs : List Round)
      → r.read ≡ read_failed e
      → Paced (r ∷ rs) (on_read_error e r.stop_read)
  unfolding on_read_error write_response
  on_read_error-Paced e r rs h =
      let P = Paced (r ∷ rs) in
      if-split P (is_benign_disconnect e) _ _ (λ k. silent e h (inl k))
        (λ benign.
          if-split P (is_body_limit e) _ _ (λ k. unreadable e h benign (inl (k, refl)) refl)
            (λ small.
              if-split P (is_malformed_request e) _ _
                (λ k.
                  if-split P (not r.stop_read) _ _
                    (λ go. unreadable e h benign (inr (k, refl)) refl)
                    (λ told. silent e h (inr (small, inr (ground arith)))))
                (λ k. silent e h (inr (small, inl k)))))

  ends : (a b : Bool) → (a && b) ≡ false → (a ≡ false) ⊎ (b ≡ false)
  ends true b h = inr h
  ends false b h = inl refl

  goes_on : (a b : Bool) → (a && b) ≡ true → (a ≡ true) × (b ≡ true)
  goes_on a b h = (ground arith, ground arith)

  on_read-Paced :
      (read : Read) (r : Round) (rs : List Round) (more : Output)
      → r.read ≡ read
      → Paced rs more
      → Paced (r ∷ rs) (on_read opts read r more)
  unfolding on_read
  on_read-Paced (read_failed e) r rs more g h = on_read_error-Paced e r rs g
  on_read-Paced (received q) r rs more g h =
      let P = Paced (r ∷ rs) in
      let w = respond opts q r in
      if-split P r.stop_handled _ _ (λ k. unanswered q g k)
        (λ _.
          if-split P (w.keep_alive && r.write_ok) _ _
            (λ k.
              let (kept, ok) = goes_on w.keep_alive r.write_ok k in
              answered q g (respond-IsResponse q r) kept ok h)
            (λ k. last q g (respond-IsResponse q r) (ends w.keep_alive r.write_ok k)))

  -- A session reads its requests one after the other and writes for each the response that its
  -- handler gave, or an error in place of an answer that may not be sent; it reads the next request
  -- only behind a response that keeps the connection and was written, and has ended else. A read
  -- that fails is answered by an error exactly for a body over the limit and, unless the session is
  -- told to stop, for a malformed request.
  pub session_run-IsPaced :
      (rs : List Round) → let o = session_run opts rs in IsPaced opts rs o.written o.handled o.ended
  unfolding session_run
  session_run-IsPaced [] = waits
  session_run-IsPaced (r ∷ rs) =
      if-split (Paced (r ∷ rs)) r.stop_first _ _ (λ h. stopped h)
        (λ _. on_read-Paced r.read r rs (session_run opts rs) refl (session_run-IsPaced rs))
