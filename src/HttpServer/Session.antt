-- ===== src/HttpServer/Session.antt =====
-- `Server::Session` of http/server.cpp: the requests of one connection, one after the other. What
-- the stream, the clock and the handler answer in one pass of the loop is a `Round`.
pub mod Clean
pub mod Sent
pub mod Paced
pub mod Deadline
use vacps.Prelude.{
  ℕ, ℤ, List, [], ◌∷◌, Bool, true, false, not, ◌&&◌, ◌||◌, Option, none, some, ◌==◌, length,
  if◌then◌else◌,
}
use vacps.Process.State.{Bytes}
use vacps.HttpServer.{Header, ServerRequest, ServerResponse, ServerOptions, ResponseFault}
use vacps.HttpServer.Checks.{validate_response, fixed_error_response}

-- The error codes that the server tells apart.
pub data IoError : Type 0 where
  end_of_stream eof connection_reset broken_pipe connection_aborted : IoError
  header_limit bad_method bad_target bad_version bad_status bad_reason bad_field bad_value
        bad_content_length bad_transfer_encoding bad_chunk bad_chunk_extension bad_obs_fold
        bad_line_ending partial_message :
      IoError
  body_limit operation_aborted beast_timeout : IoError
  other_error : ℕ → IoError

unfoldable pub is_benign_disconnect : IoError → Bool
is_benign_disconnect end_of_stream = true
is_benign_disconnect eof = true
is_benign_disconnect connection_reset = true
is_benign_disconnect broken_pipe = true
is_benign_disconnect connection_aborted = true
is_benign_disconnect _ = false

unfoldable pub is_malformed_request : IoError → Bool
is_malformed_request header_limit = true
is_malformed_request bad_method = true
is_malformed_request bad_target = true
is_malformed_request bad_version = true
is_malformed_request bad_status = true
is_malformed_request bad_reason = true
is_malformed_request bad_field = true
is_malformed_request bad_value = true
is_malformed_request bad_content_length = true
is_malformed_request bad_transfer_encoding = true
is_malformed_request bad_chunk = true
is_malformed_request bad_chunk_extension = true
is_malformed_request bad_obs_fold = true
is_malformed_request bad_line_ending = true
is_malformed_request partial_message = true
is_malformed_request _ = false

abbrev pub is_body_limit : IoError → Bool
is_body_limit body_limit = true
is_body_limit _ = false

-- What the handler's coroutine gives: a response, or an error with its system code.
pub data Answer : Type 0 where
  responds : ServerResponse → Answer
  fails : ℕ → Answer

abbrev pub etimedout : ℕ
etimedout = 110

-- What `run_handler` shares with the handler's coroutine and the timer.
pub record Box : Type 0 where
  pub out : Option Answer
  pub ep : Bool
  pub done : Bool
  pub timed_out : Bool

abbrev pub new_box : Box
new_box = record { out = none; ep = false; done = false; timed_out = false }

-- The handler returns or throws, and the timer's handler runs.
pub data BoxEvent : Type 0 where
  returns : Answer → BoxEvent
  throws timer_fires : BoxEvent

unfoldable pub box_step : BoxEvent → Box → Box
box_step (returns answer) b = record b { out = some answer; done = true }
box_step throws b = record b { ep = true; done = true }
box_step timer_fires b = if b.done then b else record b { timed_out = true }

abbrev pub out_of : Option Answer → Answer
out_of none = fails 0
out_of (some answer) = answer

-- The end of `run_handler`, when the box is done.
unfoldable pub handler_result : Box → Answer
handler_result b = if b.timed_out then fails etimedout else if b.ep then fails 0 else out_of b.out

abbrev pub check_response : ServerResponse → Option ResponseFault → ServerResponse × Bool
check_response r (some fault) = (fixed_error_response 500, true)
check_response r none = (r, false)

-- The response to an answer, and `force_close`.
unfoldable pub choose_response : ServerOptions → Answer → ServerResponse × Bool
choose_response opts (fails code) =
    if code == etimedout then (fixed_error_response 504, true) else (fixed_error_response 500, true)
choose_response opts (responds r) = check_response r (validate_response r opts.max_response_bytes)

-- A response on the stream. The content length is what is set without a body; with one, Beast's
-- `prepare_payload` adds the framing.
pub record Written : Type 0 where
  pub version : ℕ
  pub status : ℤ
  pub headers : List Header
  pub body : Bytes
  pub content_length : Option ℕ
  pub keep_alive : Bool

-- What `write_response` puts on the stream, where `stop` is `stop_requested()`.
unfoldable pub write_response : ℕ → Bool → Bool → ServerResponse → Bool → Bool → Written
write_response version request_keep_alive is_head res force_close stop = record {
  version = version;
  status = res.status;
  headers = res.headers;
  body = if is_head then [] else res.body;
  content_length = if is_head then some (length res.body) else none;
  keep_alive = request_keep_alive && (not force_close && not stop);
}

pub record Received : Type 0 where
  pub request : ServerRequest
  pub keep_alive : Bool
  pub is_head : Bool

pub data Read : Type 0 where
  read_failed : IoError → Read
  received : Received → Read

-- `stop_first` is the test at the head of the loop, `stop_read` and `stop_write` are
-- `stop_requested()` after a failed read and in `write_response`, `stop_handled` is the test behind
-- the handler.
pub record Round : Type 0 where
  pub stop_first : Bool
  pub read : Read
  pub stop_read : Bool
  pub answer : Answer
  pub stop_handled : Bool
  pub stop_write : Bool
  pub write_ok : Bool

-- The responses put on the stream, the requests passed to the handler, and whether the session has
-- ended.
pub record Output : Type 0 where
  pub written : List Written
  pub handled : List ServerRequest
  pub ended : Bool

abbrev pub fixed_write : ℕ → Bool → Written
fixed_write status stop = write_response 11 false false (fixed_error_response status) true stop

unfoldable pub on_read_error : IoError → Bool → Output
on_read_error e stop =
    let silent : Output = record { written = []; handled = []; ended = true } in
    if is_benign_disconnect e
    then silent
    else if is_body_limit e
    then record silent { written = fixed_write 413 stop ∷ [] }
    else if is_malformed_request e
    then if not stop then record silent { written = fixed_write 400 stop ∷ [] } else silent
    else silent

-- The response to a request that was handled.
unfoldable pub respond : ServerOptions → Received → Round → Written
respond opts q r =
    let chosen = choose_response opts r.answer in
    write_response q.request.version q.keep_alive q.is_head chosen.0 chosen.1 r.stop_write

abbrev pub then_more : ServerRequest → Written → Bool → Output → Output
then_more request w write_ok more =
    if w.keep_alive && write_ok
    then record { written = w ∷ more.written; handled = request ∷ more.handled; ended = more.ended }
    else record { written = w ∷ []; handled = request ∷ []; ended = true }

-- The pass behind the read.
unfoldable pub on_read : ServerOptions → Read → Round → Output → Output
on_read opts (read_failed e) r more = on_read_error e r.stop_read
on_read opts (received q) r more =
    if r.stop_handled
    then record { written = []; handled = q.request ∷ []; ended = true }
    else then_more q.request (respond opts q r) r.write_ok more

-- The loop over the rounds so far; behind them it waits.
unfoldable pub session_run : ServerOptions → List Round → Output
session_run opts [] = record { written = []; handled = []; ended = false }
session_run opts (r ∷ rs) =
    let more = session_run opts rs in
    if r.stop_first
    then record { written = []; handled = []; ended = true }
    else on_read opts r.read r more
