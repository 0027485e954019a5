-- ===== src/HttpServer/Examples.antt =====
-- Tests of the model of the HTTP server, and the theorems at concrete inputs.
use vacps.Prelude.{◌≡◌, refl, pos, [], ◌∷◌, ◌++◌, true, false, none, some, ltb, if◌then◌else◌}
use vacps.HttpServer.{ServerRequest, ServerResponse, ServerOptions, ListenAddress, invalid_value}
use vacps.HttpServer.Checks.{
  ieq, is_transport_owned_header, all_bytes, is_valid_header_name, is_valid_header_value,
  validate_headers, validate_response,
}
use vacps.HttpServer.Lifecycle.{
  Server, new_server, Event, listens, accepts, connection, session_ends, disposes, step, spawned,
  bind_failed, async_listen, async_close, commit, child_inc, is_closing, is_closed, begin_close,
  request_shutdown, cancel_all_sessions, cancel_each, mark_closing, try_finalize_close, child_dec,
  end_accept_loop, on_accept, accept_aborted, next_accept, track_session, drop_expired, end_session,
  end_child, wake_drain_waiters, wake_close_waiters, mark_closed, dispose,
}
use vacps.HttpServer.Lifecycle.Sound.{IsSound, IsOver}
use vacps.HttpServer.Lifecycle.Calls.{IsListened, async_listen-IsListened, Waits, async_close-Waits}
use vacps.HttpServer.Lifecycle.Closing.{
  Reach, here, next, Reach-IsSound, Completes, child_count-Completes,
}
use vacps.HttpServer.Session.{
  responds, fails, etimedout, new_box, handler_result, Round, received, session_run, Output,
}
use vacps.HttpServer.Session.Paced.{IsPaced, session_run-IsPaced}
use vacps.HttpServer.Session.Deadline.{
  box_run, timers, end_throws, end_event, own_answer, handler_result-deadline,
}

abbrev local_address : ListenAddress
local_address = record { host = b':' ∷ b':' ∷ b'1' ∷ []; port = 8080 }

abbrev listen_event : Event
listen_event = listens none (spawned local_address)

-- A server with one session.
abbrev busy_server : Server
busy_server = step (accepts (connection 1)) (step listen_event new_server)

busy_Reach : Reach new_server busy_server
unfolding step async_listen commit child_inc
busy_Reach = next (accepts (connection 1)) (next listen_event here tt) refl

-- The same, after it was asked to close.
abbrev draining_server : Server
draining_server = step disposes busy_server

closed_in_the_end :
    (step (session_ends 1) (step (accepts accept_aborted) draining_server)).phase ≡ is_closed
unfolding step async_listen commit child_inc on_accept next_accept track_session drop_expired
    dispose begin_close request_shutdown cancel_all_sessions cancel_each mark_closing
    try_finalize_close end_accept_loop child_dec end_session end_child wake_drain_waiters
    wake_close_waiters mark_closed
closed_in_the_end = refl

Reach-IsSound_example : IsSound busy_server
Reach-IsSound_example = Reach-IsSound busy_Reach

async_listen-IsListened_example :
    IsListened new_server (async_listen none (bind_failed 98) new_server)
async_listen-IsListened_example =
    async_listen-IsListened none (bind_failed 98) new_server (Reach-IsSound here)

async_close-Waits_example : Waits (async_close 5 busy_server)
async_close-Waits_example = async_close-Waits 5 busy_server Reach-IsSound_example

child_count-Completes_example :
    (t : Server) × (Completes 2 (async_close 5 busy_server).0 t × IsOver t)
unfolding step async_listen commit child_inc on_accept next_accept track_session drop_expired
    begin_close request_shutdown cancel_all_sessions cancel_each mark_closing try_finalize_close
    async_close vacps.HttpServer.Lifecycle.close_loop
    vacps.HttpServer.Lifecycle.wait_children_drained vacps.HttpServer.Lifecycle.add_drain_waiter
child_count-Completes_example =
    child_count-Completes 2 (async_close 5 busy_server).0 refl async_close-Waits_example.0

abbrev sample_request : ServerRequest
sample_request = record {
  method = b'G' ∷ b'E' ∷ b'T' ∷ [];
  target = b'/' ∷ [];
  version = 11;
  headers = [];
  body = [];
  remote_address = [];
}

abbrev sample_options : ServerOptions
sample_options = record {
  host = b':' ∷ b':' ∷ b'1' ∷ [];
  port = 0;
  max_request_bytes = 1024;
  max_header_bytes = 1024;
  max_response_bytes = 1024;
  io_timeout = pos 1000;
  handler_timeout = pos 1000;
  backlog = pos 128;
  reuse_address = true;
}

-- A response whose header value would begin another header.
abbrev split_response : ServerResponse
split_response = record {
  status = pos 200;
  headers = (b'x' ∷ [], 13 ∷ 10 ∷ b'y' ∷ []) ∷ [];
  body = [];
}

splitting_refused : validate_response split_response 1024 ≡ some invalid_value
unfolding validate_response validate_headers is_transport_owned_header ieq is_valid_header_name
    is_valid_header_value all_bytes
splitting_refused = refl

abbrev sample_round : Round
sample_round = record {
  stop_first = false;
  read = received (record { request = sample_request; keep_alive = true; is_head = false });
  stop_read = false;
  answer = responds split_response;
  stop_handled = false;
  stop_write = false;
  write_ok = true;
}

abbrev sample_output : Output
sample_output = session_run sample_options (sample_round ∷ sample_round ∷ [])

session_run-IsPaced_example :
    IsPaced sample_options
      (sample_round ∷ sample_round ∷ [])
      sample_output.written
      sample_output.handled
      sample_output.ended
session_run-IsPaced_example = session_run-IsPaced sample_options (sample_round ∷ sample_round ∷ [])

handler_result-deadline_example :
    handler_result (box_run (timers 1 ++ end_event end_throws ∷ timers 2) new_box)
    ≡ (if ltb 0 1 then fails etimedout else own_answer end_throws)
handler_result-deadline_example = handler_result-deadline 1 2 end_throws
