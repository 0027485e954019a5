-- ===== src/HttpServer/Lifecycle.antt =====
-- `Server::State` of http/server.cpp: the listener, the accept loop, the sessions it starts, and
-- the ways to close. Everything runs on the owner's executor; one event is one run of a coroutine
-- between two suspensions. A timer that a coroutine waits on is a number.
pub mod Children
pub mod Sound
pub mod Steps
pub mod Events
pub mod Calls
pub mod Closing
use vacps.Prelude.{
  ℕ, ◌+◌, ◌-◌, List, [], ◌∷◌, ◌++◌, Bool, true, false, not, ◌&&◌, ◌||◌, Option, none, some, ltb,
  ◌==◌, if◌then◌else◌,
}
use vacps.HttpServer.{ListenAddress, OptionFault}

pub data Phase : Type 0 where
  is_created is_listening is_closing is_closed : Phase

-- The acceptor: absent, open, or closed but kept.
pub data Acceptor : Type 0 where
  no_acceptor open_acceptor closed_acceptor : Acceptor

-- A session in the list of weak pointers; `live` while its coroutine runs.
pub record Child : Type 0 where
  pub id : ℕ
  pub cancelled : Bool
  pub live : Bool

-- `stop` is whether a stop was requested of `stop_source`, `woken` the timers cancelled so far.
pub record Server : Type 0 where
  pub phase : Phase
  pub acceptor : Acceptor
  pub bound : Option ListenAddress
  pub stop : Bool
  pub child_count : ℕ
  pub drain_waiters : List ℕ
  pub close_waiters : List ℕ
  pub sessions : List Child
  pub accept_loop_running : Bool
  pub woken : List ℕ

abbrev pub new_server : Server
new_server = record {
  phase = is_created;
  acceptor = no_acceptor;
  bound = none;
  stop = false;
  child_count = 0;
  drain_waiters = [];
  close_waiters = [];
  sessions = [];
  accept_loop_running = false;
  woken = [];
}

abbrev pub at_listening : Phase → Bool
at_listening is_listening = true
at_listening _ = false

abbrev pub at_closing : Phase → Bool
at_closing is_closing = true
at_closing _ = false

abbrev pub at_closed : Phase → Bool
at_closed is_closed = true
at_closed _ = false

abbrev pub is_open : Acceptor → Bool
is_open open_acceptor = true
is_open _ = false

unfoldable pub child_inc : Server → Server
child_inc s = record s { child_count = s.child_count + 1 }

unfoldable pub wake_drain_waiters : Server → Server
wake_drain_waiters s = record s { drain_waiters = []; woken = s.woken ++ s.drain_waiters }

unfoldable pub wake_close_waiters : Server → Server
wake_close_waiters s = record s { close_waiters = []; woken = s.woken ++ s.close_waiters }

unfoldable pub mark_closed : Server → Server
mark_closed s = record s { acceptor = no_acceptor; bound = none; phase = is_closed }

unfoldable pub try_finalize_close : Server → Server
try_finalize_close s =
    if not (at_closing s.phase)
    then s
    else if not (s.child_count == 0)
    then s
    else wake_close_waiters (wake_drain_waiters (mark_closed s))

unfoldable pub child_dec : Server → Server
child_dec s =
    let s₁ = record s { child_count = s.child_count - 1 } in
    if s.child_count == 0
    then s
    else if s.child_count - 1 == 0
    then try_finalize_close (wake_drain_waiters s₁)
    else s₁

unfoldable pub drop_expired : List Child → List Child
drop_expired [] = []
drop_expired (c ∷ cs) = let rest = drop_expired cs in if c.live then c ∷ rest else rest

unfoldable pub track_session : Child → Server → Server
track_session c s = record s { sessions = drop_expired s.sessions ++ c ∷ [] }

abbrev pub shut : Acceptor → Acceptor
shut no_acceptor = no_acceptor
shut _ = closed_acceptor

unfoldable pub request_shutdown : Server → Server
request_shutdown s = record s { stop = true; acceptor = shut s.acceptor }

-- `Session::cancel` of the sessions that are still there.
unfoldable pub cancel_each : List Child → List Child
cancel_each [] = []
cancel_each (c ∷ cs) = (if c.live then record c { cancelled = true } else c) ∷ cancel_each cs

unfoldable pub cancel_all_sessions : Server → Server
cancel_all_sessions s = record s { sessions = cancel_each s.sessions }

unfoldable pub mark_closing : Server → Server
mark_closing s = record s { phase = is_closing }

abbrev pub close_from : Phase → Server → Server
close_from is_closed s = s
close_from is_created s = wake_close_waiters (record s { phase = is_closed })
close_from is_listening s =
    try_finalize_close (cancel_all_sessions (request_shutdown (mark_closing s)))
close_from is_closing s = try_finalize_close (cancel_all_sessions (request_shutdown s))

unfoldable pub begin_close : Server → Server
begin_close s = close_from s.phase s

-- What the system and the executor do in `async_listen`, behind the checks of the phase and the
-- options: a call fails with a code, the accept loop cannot be spawned, or it is.
pub data Setup : Type 0 where
  invalid_host open_failed option_failed bind_failed listen_failed endpoint_failed : ℕ → Setup
  spawn_failed spawned : ListenAddress → Setup

pub data ListenResult : Type 0 where
  already_listening closing closed : ListenResult
  bad_options : OptionFault → ListenResult
  system_failed : ℕ → ListenResult
  not_spawned : ListenResult
  listens_on : ListenAddress → ListenResult

-- The commit of a bound acceptor.
unfoldable pub commit : ListenAddress → Server → Server
commit address s = child_inc (record s {
  bound = some address;
  acceptor = open_acceptor;
  phase = is_listening;
  accept_loop_running = true;
})

unfoldable pub roll_back : Server → Server
roll_back s = child_dec (record s {
  accept_loop_running = false;
  acceptor = no_acceptor;
  bound = none;
  phase = is_created;
})

abbrev pub set_up : Setup → Server → Server × ListenResult
set_up (invalid_host code) s = (s, system_failed code)
set_up (open_failed code) s = (s, system_failed code)
set_up (option_failed code) s = (s, system_failed code)
set_up (bind_failed code) s = (s, system_failed code)
set_up (listen_failed code) s = (s, system_failed code)
set_up (endpoint_failed code) s = (s, system_failed code)
set_up (spawn_failed address) s = (roll_back (commit address s), not_spawned)
set_up (spawned address) s = (commit address s, listens_on address)

abbrev pub listen_checked : Option OptionFault → Setup → Server → Server × ListenResult
listen_checked (some fault) setup s = (s, bad_options fault)
listen_checked none setup s = set_up setup s

abbrev pub listen_from : Phase → Option OptionFault → Setup → Server → Server × ListenResult
listen_from is_listening fault setup s = (s, already_listening)
listen_from is_closing fault setup s = (s, closing)
listen_from is_closed fault setup s = (s, closed)
listen_from is_created fault setup s = listen_checked fault setup s

-- The options' fault, if any, is what `validate_options` found.
unfoldable pub async_listen : Option OptionFault → Setup → Server → Server × ListenResult
async_listen fault setup s = listen_from s.phase fault setup s

-- The destructor of `Dec`, when the accept loop ends.
unfoldable pub end_accept_loop : Server → Server
end_accept_loop s =
    let s₁ = record s { accept_loop_running = false } in
    child_dec (if at_listening s.phase then begin_close s₁ else s₁)

-- The test of the accept loop, after which it waits for a connection or ends.
unfoldable pub next_accept : Server → Server
next_accept s = if at_listening s.phase && is_open s.acceptor then s else end_accept_loop s

-- What wakes the accept loop: its start, an error, a connection whose session is spawned or is
-- not, or an exception before the session counts.
pub data Accepted : Type 0 where
  started accept_aborted accept_error throws : Accepted
  connection spawn_error : ℕ → Accepted

abbrev pub new_child : ℕ → Child
new_child id = record { id = id; cancelled = false; live = true }

-- Of a session whose coroutine was not spawned: it is cancelled, and gone with the scope.
abbrev pub lost_child : ℕ → Child
lost_child id = record { id = id; cancelled = true; live = false }

abbrev pub close_if_listening : Server → Server
close_if_listening s = if at_listening s.phase then begin_close s else s

unfoldable pub on_accept : Accepted → Server → Server
on_accept started s = next_accept s
on_accept accept_aborted s = end_accept_loop s
on_accept accept_error s =
    if not (at_listening s.phase) || s.stop
    then end_accept_loop s
    else end_accept_loop (begin_close s)
on_accept throws s = end_accept_loop (close_if_listening s)
on_accept (connection id) s =
    if not (at_listening s.phase)
    then end_accept_loop s
    else next_accept (child_inc (track_session (new_child id) s))
on_accept (spawn_error id) s =
    if not (at_listening s.phase)
    then end_accept_loop s
    else next_accept (child_dec (child_inc (track_session (lost_child id) s)))

-- The session of an id is over.
unfoldable pub end_child : ℕ → List Child → List Child
end_child id [] = []
end_child id (c ∷ cs) =
    let rest = end_child id cs in
    if c.live && c.id == id then record c { live = false } ∷ cs else c ∷ rest

unfoldable pub end_session : ℕ → Server → Server
end_session id s = child_dec (record s { sessions = end_child id s.sessions })

-- Where a call of `async_close` stands: in `wait_children_drained`, in `wait_close_complete`, or
-- returned. Its timer's number stays the same.
pub data Closer : Type 0 where
  draining completing returned : Closer

unfoldable pub add_drain_waiter : ℕ → Server → Server
add_drain_waiter gate s = record s { drain_waiters = s.drain_waiters ++ gate ∷ [] }

unfoldable pub add_close_waiter : ℕ → Server → Server
add_close_waiter gate s = record s { close_waiters = s.close_waiters ++ gate ∷ [] }

unfoldable pub wait_close_complete : ℕ → Server → Server × Closer
wait_close_complete gate s =
    if at_closed s.phase then (s, returned) else (add_close_waiter gate s, completing)

-- `wait_children_drained` and what follows it in the loop of `close_impl`.
unfoldable pub wait_children_drained : ℕ → Server → Server × Closer
wait_children_drained gate s =
    if ltb 0 s.child_count
    then (add_drain_waiter gate s, draining)
    else wait_close_complete gate (try_finalize_close s)

-- The loop of `close_impl`; without children its first branch does what the second does.
unfoldable pub close_loop : ℕ → Server → Server × Closer
close_loop gate s = if at_closed s.phase then (s, returned) else wait_children_drained gate s

unfoldable pub async_close : ℕ → Server → Server × Closer
async_close gate s = if at_closed s.phase then (s, returned) else close_loop gate (begin_close s)

-- A closer whose timer was cancelled runs on.
unfoldable pub resume : ℕ → Closer → Server → Server × Closer
resume gate draining s = wait_children_drained gate s
resume gate completing s = wait_close_complete gate s
resume gate returned s = (s, returned)

-- What `dispose` posts.
unfoldable pub dispose : Server → Server
dispose s = if at_closed s.phase then s else begin_close s

unfoldable pub listening : Server → Bool
listening s = at_listening s.phase

unfoldable pub address : Server → Option ListenAddress
address s = if at_listening s.phase then s.bound else none

pub data Event : Type 0 where
  listens : Option OptionFault → Setup → Event
  accepts : Accepted → Event
  session_ends closes : ℕ → Event
  resumes : ℕ → Closer → Event
  disposes : Event

unfoldable pub step : Event → Server → Server
step (listens fault setup) s = (async_listen fault setup s).0
step (accepts what) s = on_accept what s
step (session_ends id) s = end_session id s
step (closes gate) s = (async_close gate s).0
step (resumes gate closer) s = (resume gate closer s).0
step disposes s = dispose s
