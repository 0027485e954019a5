-- ===== src/Lib.antt =====
-- The native agent of apps/vacps-native/src, verified in part.
--
-- The agent is one executor thread that runs JavaScript modules over native components. Modelled:
--
-- Child processes, apps/vacps-native/src/process. Process/Budget is the shared budget
-- (budget.cpp), with the compare-exchange loops run against the values that other threads leave;
-- Process/State the data of `Process::State`; Process/Capture is `append_capture` and
-- `clear_buffers`; Process/Reading is `collect`, `has_unread`, `snapshot`; Process/Lifecycle is
-- `try_finish`, `begin_close`, `finalize_close`, and Process/Lifecycle/Control `start`,
-- `terminate`, `async_close` and the handlers that `start` leaves on the executor; Process/Waiting
-- is `wait`, whose suspension is a pair of worlds. One event of the executor is one step, since all
-- of this runs on the owner's executor.
--
-- The queue of file operations, apps/vacps-native/src/modules/detail/file_operation_queue.hpp:
-- FileQueue has `async_acquire`, `release`, `cancel_waiter` and the stop callback as functions on
-- the queue and the executor's posted work; its children have what holds over any events.
--
-- The command line, apps/vacps-native/src/host/command_line.cpp: CommandLine/Numbers has the number
-- parsers, CommandLine/Parser `parse_command_line` with one function for each option. The loop is
-- by recursion on the arguments; the index that `require_value` advances is a flag that skips the
-- next argument. The usage text is not modelled.
--
-- Files, apps/vacps-native/src/fs: File/Modes is open_options.cpp, File/Ranges the checks of
-- offsets in file.cpp, File/Reading `read` and `read_at` through a descriptor, over a list of what
-- pread(2) answers. The bytes of the file are fixed during a read. Writes, opening and the Asio back
-- end are not modelled.
--
-- The HTTP server, apps/vacps-native/src/http/server.cpp: HttpServer/Checks has the checks of
-- options and responses, HttpServer/Lifecycle `Server::State` as steps of the owner's executor (the
-- accept loop, the ends of sessions, listen, close, dispose), HttpServer/Session `Session::run` over
-- what the stream, the clock and the handler answer in each pass. Beast and Asio are outcomes.
--
-- Encodings, apps/vacps-native/src/crypto/crypto.cpp: Crypto/Hex is `to_hex` and `from_hex`,
-- Crypto/Base64 base64 and base64url text over OpenSSL's block functions, which are parameters;
-- Crypto/Blocks are block functions by RFC 4648 that satisfy what is asked of them. Digests,
-- signatures and key derivation only call OpenSSL and are not modelled.
--
-- The text decoder, apps/vacps-native/src/text/decoder.cpp: TextDecoder/Convert converts a segment,
-- TextDecoder/Decode is `Decoder::decode` with the bytes that it holds back, `parse_encoding_label`
-- and `create` are in TextDecoder. The functions of simdutf are the record `Simdutf`, a parameter;
-- TextDecoder/Ascii is an instance. The loop over invalid UTF-8 has the input's length as fuel.
--
-- The store, apps/vacps-native/src/storage: Store/Statement has `Statement` and the one-statement
-- calls of `Database`, Store/Transaction `with_transaction` and `Store`. The functions of SQLite are
-- the record `Sqlite`, a parameter, over a connection of its own; what it documents of transactions
-- is Store/Open's `IsTransactional`, and Store/Counter is an instance. Store/Performed describes the
-- work of a transaction by its calls of SQLite alone. The loop over the rows has one more round than
-- rows are asked for.
--
-- Strings are lists of bytes. `size_t` and `uint64_t` are numbers with their wrap-around written
-- out where the code adds to them. The system's answers (a launch, a read, an exit) are arguments
-- of the steps, and calls of the system (kill, cancel, wake) are recorded in order in `World`.
-- A coroutine that fails to be spawned after the child was launched is not modelled.
--
-- Not modelled: the HTTP client and the terminal; URLs, whose parsing is a library's; the runtime
-- with its engine, the bindings and the JavaScript modules over the components above, but for the
-- queue of file operations; the application's start and stop behind its command line; logging.
pub mod CommandLine
pub mod Crypto
pub mod File
pub mod FileQueue
pub mod HttpServer
pub mod Prelude
pub mod Process
pub mod Store
pub mod TextDecoder
