-- ===== src/Process/Reading/Session.antt =====
-- A reader beside the drain coroutines: any order of reads from the pipes and of `Process::read`
-- calls in which each call passes the cursor that the call before it returned.
use vacps.Prelude.{
  ℕ, ◌+◌, ◌≤◌, ◌<◌, ◌≡◌, refl, ap, ◌∙◌, sym, Bool, List, [], ◌∷◌, ◌++◌, append_assoc, Option, some,
  ◌>>=◌, arith, length, inr,
}
use vacps.Process.Budget.{u64_mod, ProcessBudget}
use vacps.Process.State.{Bytes, ProcessStream, stdout, stderr, StartOptions, World, new_process}
use vacps.Process.Capture.{acc_of, append_capture}
use vacps.Process.Reading.{OutputCursor, ReadOptions, ReadResult, collect}
use vacps.Process.Reading.Log.{Log, tag, remaining, delivered, StandsBefore}
use vacps.Process.Reading.Exact.{IsStored, collect-exact}
use vacps.Process.Reading.Appends.{Grew, of_stream}
use vacps.Process.Reading.Capturing.{kept_of, append_capture-Grew_kept}

pub data Act : Type 0 where
  drained : ProcessStream → Bytes → ℕ → Act
  asked : ℕ → Act

pub record Reader : Type 0 where
  pub world : World
  pub cursor : OutputCursor
  pub got : Log

abbrev pub options_of : Reader → ℕ → ReadOptions
options_of r max_bytes = record { cursor = r.cursor; max_bytes = max_bytes; wait = 0 }

abbrev pub handed : Reader → ReadResult → Reader
handed r result = record r { cursor = result.next_cursor; got = r.got ++ delivered result.chunks }

unfoldable pub act : Reader → Act → Option Reader
act r (drained s bytes now) = some (record r { world = append_capture s bytes now r.world })
act r (asked max_bytes) =
    collect r.world (options_of r max_bytes) >>= λ result. some (handed r result)

unfoldable pub session : Reader → List Act → Option Reader
session r [] = some r
session r (a ∷ acts) = act r a >>= λ r'. session r' acts

-- The bytes that one stream has in the log.
abbrev pub project : ProcessStream → Log → Bytes
project t [] = []
project t ((s, b) ∷ l) = of_stream t s (b ∷ []) ++ project t l

project-append : (t : ProcessStream) (l m : Log) → project t (l ++ m) ≡ project t l ++ project t m
project-append t [] m = refl
project-append t ((s, b) ∷ l) m =
    ap (◌++◌ (of_stream t s (b ∷ []))) (project-append t l m)
    ∙ sym (append_assoc (of_stream t s (b ∷ [])) (project t l) (project t m))

project-tag : (t s : ProcessStream) (bs : List ℕ) → project t (tag s bs) ≡ of_stream t s bs
project-tag stdout stdout [] = refl
project-tag stdout stderr [] = refl
project-tag stderr stdout [] = refl
project-tag stderr stderr [] = refl
project-tag stdout stdout (b ∷ bs) = ap (◌∷◌ b) (project-tag stdout stdout bs)
project-tag stderr stderr (b ∷ bs) = ap (◌∷◌ b) (project-tag stderr stderr bs)
project-tag stdout stderr (b ∷ bs) = project-tag stdout stderr bs
project-tag stderr stdout (b ∷ bs) = project-tag stderr stdout bs

-- The cursor of `OutputCursor{}`, before all output.
abbrev pub from_start : OutputCursor
from_start = record { sequence = 1; byte_offset = 0 }

abbrev pub whole_log : World → Log
whole_log w = remaining w.capture from_start w.chunks

-- The reader has everything up to its cursor, and each buffer is its stream's part of the log.
pub record IsFollowing (r : Reader) : Type 0 where
  pub stored : IsStored r.world.capture
  pub started : StandsBefore from_start r.world.next_sequence
  pub placed : StandsBefore r.cursor r.world.next_sequence
  pub all_read : r.got ++ remaining r.world.capture r.cursor r.world.chunks ≡ whole_log r.world
  pub streams : (t : ProcessStream) → project t (whole_log r.world) ≡ acc_of t r.world.capture

StandsBefore-mono :
    (cursor : OutputCursor) (m n : ℕ) → StandsBefore cursor m → m ≤ n → StandsBefore cursor n
StandsBefore-mono cursor m n b h = ground arith

drained-IsFollowing :
    (r : Reader) (s : ProcessStream) (bytes : Bytes) (now : ℕ)
    → r.world.next_sequence + 1 < u64_mod
    → IsFollowing r
    → IsFollowing (record r { world = append_capture s bytes now r.world })
drained-IsFollowing r s bytes now h f =
    let w' : World = append_capture s bytes now r.world in
    let kept : List ℕ = kept_of s bytes r.world in
    let g : Grew r.world.capture w'.capture s kept =
      append_capture-Grew_kept s bytes now r.world h in
    let whole : whole_log w' ≡ whole_log r.world ++ tag s kept =
      g.log f.stored from_start f.started in
    record {
      stored = g.stored f.stored;
      started =
          StandsBefore-mono from_start r.world.next_sequence w'.next_sequence f.started g.next.0;
      placed = StandsBefore-mono r.cursor r.world.next_sequence w'.next_sequence f.placed g.next.0;
      all_read =
          ap (◌++◌ r.got) (g.log f.stored r.cursor f.placed)
          ∙ sym (append_assoc r.got _ (tag s kept))
          ∙ ap (λ l. l ++ tag s kept) f.all_read
          ∙ sym whole;
      streams = λ t.
          ap (project t) whole
          ∙ project-append t (whole_log r.world) (tag s kept)
          ∙ ap (λ l. l ++ project t (tag s kept)) (f.streams t)
          ∙ ap (◌++◌ (acc_of t r.world.capture)) (project-tag t s kept)
          ∙ sym (g.accs t);
    }

-- One act: it succeeds, the reader keeps following, and at most one chunk number is used.
act-IsFollowing :
    (r : Reader) (a : Act)
    → r.world.next_sequence + 1 < u64_mod
    → IsFollowing r
    → (r' : Reader) × (act r a ≡ some r')
      × IsFollowing r'
      × (r'.world.next_sequence ≤ r.world.next_sequence + 1)
unfolding act
act-IsFollowing r (drained s bytes now) h f = (
  record r { world = append_capture s bytes now r.world },
  refl,
  drained-IsFollowing r s bytes now h f,
  (append_capture-Grew_kept s bytes now r.world h).next.1,
)
act-IsFollowing r (asked max_bytes) h f =
    let (result, e, q) = collect-exact r.world (options_of r max_bytes) f.stored in
    (
      handed r result,
      rw e,
      record {
        stored = f.stored;
        started = f.started;
        placed = q.placed f.placed;
        all_read =
            append_assoc r.got (delivered result.chunks) _ ∙ ap (◌++◌ r.got) q.kept ∙ f.all_read;
        streams = f.streams;
      },
      omega arith,
    )

-- From a reader that follows, any acts succeed, and it follows still, while the chunk numbers
-- cannot wrap.
pub session-IsFollowing :
    (r : Reader) (acts : List Act)
    → r.world.next_sequence + length acts < u64_mod
    → IsFollowing r
    → (r' : Reader) × (session r acts ≡ some r') × IsFollowing r'
unfolding session
session-IsFollowing r [] h f = (r, refl, f)
session-IsFollowing r (a ∷ acts) h f =
    let (r₁, e, g, n) = act-IsFollowing r a (omega arith) f in
    let (r₂, e₂, g₂) = session-IsFollowing r₁ acts (omega (arith, n)) g in (r₂, rw e e₂, g₂)

abbrev pub new_reader : World → Reader
new_reader w = record { world = w; cursor = from_start; got = [] }

abbrev pub fresh_world : Bool → StartOptions → ProcessBudget → World
fresh_world has_budget opts b = record {
  st = new_process has_budget opts;
  budget = b;
  effects = [];
}

new_reader-IsFollowing :
    (has_budget : Bool) (opts : StartOptions) (b : ProcessBudget)
    → IsFollowing (new_reader (fresh_world has_budget opts b))
unfolding new_process remaining
new_reader-IsFollowing has_budget opts b = record {
  stored = record { first = 1; stored = refl };
  started = inr (refl, refl);
  placed = inr (refl, refl);
  all_read = refl;
  streams = elim [ stdout ↦ refl | stderr ↦ refl ];
}

-- For a new process, and any interleaving of at most 2^64 - 2 pipe reads and `read` calls: no call
-- throws; what the reader got, in order, followed by what its cursor still has before it, is the
-- whole log, with no byte lost or repeated; and each buffer is its stream's part of that log.
pub session-lossless :
    (has_budget : Bool) (opts : StartOptions) (b : ProcessBudget) (acts : List Act)
    → 1 + length acts < u64_mod
    → (r : Reader) × (session (new_reader (fresh_world has_budget opts b)) acts ≡ some r)
      × (r.got ++ remaining r.world.capture r.cursor r.world.chunks ≡ whole_log r.world)
      × ((t : ProcessStream) → project t (whole_log r.world) ≡ acc_of t r.world.capture)
session-lossless has_budget opts b acts h =
    let (r, e, f) =
      session-IsFollowing (new_reader (fresh_world has_budget opts b)) acts
        (unfold new_process in omega arith) (new_reader-IsFollowing has_budget opts b) in
    (r, e, f.all_read, f.streams)
