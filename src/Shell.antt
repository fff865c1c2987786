-- ===== src/Shell.antt =====
-- The bounded output streams of `BackgroundShell` (src/openagent_host_tools/shell_core.py): what a
-- reader of an offset gets, from a buffer that keeps the end of the output only. A stream is one of
-- stdout and stderr; bytes are numbers; `read` decodes the bytes that `slice` gives.
pub mod Output
pub mod Arguments
pub mod Jobs
pub mod Tools
pub mod Server
pub mod Access
pub mod Deltas
mod Tests
mod Scenes
use openagent_host_tools.Base.{
  ℕ, ◌+◌, ◌-◌, Bool, true, false, List, [], ◌∷◌, ◌++◌, length, drop, leb, ltb, if◌then◌else◌,
}

abbrev pub max_stream_bytes : ℕ
max_stream_bytes = 1000000

pub record Stream : Type 0 where
  pub buffer : List ℕ
  pub total : ℕ
  pub dropped : ℕ

pub record Streams : Type 0 where
  pub stdout : Stream
  pub stderr : Stream

abbrev pub empty_stream : Stream
empty_stream = record { buffer = []; total = 0; dropped = 0 }

abbrev pub init : Streams
init = record { stdout = empty_stream; stderr = empty_stream }

-- `_append`, on the stream of the chunk.
unfoldable pub extend : List ℕ → Stream → Stream
extend chunk s =
    let buffer = s.buffer ++ chunk in
    let total = s.total + length chunk in
    let extra = length buffer - max_stream_bytes in
    if ltb max_stream_bytes (length buffer)
    then record { buffer = drop extra buffer; total = total; dropped = s.dropped + extra }
    else record { buffer = buffer; total = total; dropped = s.dropped }

unfoldable pub append : List ℕ → Bool → Streams → Streams
unfolding extend
append chunk is_stderr s =
    if is_stderr
    then record s { stderr = extend chunk s.stderr }
    else record s { stdout = extend chunk s.stdout }

unfoldable pub slice : ℕ → Stream → List ℕ
slice since s = if leb s.total since then [] else drop (since - s.dropped) s.buffer

unfoldable pub read : ℕ → ℕ → Streams → List ℕ × List ℕ
unfolding slice
read since_stdout since_stderr s = (slice since_stdout s.stdout, slice since_stderr s.stderr)
