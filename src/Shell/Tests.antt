-- ===== src/Shell/Tests.antt =====
-- Runs of the output streams.
use openagent_host_tools.Base.{
  ℕ, ◌+◌, ◌-◌, ◌≤◌, max, ◌≡◌, refl, Bool, true, false, List, [], ◌∷◌, length, drop,
}
use openagent_host_tools.Shell.{append, init, max_stream_bytes, read}
use openagent_host_tools.Shell.Output.{append_all, written, read-written, buffers-bounded}

abbrev chunks : List (List ℕ × Bool)
chunks = (104 ∷ 105 ∷ [], false) ∷ (33 ∷ [], true) ∷ (10 ∷ 107 ∷ [], false) ∷ []

reads_from_offsets : read 1 0 (append_all chunks init) ≡ (105 ∷ 10 ∷ 107 ∷ [], 33 ∷ [])
unfolding read append_all append
reads_from_offsets = refl

read-written_example : read 1 5 (append_all chunks init) ≡ (
  drop (max 1 (length (written false chunks) - max_stream_bytes)) (written false chunks),
  drop (max 5 (length (written true chunks) - max_stream_bytes)) (written true chunks),
)
read-written_example = read-written chunks 1 5

buffers-bounded_example :
    (length (append_all chunks init).stdout.buffer ≤ max_stream_bytes)
    × (length (append_all chunks init).stderr.buffer ≤ max_stream_bytes)
    × ((append_all chunks init).stdout.dropped + length (append_all chunks init).stdout.buffer ≡ 4)
    × ((append_all chunks init).stderr.dropped + length (append_all chunks init).stderr.buffer ≡ 1)
buffers-bounded_example = buffers-bounded chunks
