-- ===== src/Audit/Tests.antt =====
-- Readings of a small audit log.
use openagent_host_tools.Base.{ℕ, ◌≡◌, refl, none, some, false, List, [], ◌∷◌, take, pos, negsuc}
use mathlib.Core.List.{reverse}
use openagent_host_tools.Audit.{Entry, empty, append, recent}
use openagent_host_tools.Audit.Order.{append_all, seqs, down_from, window, AllTell, recent-newest}

abbrev denied_call : Entry
denied_call = record {
  call_id = "c1";
  principal = "ann";
  server = "shell";
  tool = "exec";
  classification = none;
  outcome = "denied";
  argument_keys = "cwd" ∷ "command" ∷ [];
  duration_ms = none;
  error_code = some "consent_required";
  replayed = false;
  arguments_sha256 = some "00";
}

abbrev history : List (ℕ × Entry)
history = (10, denied_call) ∷ (20, denied_call) ∷ (30, denied_call) ∷ []

one_row_at_least : seqs (recent (negsuc 4) (append_all history empty)) ≡ 3 ∷ []
unfolding recent append_all append
one_row_at_least = refl

recent-newest_example :
    let rows = recent (pos 2) (append_all history empty) in
    (seqs rows ≡ take (window (pos 2)) (down_from 3))
    × AllTell (take (window (pos 2)) (reverse history)) rows
recent-newest_example = recent-newest history (pos 2)
