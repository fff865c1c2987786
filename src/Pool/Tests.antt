-- ===== src/Pool/Tests.antt =====
-- Two accounts whose keys have one digest.
use openagent_host_tools.Base.{
  ℕ, ◌≡◌, refl, Bool, true, none, List, [], ◌∷◌, Value, int, str, obj, end, field, pos, ok, crash,
}
use openagent_host_tools.Pool.{init, key_of}
use openagent_host_tools.Pool.Isolation.{IsIsolated}
use openagent_host_tools.Pool.Histories.{Action, obtains, releases, reports, run, run-IsIsolated}

abbrev free : ℕ → Bool
free p = true

abbrev calls : List Action
calls =
    obtains "ann" "A" free 5 (ok _)
    ∷ obtains "bob" "B" free 5 (crash "OSError")
    ∷ obtains "ann-2" "A" free 5 (ok _)
    ∷ releases "ann"
    ∷ reports "B" 1 true none
    ∷ []

ports_lem : (run calls init).ports ≡ ("A", 28005) ∷ ("B", 28006) ∷ []
unfolding run
ports_lem = refl

-- When the last principal of an account has left, its port is free for the next.
again_lem :
    (run (releases "ann-2" ∷ obtains "cat" "C" free 5 (ok _) ∷ []) (run calls init)).ports
    ≡ ("B", 28006) ∷ ("C", 28005) ∷ []
unfolding run
again_lem = refl

run-IsIsolated_example : IsIsolated (run calls init)
run-IsIsolated_example = run-IsIsolated calls

abbrev ids : Value
ids = obj (field "account_id" (str " ann ") (field "network_id" (int (pos 7)) end))

key_lem : key_of (λ v. "7") (λ account network. account) ids ≡ ok "ann"
unfolding key_of
key_lem = refl
