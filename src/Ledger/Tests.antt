-- ===== src/Ledger/Tests.antt =====
-- Runs of the ledger, and the theorems at them.
use openagent_host_tools.Base.{
  ℕ, ◌≡◌, ◌≢◌, refl, true, false, ok, raise, List, [], ◌∷◌, some, arith, select_one, update_where,
  delete_where, count_where, if◌then◌else◌, ◌==◌,
}
use openagent_host_tools.Ledger.{
  Row, Ledger, init, new, replay, is_key, is_mine, is_stale, new_row, take_over, claim_sync,
  complete_sync, renew_sync, abandon_sync, mark_indeterminate_sync, claim_lost, may_have_completed,
  conflict,
}
use openagent_host_tools.Ledger.Entry.{entry, IsKeyed}
use openagent_host_tools.Ledger.Keyed.{Event, claim, renew, complete, abandon, run, run-IsKeyed}
use openagent_host_tools.Ledger.Once.{at_most_once}
use openagent_host_tools.Ledger.Replay.{claim_replays}
use openagent_host_tools.Ledger.Owners.{take_over_fences, stale_claim_unmarked}

program : Unit {0}
unfolding claim_sync complete_sync renew_sync abandon_sync mark_indeterminate_sync run init is_key
    is_mine is_stale new_row take_over select_one update_where delete_where count_where
program = tt

abbrev broker : Ledger
broker = record { owner_id = "a1"; result_ttl = 86400000000; inflight_lease = 30000000 }

abbrev restarted : Ledger
restarted = record { owner_id = "b2"; result_ttl = 86400000000; inflight_lease = 30000000 }

abbrev nothing : List (Row ℕ)
nothing = []

nothing-IsKeyed : IsKeyed nothing
unfolding count_where
nothing-IsKeyed p k = omega arith

abbrev one_claim : List (Event ℕ)
one_claim = claim broker 0 "ann" "k" "f" false ∷ []

claims_run : run one_claim nothing ≡ new_row broker 0 "ann" "k" "f" ∷ []
unfolding program
claims_run = refl

one_claim-IsKeyed : IsKeyed (run one_claim nothing)
one_claim-IsKeyed = run-IsKeyed one_claim nothing nothing-IsKeyed

first_granted : (claim_sync broker 0 "ann" "k" "f" false nothing).1 ≡ ok new
unfolding program
first_granted = refl

abbrev meanwhile : List (Event ℕ)
meanwhile =
    renew broker 10 "ann" "k"
    ∷ claim restarted 40 "bob" "k" "f" true
    ∷ complete broker 50 "ann" "k" 7
    ∷ abandon restarted "bob" "k"
    ∷ []

at_most_once_example :
    (claim_sync restarted 100 "ann" "k" "g" false
      (run meanwhile (claim_sync broker 0 "ann" "k" "f" false nothing).0)).1
    ≢ ok new
at_most_once_example =
    at_most_once broker 0 "ann" "k" "f" false nothing nothing-IsKeyed first_granted 1000 meanwhile
      (omega arith, (omega arith, ((omega arith, omega arith), (refl, tt)))) restarted 100 "g"
      (omega arith)

first_row : entry "ann" "k" (run one_claim nothing) ≡ some (new_row broker 0 "ann" "k" "f")
unfolding program
first_row = refl

first_row_mine : is_mine broker (new_row {W = ℕ} broker 0 "ann" "k" "f") ≡ true
unfolding program
first_row_mine = refl

claim_replays_example :
    (claim_sync restarted 100 "ann" "k" "g" true
      (run meanwhile (complete_sync broker "ann" "k" 20 7 (run one_claim nothing)).0)).1
    ≡ (if (new_row {W = ℕ} broker 0 "ann" "k" "f").fingerprint == "g"
        then ok (replay 7)
        else raise (conflict "k"))
claim_replays_example =
    claim_replays broker 20 "ann" "k" 7 (new_row broker 0 "ann" "k" "f") (run one_claim nothing)
      one_claim-IsKeyed first_row first_row_mine 1000 meanwhile (omega arith)
      (tt, (omega arith, (tt, (tt, tt)))) restarted 100 "g" true (omega arith)

take_over_fences_example :
    let r = new_row {W = ℕ} broker 0 "ann" "k" "f" in
    let after = (claim_sync restarted 5 "ann" "k" r.fingerprint true (run one_claim nothing)).0 in
    ((claim_sync restarted 5 "ann" "k" r.fingerprint true (run one_claim nothing)).1 ≡ ok new)
    × ((later w : ℕ) → complete_sync broker "ann" "k" later w after ≡ (after, raise claim_lost))
    × ((later w : ℕ) → (complete_sync restarted "ann" "k" later w after).1 ≡ ok tt)
take_over_fences_example =
    take_over_fences broker restarted 5 "ann" "k" (new_row broker 0 "ann" "k" "f")
      (run one_claim nothing) one_claim-IsKeyed first_row first_row_mine refl

stale_claim_unmarked_example :
    let r = new_row {W = ℕ} broker 0 "ann" "k" "f" in
    (claim_sync restarted 30000001 "ann" "k" r.fingerprint false (run one_claim nothing)
      ≡ (run one_claim nothing, raise (may_have_completed "k")))
    × ((later w : ℕ)
        → (complete_sync broker "ann" "k" later w
            (claim_sync restarted 30000001 "ann" "k" r.fingerprint false
              (run one_claim nothing)).0).1
          ≡ ok tt)
unfolding program
stale_claim_unmarked_example =
    stale_claim_unmarked broker restarted 30000001 "ann" "k" (new_row broker 0 "ann" "k" "f")
      (run one_claim nothing) one_claim-IsKeyed first_row first_row_mine (omega arith)
