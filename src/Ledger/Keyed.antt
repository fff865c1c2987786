-- ===== src/Ledger/Keyed.antt =====
-- Histories of the ledger, by any number of owners, and the primary key of its table.
use openagent_host_tools.Base.{
  ℕ, ◌+◌, String, Bool, ◌≡◌, refl, Option, none, some, List, [], ◌∷◌, ◌++◌, eq_iff, arith, Outcome,
  ok, raise, crash, settle, update_where, delete_where, count_where, count_where-update_where,
  count_where-delete_where-le, count_where-append, count_where-none,
}
use openagent_host_tools.Ledger.{
  Row, Ledger, indeterminate, is_key, is_stale, new_row, take_over, claim_row, claim_sync, my_row,
  renew_sync, completed, complete_sync, abandon_sync, mark_indeterminate_sync,
}
use openagent_host_tools.Ledger.Entry.{entry, IsKeyed}

-- A transaction of some process, with the ledger object that makes it and its time.
pub data Event (W : Type 0) : Type 0 where
  claim : Ledger → ℕ → String → String → String → Bool → Event W
  renew : Ledger → ℕ → String → String → Event W
  complete : Ledger → ℕ → String → String → W → Event W
  abandon : Ledger → String → String → Event W
  mark_indeterminate : Ledger → ℕ → String → String → Event W

module _ {W : Type 0} where
  unfoldable pub step : Event W → List (Row W) → List (Row W)
  step (claim g now p k fingerprint retry_stale) rows =
      (claim_sync g now p k fingerprint retry_stale rows).0
  step (renew g now p k) rows = (renew_sync g p k now rows).0
  step (complete g now p k w) rows = (complete_sync g p k now w rows).0
  step (abandon g p k) rows = abandon_sync g p k rows
  step (mark_indeterminate g now p k) rows = mark_indeterminate_sync g p k now rows

  unfoldable pub run : List (Event W) → List (Row W) → List (Row W)
  unfolding step
  run [] rows = rows
  run (e ∷ es) rows = run es (step e rows)

  update_where-IsKeyed :
      (test : Row W → Bool) (f : Row W → Row W) (rows : List (Row W))
      → ((p k : String) (r : Row W) → is_key p k (f r) ≡ is_key p k r)
      → IsKeyed rows
      → IsKeyed (update_where test f rows)
  update_where-IsKeyed test f rows keeps keyed p k =
      omega (arith, keyed p k, count_where-update_where (is_key p k) test f rows (keeps p k))

  delete_where-IsKeyed :
      (test : Row W → Bool) (rows : List (Row W)) → IsKeyed rows → IsKeyed (delete_where test rows)
  delete_where-IsKeyed test rows keyed p k =
      omega (arith, keyed p k, count_where-delete_where-le (is_key p k) test rows)

  insert-IsKeyed :
      (g : Ledger) (now : ℕ) (p k fingerprint : String) (rows : List (Row W))
      → entry p k rows ≡ none
      → IsKeyed rows
      → IsKeyed (rows ++ new_row g now p k fingerprint ∷ [])
  unfolding count_where is_key new_row
  insert-IsKeyed g now p k fingerprint rows absent keyed p' k' = ground (
    arith,
    keyed p' k',
    count_where-append (is_key p' k') rows (new_row g now p k fingerprint ∷ []),
    count_where-none (is_key p k) rows,
    eq_iff p p',
    eq_iff k k',
  )

  claim_row-IsKeyed :
      (g : Ledger) (now : ℕ) (p k fingerprint : String) (retry_stale : Bool) (rows : List (Row W))
      (o : Option (Row W))
      → entry p k rows ≡ o
      → IsKeyed rows
      → IsKeyed (claim_row g now p k fingerprint retry_stale o rows).0
  unfolding claim_row
  claim_row-IsKeyed g now p k fingerprint retry_stale rows none e keyed p' k' =
      insert-IsKeyed g now p k fingerprint rows e keyed p' k'
  claim_row-IsKeyed g now p k fingerprint retry_stale rows (some r) e keyed p' k' = ground (
    arith,
    keyed p' k',
    update_where-IsKeyed (is_key p k) (take_over g now) rows
        (unfold is_key take_over in λ p'' k'' s. refl) keyed p' k',
    update_where-IsKeyed (is_key p k) (λ s. record s { state = indeterminate; updated_at = now })
        rows (unfold is_key in λ p'' k'' s. refl) keyed p' k',
  )

  settle-IsKeyed :
      {A : Type 0} (old after : List (Row W)) (r : Outcome A)
      → IsKeyed old
      → IsKeyed after
      → IsKeyed (settle old (after, r)).0
  settle-IsKeyed old after (ok a) kept changed = changed
  settle-IsKeyed old after (raise e) kept changed = kept
  settle-IsKeyed old after (crash t) kept changed = kept

  pub step-IsKeyed : (e : Event W) (rows : List (Row W)) → IsKeyed rows → IsKeyed (step e rows)
  unfolding step claim_sync renew_sync complete_sync abandon_sync mark_indeterminate_sync is_key
  step-IsKeyed (claim g now p k fingerprint retry_stale) rows keyed =
      let kept = delete_where (is_stale now) rows in
      let o = entry p k kept in
      let r = claim_row g now p k fingerprint retry_stale o kept in
      settle-IsKeyed rows r.0 r.1 keyed (
        claim_row-IsKeyed g now p k fingerprint retry_stale kept o refl
          (delete_where-IsKeyed (is_stale now) rows keyed))
  step-IsKeyed (renew g now p k) rows keyed =
      update_where-IsKeyed (my_row g p k)
        (λ r. record r { lease_until = some (now + g.inflight_lease); updated_at = now }) rows
        (λ p' k' r. refl) keyed
  step-IsKeyed (complete g now p k w) rows keyed =
      settle-IsKeyed rows _ _ keyed
        (update_where-IsKeyed (my_row g p k) (completed g p k now w) rows (λ p' k' r. refl) keyed)
  step-IsKeyed (abandon g p k) rows keyed = delete_where-IsKeyed (my_row g p k) rows keyed
  step-IsKeyed (mark_indeterminate g now p k) rows keyed =
      update_where-IsKeyed (my_row g p k)
        (λ r. record r { state = indeterminate; updated_at = now; lease_until = none }) rows
        (λ p' k' r. refl) keyed

  -- No history breaks the primary key: there is at most one row for a principal and a key.
  pub run-IsKeyed :
      (es : List (Event W)) (rows : List (Row W)) → IsKeyed rows → IsKeyed (run es rows)
  unfolding run
  run-IsKeyed [] rows keyed = keyed
  run-IsKeyed (e ∷ es) rows keyed = run-IsKeyed es (step e rows) (step-IsKeyed e rows keyed)
