-- ===== src/Ledger/Once.antt =====
-- At most one execution: what a key's row allows while its record lasts.
use openagent_host_tools.Base.{
  ℕ, ◌+◌, ◌≤◌, ◌<◌, String, Bool, true, false, ◌&&◌, ◌≡◌, ◌≢◌, refl, sym, ◌∙◌, Option, none, some,
  List, [], ◌∷◌, ◌++◌, ◌==◌, arith, Outcome, ok, raise, crash, settle, update_where, delete_where,
  select_one, select_one-update_where, select_one-delete_where, select_one-append, updated, spared,
  either_row, All,
}
use openagent_host_tools.Ledger.{
  Row, Ledger, new, indeterminate, is_done, is_key, is_stale, new_row, take_over, claim_row,
  claim_sync, my_row, renew_sync, completed, complete_sync, mark_indeterminate_sync,
}
use openagent_host_tools.Ledger.Entry.{entry, IsKeyed, entry-abandon_other}
use openagent_host_tools.Ledger.Claims.{claimed, verdict, claim_row-cases, entry-claim_sync}
use openagent_host_tools.Ledger.Keyed.{
  Event, claim, renew, complete, abandon, mark_indeterminate, step, run, step-IsKeyed, run-IsKeyed,
}

module _ {W : Type 0} where
  -- The row is there, and a result that it holds is kept beyond the horizon.
  abbrev IsKept : ℕ → Option (Row W) → Type 0
  IsKept horizon none = ⊥
  IsKept horizon (some r) = is_done r.state ≡ true → horizon < r.expires_at

  -- An event up to the horizon, whose record of a result lasts beyond it, and which is not the
  -- abandonment of this key.
  abbrev pub Within : ℕ → String → String → Event W → Type 0
  Within horizon p k (claim g now p' k' fingerprint retry_stale) = now ≤ horizon
  Within horizon p k (renew g now p' k') = now ≤ horizon
  Within horizon p k (complete g now p' k' w) = (now ≤ horizon) × (horizon < now + g.result_ttl)
  Within horizon p k (abandon g p' k') = (p == p' && k == k') ≡ false
  Within horizon p k (mark_indeterminate g now p' k') = now ≤ horizon

  module _ (horizon : ℕ) (p k : String) where
    update_where-IsKept :
        (test : Row W → Bool) (f : Row W → Row W) (rows : List (Row W))
        → ((r : Row W) → is_key p k (f r) ≡ is_key p k r)
        → ((r : Row W) → IsKept horizon (some r) → IsKept horizon (some (f r)))
        → IsKept horizon (entry p k rows)
        → IsKept horizon (entry p k (update_where test f rows))
    update_where-IsKept test f rows same keeps h =
        rw (select_one-update_where (is_key p k) test f rows same)
          (updated-IsKept (entry p k rows) h)
      where
        updated-IsKept : (o : Option (Row W)) → IsKept horizon o → IsKept horizon (updated test f o)
        updated-IsKept none h' = h'
        updated-IsKept (some r) h' = ground (arith, keeps r h')

    -- The purge of stale results passes the row over.
    purge-IsKept :
        (now : ℕ) (rows : List (Row W))
        → IsKeyed rows
        → now ≤ horizon
        → IsKept horizon (entry p k rows)
        → IsKept horizon (entry p k (delete_where (is_stale now) rows))
    unfolding is_stale
    purge-IsKept now rows keyed early h =
        rw (select_one-delete_where (is_key p k) (is_stale now) rows (keyed p k))
          (spared-IsKept (entry p k rows) h)
      where
        spared-IsKept :
            (o : Option (Row W)) → IsKept horizon o → IsKept horizon (spared (is_stale now) o)
        spared-IsKept none h' = h'
        spared-IsKept (some r) h' = ground arith

    append-IsKept :
        (rows : List (Row W)) (r : Row W)
        → IsKept horizon (entry p k rows)
        → IsKept horizon (entry p k (rows ++ r ∷ []))
    append-IsKept rows r h =
        rw (select_one-append (is_key p k) rows (r ∷ []))
          (either-IsKept (entry p k rows) (select_one (is_key p k) (r ∷ [])) h)
      where
        either-IsKept :
            (o o' : Option (Row W)) → IsKept horizon o → IsKept horizon (either_row o o')
        either-IsKept none o' h' = absurd h'
        either-IsKept (some x) o' h' = h'

    claim_row-IsKept :
        (g : Ledger) (now : ℕ) (p' k' fingerprint : String) (retry_stale : Bool)
        (o : Option (Row W)) (rows : List (Row W))
        → IsKept horizon (entry p k rows)
        → IsKept horizon (entry p k (claim_row g now p' k' fingerprint retry_stale o rows).0)
    unfolding claim_row is_key take_over
    claim_row-IsKept g now p' k' fingerprint retry_stale none rows h =
        append-IsKept rows (new_row g now p' k' fingerprint) h
    claim_row-IsKept g now p' k' fingerprint retry_stale (some r) rows h =
        claim_row-cases g now p' k' fingerprint retry_stale (λ t. IsKept horizon (entry p k t)) r
          rows h
          (λ _.
            update_where-IsKept (is_key p' k') (take_over g now) rows (λ s. refl) (λ s kept d. cc)
              h)
          (λ _.
            update_where-IsKept (is_key p' k')
              (λ s. record s { state = indeterminate; updated_at = now }) rows (λ s. refl)
              (λ s kept d. cc) h)

    settle-IsKept :
        {A : Type 0} (old after : List (Row W)) (r : Outcome A)
        → IsKept horizon (entry p k old)
        → IsKept horizon (entry p k after)
        → IsKept horizon (entry p k (settle old (after, r)).0)
    settle-IsKept old after (ok a) h h' = h'
    settle-IsKept old after (raise e) h h' = h
    settle-IsKept old after (crash t) h h' = h

    step-IsKept :
        (e : Event W) (rows : List (Row W))
        → IsKeyed rows
        → Within horizon p k e
        → IsKept horizon (entry p k rows)
        → IsKept horizon (entry p k (step e rows))
    unfolding step claim_sync renew_sync complete_sync mark_indeterminate_sync is_key
    step-IsKept (claim g now p' k' fingerprint retry_stale) rows keyed q h =
        let kept = delete_where (is_stale now) rows in
        let r = claim_row g now p' k' fingerprint retry_stale (entry p' k' kept) kept in
        settle-IsKept rows r.0 r.1 h (
          claim_row-IsKept g now p' k' fingerprint retry_stale (entry p' k' kept) kept
            (purge-IsKept now rows keyed q h))
    step-IsKept (renew g now p' k') rows keyed q h =
        update_where-IsKept (my_row g p' k')
          (λ r. record r { lease_until = some (now + g.inflight_lease); updated_at = now }) rows
          (λ r. refl) (λ r kept. kept) h
    step-IsKept (complete g now p' k' w) rows keyed q h = settle-IsKept rows _ _ h (
        update_where-IsKept (my_row g p' k') (completed g p' k' now w) rows (λ r. refl)
          (λ r kept d. q.1) h)
    step-IsKept (abandon g p' k') rows keyed q h = rw (entry-abandon_other g p' k' p k rows q) h
    step-IsKept (mark_indeterminate g now p' k') rows keyed q h =
        update_where-IsKept (my_row g p' k')
          (λ r. record r { state = indeterminate; updated_at = now; lease_until = none }) rows
          (λ r. refl) (λ r kept d. cc) h

    run-IsKept :
        (es : List (Event W)) (rows : List (Row W))
        → IsKeyed rows
        → All (Within horizon p k) es
        → IsKept horizon (entry p k rows)
        → IsKept horizon (entry p k (run es rows))
    unfolding run
    run-IsKept [] rows keyed q h = h
    run-IsKept (e ∷ es) rows keyed q h =
        run-IsKept es (step e rows) (step-IsKeyed e rows keyed) q.1 (step-IsKept e rows keyed q.0 h)

  -- A row that is kept is never claimed as new by a call that may not retry.
  claimed-ne-new :
      (g : Ledger) (horizon now : ℕ) (p k fingerprint : String) (o : Option (Row W))
      → now ≤ horizon
      → IsKept horizon o
      → (claimed g now p k fingerprint false o).1 ≢ ok new
  unfolding claimed verdict is_stale
  claimed-ne-new g horizon now p k fingerprint none early h = absurd h
  claimed-ne-new g horizon now p k fingerprint (some r) early h = ground arith

  new-IsKept :
      (g : Ledger) (horizon now : ℕ) (p k fingerprint : String) (retry_stale : Bool)
      (o : Option (Row W))
      → (claimed g now p k fingerprint retry_stale o).1 ≡ ok new
      → IsKept horizon (claimed g now p k fingerprint retry_stale o).0
  unfolding claimed verdict is_stale take_over new_row
  new-IsKept g horizon now p k fingerprint retry_stale none e = ground arith
  new-IsKept g horizon now p k fingerprint retry_stale (some r) e = ground arith

  -- After a claim was granted, and until a horizon that every result recorded meanwhile outlives,
  -- no later claim of that principal and key that may not retry is granted again, by whatever
  -- process and with whatever arguments, unless the claim was abandoned: the call runs at most once.
  pub at_most_once :
      (g : Ledger) (now : ℕ) (p k fingerprint : String) (retry_stale : Bool) (rows : List (Row W))
      → IsKeyed rows
      → (claim_sync g now p k fingerprint retry_stale rows).1 ≡ ok new
      → (horizon : ℕ) (es : List (Event W)) → All (Within horizon p k) es
      → (g' : Ledger) (later : ℕ) (fingerprint' : String) → later ≤ horizon
      → (claim_sync g' later p k fingerprint' false
          (run es (claim_sync g now p k fingerprint retry_stale rows).0)).1
        ≢ ok new
  at_most_once g now p k fingerprint retry_stale rows keyed granted horizon es q g' later
        fingerprint' early again =
      let e = claim g now p k fingerprint retry_stale in
      let (row, answer) = entry-claim_sync g now p k fingerprint retry_stale rows keyed in
      let held : IsKept horizon (entry p k (step e rows)) =
        unfold step in
        rw row (
          new-IsKept g horizon now p k fingerprint retry_stale (entry p k rows)
            (sym answer ∙ granted)) in
      let keyed' = step-IsKeyed e rows keyed in
      let after = run es (step e rows) in
      let kept = run-IsKept horizon p k es (step e rows) keyed' q held in
      let (_, answer') =
        entry-claim_sync g' later p k fingerprint' false after
          (run-IsKeyed es (step e rows) keyed') in
      claimed-ne-new g' horizon later p k fingerprint' (entry p k after) early kept
        (sym answer' ∙ (unfold step in again))
