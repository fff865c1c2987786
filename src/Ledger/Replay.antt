-- ===== src/Ledger/Replay.antt =====
-- A recorded result is what every retry gets, until it expires.
use openagent_host_tools.Base.{
  ℕ, ◌+◌, ◌≤◌, ◌<◌, String, Bool, true, ◌≡◌, refl, ◌∙◌, Option, none, some, List, [], ◌∷◌, ◌==◌,
  eq_iff, arith, if◌then◌else◌, Outcome, ok, raise, crash, settle, update_where, delete_where,
  select_one-update_where, select_one-delete_where, select_one-append, select_one_holds, updated,
  spared, either_row, All,
}
use openagent_host_tools.Ledger.{
  Row, Ledger, replay, done, indeterminate, is_executing, is_key, is_stale, is_mine, new_row,
  take_over, claim_row, claim_sync, my_row, renew_sync, completed, complete_sync, abandon_sync,
  mark_indeterminate_sync, conflict, replayed,
}
use openagent_host_tools.Ledger.Entry.{entry, IsKeyed, complete_sync-mine}
use openagent_host_tools.Ledger.Claims.{claimed, verdict, claim_row-cases, entry-claim_sync}
use openagent_host_tools.Ledger.Keyed.{
  Event, claim, renew, complete, abandon, mark_indeterminate, step, run, step-IsKeyed, run-IsKeyed,
}

module _ {W : Type 0} where
  -- The row holds this result of these arguments beyond the horizon.
  abbrev IsRecorded : ℕ → String → W → Option (Row W) → Type 0
  IsRecorded horizon fingerprint w none = ⊥
  IsRecorded horizon fingerprint w (some r) =
      (r.state ≡ done)
      × (r.fingerprint ≡ fingerprint)
      × (r.result_json ≡ some w)
      × (horizon < r.expires_at)

  -- A claim purges what expired by its time, so it comes up to the horizon.
  abbrev pub Early : ℕ → Event W → Type 0
  Early horizon (claim g now p' k' fingerprint retry_stale) = now ≤ horizon
  Early horizon (renew g now p' k') = Unit
  Early horizon (complete g now p' k' w) = Unit
  Early horizon (abandon g p' k') = Unit
  Early horizon (mark_indeterminate g now p' k') = Unit

  module _ (horizon : ℕ) (p k fingerprint : String) (w : W) where
    abbrev Recorded : List (Row W) → Type 0
    Recorded rows = IsRecorded horizon fingerprint w (entry p k rows)

    mine-Recorded :
        (g : Ledger) (p' k' : String) (o : Option (Row W)) (f : Row W → Row W)
        → IsRecorded horizon fingerprint w o
        → IsRecorded horizon fingerprint w (updated (my_row g p' k') f o)
    unfolding my_row is_mine
    mine-Recorded g p' k' none f h = h
    mine-Recorded g p' k' (some r) f h = ground arith

    -- A statement of an owner touches executing rows only.
    update_mine-Recorded :
        (g : Ledger) (p' k' : String) (rows : List (Row W)) (f : Row W → Row W)
        → ((r : Row W) → is_key p k (f r) ≡ is_key p k r)
        → Recorded rows
        → Recorded (update_where (my_row g p' k') f rows)
    update_mine-Recorded g p' k' rows f same h =
        rw (select_one-update_where (is_key p k) (my_row g p' k') f rows same)
          (mine-Recorded g p' k' (entry p k rows) f h)

    abandon-Recorded :
        (g : Ledger) (p' k' : String) (o : Option (Row W))
        → IsRecorded horizon fingerprint w o
        → IsRecorded horizon fingerprint w (spared (my_row g p' k') o)
    unfolding my_row is_mine
    abandon-Recorded g p' k' none h = h
    abandon-Recorded g p' k' (some r) h = ground arith

    purge-Recorded :
        (now : ℕ) (o : Option (Row W))
        → now ≤ horizon
        → IsRecorded horizon fingerprint w o
        → IsRecorded horizon fingerprint w (spared (is_stale now) o)
    unfolding is_stale
    purge-Recorded now none early h = h
    purge-Recorded now (some r) early h = ground arith

    either-Recorded :
        (o o' : Option (Row W))
        → IsRecorded horizon fingerprint w o
        → IsRecorded horizon fingerprint w (either_row o o')
    either-Recorded none o' h = absurd h
    either-Recorded (some r) o' h = h

    -- An executing row has another key.
    update_executing-Recorded :
        (p' k' : String) (r : Row W) (f : Row W → Row W) (rows : List (Row W))
        → entry p' k' rows ≡ some r
        → is_executing r.state ≡ true
        → ((s : Row W) → is_key p k (f s) ≡ is_key p k s)
        → Recorded rows
        → Recorded (update_where (is_key p' k') f rows)
    update_executing-Recorded p' k' r f rows found running same h =
        rw (select_one-update_where (is_key p k) (is_key p' k') f rows same)
          (apart (entry p k rows) refl h)
      where
        apart :
            (o : Option (Row W))
            → entry p k rows ≡ o
            → IsRecorded horizon fingerprint w o
            → IsRecorded horizon fingerprint w (updated (is_key p' k') f o)
        apart none e h' = h'
        apart (some s) e h' =
            unfold is_key in
            ground (
              arith,
              select_one_holds (is_key p k) rows {r = s} e,
              eq_iff s.principal p,
              eq_iff s.idem_key k,
              eq_iff s.principal p',
              eq_iff s.idem_key k',
            )

    claim_row-Recorded :
        (g : Ledger) (now : ℕ) (p' k' fingerprint' : String) (retry_stale : Bool)
        (o : Option (Row W)) (rows : List (Row W))
        → entry p' k' rows ≡ o
        → Recorded rows
        → Recorded (claim_row g now p' k' fingerprint' retry_stale o rows).0
    claim_row-Recorded g now p' k' fingerprint' retry_stale none rows e h =
        unfold claim_row in
        rw (select_one-append (is_key p k) rows (new_row g now p' k' fingerprint' ∷ []))
          (either-Recorded (entry p k rows) _ h)
    claim_row-Recorded g now p' k' fingerprint' retry_stale (some r) rows e h =
        claim_row-cases g now p' k' fingerprint' retry_stale Recorded r rows h
          (λ running.
            update_executing-Recorded p' k' r (take_over g now) rows e running
              (unfold is_key take_over in λ s. refl) h)
          (λ running.
            update_executing-Recorded p' k' r
              (λ s. record s { state = indeterminate; updated_at = now }) rows e running
              (unfold is_key in λ s. refl) h)

    settle-Recorded :
        {A : Type 0} (old after : List (Row W)) (r : Outcome A)
        → Recorded old
        → Recorded after
        → Recorded (settle old (after, r)).0
    settle-Recorded old after (ok a) h h' = h'
    settle-Recorded old after (raise e) h h' = h
    settle-Recorded old after (crash t) h h' = h

    step-Recorded :
        (e : Event W) (rows : List (Row W))
        → IsKeyed rows
        → Early horizon e
        → Recorded rows
        → Recorded (step e rows)
    unfolding step claim_sync renew_sync complete_sync abandon_sync mark_indeterminate_sync is_key
    step-Recorded (claim g now p' k' fingerprint' retry_stale) rows keyed q h =
        let kept = delete_where (is_stale now) rows in
        let r = claim_row g now p' k' fingerprint' retry_stale (entry p' k' kept) kept in
        settle-Recorded rows r.0 r.1 h (
          claim_row-Recorded g now p' k' fingerprint' retry_stale (entry p' k' kept) kept refl (
            rw (select_one-delete_where (is_key p k) (is_stale now) rows (keyed p k))
              (purge-Recorded now (entry p k rows) q h)))
    step-Recorded (renew g now p' k') rows keyed q h =
        update_mine-Recorded g p' k' rows
          (λ r. record r { lease_until = some (now + g.inflight_lease); updated_at = now })
          (λ r. refl) h
    step-Recorded (complete g now p' k' w') rows keyed q h =
        settle-Recorded rows _ _ h
          (update_mine-Recorded g p' k' rows (completed g p' k' now w') (λ r. refl) h)
    step-Recorded (abandon g p' k') rows keyed q h =
        rw (select_one-delete_where (is_key p k) (my_row g p' k') rows (keyed p k))
          (abandon-Recorded g p' k' (entry p k rows) h)
    step-Recorded (mark_indeterminate g now p' k') rows keyed q h =
        update_mine-Recorded g p' k' rows
          (λ r. record r { state = indeterminate; updated_at = now; lease_until = none })
          (λ r. refl) h

    run-Recorded :
        (es : List (Event W)) (rows : List (Row W))
        → IsKeyed rows
        → All (Early horizon) es
        → Recorded rows
        → Recorded (run es rows)
    unfolding run
    run-Recorded [] rows keyed q h = h
    run-Recorded (e ∷ es) rows keyed q h =
        run-Recorded es (step e rows) (step-IsKeyed e rows keyed) q.1
          (step-Recorded e rows keyed q.0 h)

    claimed-Recorded :
        (g : Ledger) (now : ℕ) (fingerprint' : String) (retry_stale : Bool) (o : Option (Row W))
        → now ≤ horizon
        → IsRecorded horizon fingerprint w o
        → (claimed g now p k fingerprint' retry_stale o).1
          ≡ (if fingerprint == fingerprint' then ok (replay w) else raise (conflict k))
    unfolding claimed verdict is_stale replayed
    claimed-Recorded g now fingerprint' retry_stale none early h = absurd h
    claimed-Recorded g now fingerprint' retry_stale (some r) early h = ground arith

  -- Once the owner of a claim recorded its result, and until that record expires, every claim of the
  -- principal and key gets that result if it comes with the arguments of the first, and a conflict
  -- if not, whatever any process does in between.
  pub claim_replays :
      (g : Ledger) (now : ℕ) (p k : String) (w : W) (r : Row W) (rows : List (Row W))
      → IsKeyed rows
      → entry p k rows ≡ some r
      → is_mine g r ≡ true
      → (horizon : ℕ) (es : List (Event W)) → horizon < now + g.result_ttl
      → All (Early horizon) es
      → (g' : Ledger) (later : ℕ) (fingerprint : String) (retry_stale : Bool) → later ≤ horizon
      → (claim_sync g' later p k fingerprint retry_stale
          (run es (complete_sync g p k now w rows).0)).1
        ≡ (if r.fingerprint == fingerprint then ok (replay w) else raise (conflict k))
  unfolding step completed
  claim_replays g now p k w r rows keyed found mine horizon es lasts q g' later fingerprint
        retry_stale early =
      let e = complete g now p k w in
      let keyed' = step-IsKeyed e rows keyed in
      let (row, _) = complete_sync-mine g p k rows now w r keyed found mine in
      let held : IsRecorded horizon r.fingerprint w (entry p k (step e rows)) =
        rw row (refl, refl, refl, lasts) in
      let after = run es (step e rows) in
      let kept = run-Recorded horizon p k r.fingerprint w es (step e rows) keyed' q held in
      let (_, answer) =
        entry-claim_sync g' later p k fingerprint retry_stale after
          (run-IsKeyed es (step e rows) keyed') in
      answer
      ∙ claimed-Recorded horizon p k r.fingerprint w g' later fingerprint retry_stale
          (entry p k after) early kept
