-- ===== src/Ledger/Owners.antt =====
-- Who may finish a claim: the fencing of a take-over, and what a refused claim leaves behind.
use openagent_host_tools.Base.{
  ℕ, ◌≤◌, String, Bool, true, false, ◌≡◌, ap, &&-left, &&-right, ◌∙◌, Option, none, some, List,
  ◌==◌, eq_iff, eq_refl, arith, Outcome, ok, raise, crash, settle, HostError,
}
use openagent_host_tools.Ledger.{
  Row, Ledger, new, is_executing, is_owner, is_stale, is_mine, take_over, claim_sync, complete_sync,
  claim_lost, lease_end, may_have_completed,
}
use openagent_host_tools.Ledger.Entry.{
  entry, IsKeyed, claims, complete_sync-mine, complete_sync-lost,
}
use openagent_host_tools.Ledger.Claims.{claimed, verdict, entry-claim_sync}
use openagent_host_tools.Ledger.Keyed.{claim, step, step-IsKeyed}

owner_of : (a : String) (o : Option String) → is_owner a o ≡ true → o ≡ some a
owner_of a none h = cc
owner_of a (some b) h = ground (arith, eq_iff b a)

settle-raise :
    {T A : Type 0} (old after : T) (r : Outcome A) (e : HostError)
    → (settle old (after, r)).1 ≡ raise e
    → settle old (after, r) ≡ (old, raise e)
settle-raise old after (ok a) e h = cc
settle-raise old after (raise e') e h = ground arith
settle-raise old after (crash t) e h = cc

module _ {W : Type 0} where
  module _ (g g' : Ledger) (now : ℕ) (p k : String) (r : Row W) (rows : List (Row W))
      (keyed : IsKeyed rows) (found : entry p k rows ≡ some r) (mine : is_mine g r ≡ true)
      (restarted : (g.owner_id == g'.owner_id) ≡ false) where
    taken_verdict :
        ((claimed g' now p k r.fingerprint true (some r)).0 ≡ some (take_over g' now r))
        × ((claimed g' now p k r.fingerprint true (some r)).1 ≡ ok new)
    unfolding claimed verdict is_stale is_mine
    taken_verdict = ground (
      arith,
      &&-left (is_executing r.state) (is_owner g.owner_id r.owner_id) mine,
      owner_of g.owner_id r.owner_id
          (&&-right (is_executing r.state) (is_owner g.owner_id r.owner_id) mine),
      restarted,
      eq_refl r.fingerprint,
    )

    not_mine : claims g (some (take_over g' now r)) ≡ false
    unfolding is_mine take_over
    not_mine =
        ground (arith, restarted, eq_iff g'.owner_id g.owner_id, eq_iff g.owner_id g'.owner_id)

    now_mine : is_mine g' (take_over g' now r) ≡ true
    unfolding is_mine take_over
    now_mine = eq_refl g'.owner_id

    -- A new owner takes over the executing row of another at once, if the call may be retried; from
    -- then on the old owner's result is refused and changes nothing, and the new owner's is recorded.
    pub take_over_fences :
        let after = (claim_sync g' now p k r.fingerprint true rows).0 in
        ((claim_sync g' now p k r.fingerprint true rows).1 ≡ ok new)
        × ((later : ℕ) (w : W) → complete_sync g p k later w after ≡ (after, raise claim_lost))
        × ((later : ℕ) (w : W) → (complete_sync g' p k later w after).1 ≡ ok tt)
    unfolding step
    take_over_fences =
        let (row, answer) = entry-claim_sync g' now p k r.fingerprint true rows keyed in
        let after = step (claim g' now p k r.fingerprint true) rows in
        let taken : entry p k after ≡ some (take_over g' now r) =
          row ∙ (rw found taken_verdict.0) in
        let keyed' = step-IsKeyed (claim g' now p k r.fingerprint true) rows keyed in
        (
          answer ∙ (rw found taken_verdict.1),
          λ later w. complete_sync-lost g p k after later w keyed' (rw taken not_mine),
          λ later w.
              (complete_sync-mine g' p k after later w (take_over g' now r) keyed' taken
                now_mine).1,
        )

  -- A claim that raises leaves the table as it was.
  pub refused_claim-eq :
      (g : Ledger) (now : ℕ) (p k fingerprint : String) (retry_stale : Bool) (rows : List (Row W))
      (e : HostError)
      → (claim_sync g now p k fingerprint retry_stale rows).1 ≡ raise e
      → (claim_sync g now p k fingerprint retry_stale rows).0 ≡ rows
  unfolding claim_sync
  refused_claim-eq g now p k fingerprint retry_stale rows e h =
      ap (λ t. t.0) (settle-raise rows _ _ e h)

  overdue_verdict :
      (g g' : Ledger) (now : ℕ) (p k : String) (r : Row W)
      → is_mine g r ≡ true
      → lease_end r.lease_until ≤ now
      → (claimed g' now p k r.fingerprint false (some r)).1 ≡ raise (may_have_completed k)
  unfolding claimed verdict is_stale is_mine
  overdue_verdict g g' now p k r mine over = ground (
    arith,
    &&-left (is_executing r.state) (is_owner g.owner_id r.owner_id) mine,
    eq_refl r.fingerprint,
  )

  -- A call that may not be retried and whose lease ran out is reported as indeterminate, but the
  -- mark is rolled back with the exception: the row stays executing, so that its owner can still
  -- record the result.
  pub stale_claim_unmarked :
      (g g' : Ledger) (now : ℕ) (p k : String) (r : Row W) (rows : List (Row W))
      → IsKeyed rows
      → entry p k rows ≡ some r
      → is_mine g r ≡ true
      → lease_end r.lease_until ≤ now
      → (claim_sync g' now p k r.fingerprint false rows ≡ (rows, raise (may_have_completed k)))
        × ((later : ℕ) (w : W)
            → (complete_sync g p k later w (claim_sync g' now p k r.fingerprint false rows).0).1
              ≡ ok tt)
  stale_claim_unmarked g g' now p k r rows keyed found mine over =
      let (_, answer) = entry-claim_sync g' now p k r.fingerprint false rows keyed in
      let raised = answer ∙ (rw found (overdue_verdict g g' now p k r mine over)) in
      let same =
        refused_claim-eq g' now p k r.fingerprint false rows (may_have_completed k) raised in
      (
        λ i. (same i, raised i),
        λ later w. rw same ((complete_sync-mine g p k rows later w r keyed found mine).1),
      )
