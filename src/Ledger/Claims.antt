-- ===== src/Ledger/Claims.antt =====
-- `claim` as a decision about the row of its key, and what it leaves of the rows of other keys.
use openagent_host_tools.Base.{
  ℕ, String, Bool, true, not, ◌&&◌, ◌≡◌, ◌⊎◌, inl, inr, refl, Option, none, some, List, [], ◌∷◌,
  ◌++◌, ltb, if◌then◌else◌, ◌==◌, ◌||◌, eq_refl, arith, Outcome, ok, raise, settle, select_one,
  update_where, delete_where, spared, select_one-update_where, select_one-delete_where,
  select_one-append, select_one_holds,
}
use openagent_host_tools.Ledger.{
  Row, Ledger, Claim, new, indeterminate, is_executing, is_done, is_owner, lease_end, conflict,
  in_flight, may_have_completed, is_key, is_stale, new_row, take_over, claim_row, claim_sync,
  replayed,
}
use openagent_host_tools.Ledger.Entry.{entry, IsKeyed}

module _ {W : Type 0} (g : Ledger) (now : ℕ) (principal key fingerprint : String)
    (retry_stale : Bool) where
  -- The decision about a row that is not stale.
  unfoldable pub verdict : Option (Row W) → Option (Row W) × Outcome (Claim W)
  unfolding replayed
  verdict none = (some (new_row g now principal key fingerprint), ok new)
  verdict (some row) =
      if not (row.fingerprint == fingerprint)
      then (some row, raise (conflict key))
      else if is_done row.state
      then (some row, replayed row.result_json)
      else if is_executing row.state
          && (retry_stale
              && (not (is_owner g.owner_id row.owner_id)
                  || not (ltb now (lease_end row.lease_until))))
      then (some (take_over g now row), ok new)
      else if is_executing row.state && ltb now (lease_end row.lease_until)
      then (some row, raise (in_flight key))
      else (some row, raise (may_have_completed key))

  -- A claim that raises changes nothing, not even the stale rows.
  unfoldable pub claimed : Option (Row W) → Option (Row W) × Outcome (Claim W)
  unfolding verdict
  claimed o = settle o (verdict (spared (is_stale now) o))

  -- The row that `_claim_sync` inserts or takes over is the row of its key.
  entry-append :
      (rows : List (Row W))
      → entry principal key rows ≡ none
      → entry principal key (rows ++ new_row g now principal key fingerprint ∷ [])
        ≡ some (new_row g now principal key fingerprint)
  unfolding is_key new_row select_one
  entry-append rows absent = ground (
    arith,
    select_one-append (is_key principal key) rows (new_row g now principal key fingerprint ∷ []),
    eq_refl principal,
    eq_refl key,
  )

  entry-take_over :
      (rows : List (Row W)) (row : Row W)
      → entry principal key rows ≡ some row
      → entry principal key (update_where (is_key principal key) (take_over g now) rows)
        ≡ some (take_over g now row)
  entry-take_over rows row found = ground (
    arith,
    select_one-update_where (is_key principal key) (is_key principal key) (take_over g now) rows
        (unfold is_key take_over in λ r. refl),
    select_one_holds (is_key principal key) rows {r = row},
  )

  claim_row-verdict :
      (old kept : List (Row W)) (o : Option (Row W))
      → entry principal key kept ≡ o
      → (entry principal key
            (settle old (claim_row g now principal key fingerprint retry_stale o kept)).0
          ≡ (settle (entry principal key old) (verdict o)).0)
        × ((settle old (claim_row g now principal key fingerprint retry_stale o kept)).1
            ≡ (settle (entry principal key old) (verdict o)).1)
  unfolding claim_row verdict
  claim_row-verdict old kept none e = ground (arith, entry-append kept)
  claim_row-verdict old kept (some row) e = ground (arith, entry-take_over kept row)

  -- What a claim does to the row of its key, and answers.
  pub entry-claim_sync :
      (rows : List (Row W))
      → IsKeyed rows
      → (entry principal key (claim_sync g now principal key fingerprint retry_stale rows).0
          ≡ (claimed (entry principal key rows)).0)
        × ((claim_sync g now principal key fingerprint retry_stale rows).1
            ≡ (claimed (entry principal key rows)).1)
  unfolding claim_sync claimed
  entry-claim_sync rows keyed =
      let kept = delete_where (is_stale now) rows in
      rw
        (← select_one-delete_where (is_key principal key) (is_stale now) rows (keyed principal key))
        (claim_row-verdict rows kept (entry principal key kept) refl)

  -- The three tables that a claim of a known key can leave: the old one, and of an executing row
  -- the one with it taken over, or marked indeterminate.
  claim_row_tables :
      (row : Row W) (rows : List (Row W))
      → ((claim_row g now principal key fingerprint retry_stale (some row) rows).0 ≡ rows)
        ⊎ (is_executing row.state ≡ true)
          × ((claim_row g now principal key fingerprint retry_stale (some row) rows).0
              ≡ update_where (is_key principal key) (take_over g now) rows)
        ⊎ (is_executing row.state ≡ true)
          × ((claim_row g now principal key fingerprint retry_stale (some row) rows).0
              ≡ update_where
                  (is_key principal key)
                  (λ r. record r { state = indeterminate; updated_at = now })
                  rows)
  unfolding claim_row
  claim_row_tables row rows = ground arith

  pub claim_row-cases :
      (P : List (Row W) → Type 0) (row : Row W) (rows : List (Row W))
      → P rows
      → (is_executing row.state ≡ true
          → P (update_where (is_key principal key) (take_over g now) rows))
      → (is_executing row.state ≡ true
          → P (
              update_where
                (is_key principal key)
                (λ r. record r { state = indeterminate; updated_at = now })
                rows))
      → P (claim_row g now principal key fingerprint retry_stale (some row) rows).0
  claim_row-cases P row rows same taken marked = elim (claim_row_tables row rows) [
    | inl e ↦ rw e same
    | inr (inl (x, e)) ↦ rw e (taken x)
    | inr (inr (x, e)) ↦ rw e (marked x)
  ]
