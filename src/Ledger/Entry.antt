-- ===== src/Ledger/Entry.antt =====
-- What each transaction of the ledger does to the row of one key.
use openagent_host_tools.Base.{
  ℕ, ◌+◌, ◌≤◌, String, Bool, true, false, ◌&&◌, ◌≡◌, refl, Option, none, some, List, ◌==◌, eq_iff,
  arith, ok, raise, select_one, update_where, count_where, spared, updated, counted,
  select_one-update_where_key, select_one-delete_where_key, select_one-delete_where_frame,
  count_where-and,
}
use openagent_host_tools.Ledger.{
  Row, Ledger, indeterminate, claim_lost, is_key, is_mine, my_row, renew_sync, completed,
  complete_sync, abandon_sync, mark_indeterminate_sync,
}

module _ {W : Type 0} where
  -- The row of a key.
  abbrev pub entry : String → String → List (Row W) → Option (Row W)
  entry principal key rows = select_one (is_key principal key) rows

  -- The primary key of the table.
  abbrev pub IsKeyed : List (Row W) → Type 0
  IsKeyed rows = (principal key : String) → count_where (is_key principal key) rows ≤ 1

  -- Whether this owner has the claim.
  abbrev pub claims : Ledger → Option (Row W) → Bool
  claims g none = false
  claims g (some r) = is_mine g r

  -- What each statement makes of the row of its own key.
  module _ (g : Ledger) (principal key : String) (rows : List (Row W)) where
    pub entry-renew_sync :
        (now : ℕ)
        → entry principal key (renew_sync g principal key now rows).0
          ≡ updated
              (is_mine g)
              (λ r. record r { lease_until = some (now + g.inflight_lease); updated_at = now })
              (entry principal key rows)
    unfolding renew_sync is_key
    entry-renew_sync now =
        select_one-update_where_key (is_key principal key) (is_mine g) _ rows (λ r. refl)

    pub entry-mark_indeterminate_sync :
        (now : ℕ)
        → entry principal key (mark_indeterminate_sync g principal key now rows)
          ≡ updated
              (is_mine g)
              (λ r. record r { state = indeterminate; updated_at = now; lease_until = none })
              (entry principal key rows)
    unfolding mark_indeterminate_sync is_key
    entry-mark_indeterminate_sync now =
        select_one-update_where_key (is_key principal key) (is_mine g) _ rows (λ r. refl)

    pub entry-abandon_sync :
        IsKeyed rows
        → entry principal key (abandon_sync g principal key rows)
          ≡ spared (is_mine g) (entry principal key rows)
    unfolding abandon_sync
    entry-abandon_sync keyed =
        select_one-delete_where_key (is_key principal key) (is_mine g) rows (keyed principal key)

    counted-mine :
        IsKeyed rows
        → count_where (my_row g principal key) rows ≡ counted (is_mine g) (entry principal key rows)
    unfolding my_row
    counted-mine keyed =
        count_where-and (is_key principal key) (is_mine g) rows (keyed principal key)

    entry-completed :
        (now : ℕ) (w : W)
        → entry principal key
            (update_where (my_row g principal key) (completed g principal key now w) rows)
          ≡ updated (is_mine g) (completed g principal key now w) (entry principal key rows)
    unfolding my_row completed is_key
    entry-completed now w =
        select_one-update_where_key (is_key principal key) (is_mine g) _ rows (λ r. refl)

    -- `complete` writes the result if the claim is still this owner's, and raises if it is not.
    pub complete_sync-mine :
        (now : ℕ) (w : W) (r : Row W)
        → IsKeyed rows
        → entry principal key rows ≡ some r
        → is_mine g r ≡ true
        → (entry principal key (complete_sync g principal key now w rows).0
            ≡ some (completed g principal key now w r))
          × ((complete_sync g principal key now w rows).1 ≡ ok tt)
    unfolding complete_sync
    complete_sync-mine now w r keyed found mine =
        ground (arith, counted-mine keyed, entry-completed now w)

    pub complete_sync-lost :
        (now : ℕ) (w : W)
        → IsKeyed rows
        → claims g (entry principal key rows) ≡ false
        → complete_sync g principal key now w rows ≡ (rows, raise claim_lost)
    unfolding complete_sync
    complete_sync-lost now w keyed other = ground (arith, counted-mine keyed)

  -- The rows of other keys are out of reach of a statement that names its key.
  my_row_other :
      (g : Ledger) (p' k' p k : String) (r : Row W)
      → (p == p' && k == k') ≡ false
      → is_key p k r ≡ true
      → my_row g p' k' r ≡ false
  unfolding my_row is_key
  my_row_other g p' k' p k r other here = ground (arith, eq_iff r.principal p, eq_iff r.idem_key k)

  pub entry-abandon_other :
      (g : Ledger) (p' k' p k : String) (rows : List (Row W))
      → (p == p' && k == k') ≡ false
      → entry p k (abandon_sync g p' k' rows) ≡ entry p k rows
  unfolding abandon_sync
  entry-abandon_other g p' k' p k rows other =
      select_one-delete_where_frame (is_key p k) (my_row g p' k') rows
        (λ r here. my_row_other g p' k' p k r other here)
