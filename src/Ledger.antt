-- ===== src/Ledger.antt =====
-- `IdempotencyLedger` of src/openagent_host_tools/idempotency.py: the durable ledger of claims. A
-- transaction is one step, since each begins with BEGIN IMMEDIATE. Times are in microseconds. `W` is
-- the wire form of a result, which the ledger keeps as JSON text and reads back.
pub mod Entry
pub mod Claims
pub mod Keyed
pub mod Once
pub mod Replay
pub mod Owners
mod Tests
use openagent_host_tools.Base.{
  ℕ, ◌+◌, max, String, Bool, true, false, not, ◌&&◌, Option, none, some, List, [], ◌∷◌, ◌++◌, leb,
  ltb, nat_eq, if◌then◌else◌, ◌==◌, end, field, str, int, bool, pos, HostError, Outcome, ok, raise,
  crash, transaction, select_one, update_where, delete_where, count_where,
}

pub data State : Type 0 where
  executing done indeterminate : State

pub record Row (W : Type 0) : Type 0 where
  pub principal : String
  pub idem_key : String
  pub fingerprint : String
  pub state : State
  pub owner_id : Option String
  pub result_json : Option W
  pub created_at : ℕ
  pub updated_at : ℕ
  pub lease_until : Option ℕ
  pub expires_at : ℕ

-- The fields of the Python object; the table is shared with other processes.
pub record Ledger : Type 0 where
  pub owner_id : String
  pub result_ttl : ℕ
  pub inflight_lease : ℕ

-- `__init__`, with the owner id that uuid4 gave.
unfoldable pub init : String → ℕ → ℕ → Ledger
init owner result_ttl_seconds inflight_lease_seconds = record {
  owner_id = owner;
  result_ttl = max 60000000 result_ttl_seconds;
  inflight_lease = max 5000000 inflight_lease_seconds;
}

pub data Claim (W : Type 0) : Type 0 where
  new : Claim W
  replay : W → Claim W

abbrev pub is_executing : State → Bool
is_executing executing = true
is_executing _ = false

abbrev pub is_done : State → Bool
is_done done = true
is_done _ = false

-- `row["owner_id"] == self.owner_id`
abbrev pub is_owner : String → Option String → Bool
is_owner owner none = false
is_owner owner (some o) = o == owner

-- `float(row["lease_until"] or 0)`
abbrev pub lease_end : Option ℕ → ℕ
lease_end none = 0
lease_end (some t) = t

unfoldable pub conflict : String → HostError
conflict key = record {
  code = "idempotency_conflict";
  message = "idempotency key was already used for different arguments";
  details = field "idempotency_key" (str key) end;
}

unfoldable pub in_flight : String → HostError
in_flight key = record {
  code = "idempotency_in_flight";
  message = "a call with this idempotency key is already running";
  details = field "idempotency_key" (str key) (field "retry_after_ms" (int (pos 1000)) end);
}

unfoldable pub may_have_completed : String → HostError
may_have_completed key = record {
  code = "idempotency_indeterminate";
  message = "the previous mutation may have completed before its result was recorded";
  details =
      field "idempotency_key" (str key) (field "manual_reconciliation_required" (bool true) end);
}

unfoldable pub claim_lost : HostError
claim_lost = record {
  code = "idempotency_lost";
  message = "idempotency claim was lost";
  details = end;
}

module _ {W : Type 0} where
  -- `WHERE principal=? AND idem_key=?`
  unfoldable pub is_key : String → String → Row W → Bool
  is_key principal key r = r.principal == principal && r.idem_key == key

  -- `WHERE … AND state='executing' AND owner_id=?`
  unfoldable pub is_mine : Ledger → Row W → Bool
  is_mine g r = is_executing r.state && is_owner g.owner_id r.owner_id

  -- `state='done' AND expires_at <= ?`
  unfoldable pub is_stale : ℕ → Row W → Bool
  is_stale now r = is_done r.state && leb r.expires_at now

  unfoldable pub new_row : Ledger → ℕ → String → String → String → Row W
  new_row g now principal key fingerprint = record {
    principal = principal;
    idem_key = key;
    fingerprint = fingerprint;
    state = executing;
    owner_id = some g.owner_id;
    result_json = none;
    created_at = now;
    updated_at = now;
    lease_until = some (now + g.inflight_lease);
    expires_at = now + g.result_ttl;
  }

  -- The columns that a take-over of an executing row sets.
  unfoldable pub take_over : Ledger → ℕ → Row W → Row W
  take_over g now r = record r {
    state = executing;
    owner_id = some g.owner_id;
    updated_at = now;
    lease_until = some (now + g.inflight_lease);
    expires_at = now + g.result_ttl;
  }

  unfoldable pub replayed : Option W → Outcome (Claim W)
  replayed none = crash "TypeError"
  replayed (some w) = ok (replay w)

  module _ (g : Ledger) (now : ℕ) (principal key fingerprint : String) (retry_stale : Bool) where
    -- The part of `_claim_sync` below the SELECT, by the row that it found.
    unfoldable pub claim_row : Option (Row W) → List (Row W) → List (Row W) × Outcome (Claim W)
    unfolding replayed
    claim_row none rows = (rows ++ new_row g now principal key fingerprint ∷ [], ok new)
    claim_row (some row) rows =
        if not (row.fingerprint == fingerprint)
        then (rows, raise (conflict key))
        else if is_done row.state
        then (rows, replayed row.result_json)
        else if is_executing row.state && retry_stale && not (is_owner g.owner_id row.owner_id)
        then (update_where (is_key principal key) (take_over g now) rows, ok new)
        else if is_executing row.state && ltb now (lease_end row.lease_until)
        then (rows, raise (in_flight key))
        else if is_executing row.state && retry_stale
        then (update_where (is_key principal key) (take_over g now) rows, ok new)
        else if is_executing row.state
        then (
          update_where (is_key principal key)
              (λ r. record r { state = indeterminate; updated_at = now }) rows,
          raise (may_have_completed key),
        )
        else (rows, raise (may_have_completed key))

    unfoldable pub claim_sync : List (Row W) → List (Row W) × Outcome (Claim W)
    unfolding claim_row
    claim_sync = transaction λ rows.
        let kept = delete_where (is_stale now) rows in
        claim_row (select_one (is_key principal key) kept) kept

  module _ (g : Ledger) (principal key : String) where
    -- Each statement below has the WHERE clause of the key, of `executing` and of this owner.
    unfoldable pub my_row : Row W → Bool
    my_row r = is_key principal key r && is_mine g r

    unfoldable pub renew_sync : ℕ → List (Row W) → List (Row W) × Bool
    unfolding my_row
    renew_sync now rows = (
      update_where my_row
          (λ r. record r { lease_until = some (now + g.inflight_lease); updated_at = now }) rows,
      nat_eq (count_where my_row rows) 1,
    )

    unfoldable pub completed : ℕ → W → Row W → Row W
    completed now result r = record r {
      state = done;
      result_json = some result;
      updated_at = now;
      lease_until = none;
      expires_at = now + g.result_ttl;
    }

    unfoldable pub complete_sync : ℕ → W → List (Row W) → List (Row W) × Outcome (Unit {0})
    unfolding my_row completed
    complete_sync now result = transaction λ rows. (
      update_where my_row (completed now result) rows,
      (if nat_eq (count_where my_row rows) 1 then ok tt else raise claim_lost),
    )

    unfoldable pub abandon_sync : List (Row W) → List (Row W)
    unfolding my_row
    abandon_sync rows = delete_where my_row rows

    unfoldable pub mark_indeterminate_sync : ℕ → List (Row W) → List (Row W)
    unfolding my_row
    mark_indeterminate_sync now rows =
        update_where my_row
          (λ r. record r { state = indeterminate; updated_at = now; lease_until = none }) rows
