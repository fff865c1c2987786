-- ===== src/Lease.antt =====
-- `MutatingLease` of src/openagent_host_tools/lease.py: the single-writer lease in the shared
-- state database. A transaction is one step, since each begins with BEGIN IMMEDIATE. Times are in
-- microseconds; `lease_seconds` is too.
pub mod Lock
pub mod Refine
pub mod Events
pub mod Exclusion
mod Tests
use openagent_host_tools.Base.{
  ℕ, ◌+◌, ◌-◌, ◌/◌, max, String, Bool, true, false, ◌&&◌, Option, none, some, List, [], ◌∷◌, ◌++◌,
  map, leb, if◌then◌else◌, ◌==◌, Value, Fields, end, field, str, int, null, pos, HostError, Outcome,
  ok, raise, transaction, select_one, select_where, update_where, delete_where,
}

pub record LeaseRow : Type 0 where
  pub holder : String
  pub acquired_at : ℕ
  pub expires_at : ℕ

pub record CallRow : Type 0 where
  pub call_id : String
  pub holder : String
  pub tool : String
  pub started_at : ℕ
  pub expires_at : ℕ

-- The table `mutating_lease` has at most the row of its singleton key; `call_id` is the primary
-- key of `mutating_lease_calls`.
pub record Db : Type 0 where
  pub mutating_lease : Option LeaseRow
  pub mutating_lease_calls : List CallRow

-- What `_initialize` leaves of a new file.
abbrev pub empty : Db
empty = record { mutating_lease = none; mutating_lease_calls = [] }

-- `max(3.0, lease_seconds)`
pub lease_duration : ℕ → ℕ
lease_duration lease_seconds = max 3000000 lease_seconds

is_expired : ℕ → Option LeaseRow → Bool
is_expired now none = false
is_expired now (some row) = leb row.expires_at now

unfoldable pub expire_locked : ℕ → Db → Db
unfolding is_expired
expire_locked now db = if is_expired now db.mutating_lease then empty else db

-- `max(0, int((expires_at - now) * 1000))`: whole milliseconds, and 0 for what is past.
unfoldable pub ttl_ms : ℕ → ℕ → ℕ
ttl_ms expires_at now = (expires_at - now) / 1000

-- `SELECT call_id … LIMIT 1`
abbrev first_call : List CallRow → Option CallRow
first_call [] = none
first_call (c ∷ cs) = some c

-- `active_call is not None and active_call["call_id"] == call_id`
abbrev is_call : String → Option CallRow → Bool
is_call call_id none = false
is_call call_id (some c) = c.call_id == call_id

abbrev call_id_value : Option CallRow → Value
call_id_value none = null
call_id_value (some c) = str c.call_id

unfoldable pub lease_held : ℕ → LeaseRow → Option CallRow → HostError
unfolding ttl_ms
lease_held now row active = record {
  code = "lease_held";
  message = "another local tool call is currently mutating this computer";
  details = field "holder" (str row.holder) (
      field "call_id" (call_id_value active)
        (field "ttl_ms" (int (pos (ttl_ms row.expires_at now))) end));
}

-- `INSERT OR REPLACE INTO mutating_lease_calls`
unfoldable pub replace_call : CallRow → List CallRow → List CallRow
unfolding delete_where
replace_call c cs = delete_where (λ d. d.call_id == c.call_id) cs ++ c ∷ []

-- The part of `_enter_sync` below `_expire_locked`, by the row of the lease.
enter_row : ℕ → ℕ → String → String → String → Option LeaseRow → Db → Db × Outcome (Unit {0})
unfolding replace_call lease_held
enter_row duration now principal call_id tool none db = (
  record {
    mutating_lease =
        some (record { holder = principal; acquired_at = now; expires_at = now + duration });
    mutating_lease_calls =
        replace_call
          (record {
            call_id = call_id;
            holder = principal;
            tool = tool;
            started_at = now;
            expires_at = now + duration;
          })
          db.mutating_lease_calls;
  },
  ok tt,
)
enter_row duration now principal call_id tool (some row) db =
    let active = first_call db.mutating_lease_calls in
    if row.holder == principal && is_call call_id active
    then (
      record {
        mutating_lease = some (record row { expires_at = now + duration });
        mutating_lease_calls =
            replace_call
              (record {
                call_id = call_id;
                holder = principal;
                tool = tool;
                started_at = now;
                expires_at = now + duration;
              })
              db.mutating_lease_calls;
      },
      ok tt,
    )
    else (db, raise (lease_held now row active))

unfoldable pub enter_sync : ℕ → ℕ → String → String → String → Db → Db × Outcome (Unit {0})
unfolding enter_row expire_locked
enter_sync duration now principal call_id tool = transaction λ db.
    let db' = expire_locked now db in
    enter_row duration now principal call_id tool db'.mutating_lease db'

-- `UPDATE mutating_lease SET expires_at=? WHERE singleton=1 AND holder=?`
unfoldable pub extend_lease : ℕ → String → Option LeaseRow → Option LeaseRow
extend_lease expires principal none = none
extend_lease expires principal (some row) =
    some (if row.holder == principal then record row { expires_at = expires } else row)

-- `DELETE FROM mutating_lease WHERE holder=?`
unfoldable pub drop_lease : String → Option LeaseRow → Option LeaseRow
drop_lease principal none = none
drop_lease principal (some row) = if row.holder == principal then none else some row

renew_row : ℕ → String → String → Option CallRow → Db → Db × Bool
unfolding extend_lease update_where
renew_row expires principal call_id none db = (db, false)
renew_row expires principal call_id (some row) db =
    if row.holder == principal
    then (
      record {
        mutating_lease = extend_lease expires principal db.mutating_lease;
        mutating_lease_calls =
            update_where (λ c. c.call_id == call_id) (λ c. record c { expires_at = expires })
              db.mutating_lease_calls;
      },
      true,
    )
    else (db, false)

unfoldable pub renew_sync : ℕ → ℕ → String → String → Db → Db × Bool
unfolding renew_row expire_locked select_one
renew_sync duration now principal call_id db =
    let db' = expire_locked now db in
    renew_row (now + duration) principal call_id
      (select_one (λ c. c.call_id == call_id) db'.mutating_lease_calls) db'

-- `SELECT MAX(expires_at)` over the given rows.
unfoldable pub max_expiry : List CallRow → Option ℕ
max_expiry [] = none
max_expiry (c ∷ cs) = elim (max_expiry cs) [
  | none ↦ some c.expires_at
  | some e ↦ some (max c.expires_at e)
]

leave_lease : String → Option ℕ → Option LeaseRow → Option LeaseRow
unfolding drop_lease extend_lease
leave_lease principal none row = drop_lease principal row
leave_lease principal (some expiry) row = extend_lease expiry principal row

unfoldable pub leave_sync : String → String → Db → Db
unfolding leave_lease max_expiry delete_where select_where
leave_sync principal call_id db =
    let calls =
      delete_where (λ c. c.call_id == call_id && c.holder == principal) db.mutating_lease_calls in
    record {
      mutating_lease =
          leave_lease principal (max_expiry (select_where (λ c. c.holder == principal) calls))
            db.mutating_lease;
      mutating_lease_calls = calls;
    }

unfoldable pub release_sync : String → Db → Db
unfolding drop_lease delete_where
release_sync principal db = record {
  mutating_lease = drop_lease principal db.mutating_lease;
  mutating_lease_calls = delete_where (λ c. c.holder == principal) db.mutating_lease_calls;
}

-- The dictionary that `_status_sync` returns: the state free, or held with the calls in flight.
pub data Status : Type 0 where
  free : Status
  held : String → ℕ → ℕ → List (String × String) → Status

-- `ORDER BY started_at`
insert_by_start : CallRow → List CallRow → List CallRow
insert_by_start c [] = c ∷ []
insert_by_start c (d ∷ ds) =
    if leb c.started_at d.started_at then c ∷ d ∷ ds else d ∷ insert_by_start c ds

unfoldable pub order_by_start : List CallRow → List CallRow
unfolding insert_by_start
order_by_start [] = []
order_by_start (c ∷ cs) = insert_by_start c (order_by_start cs)

status_row : ℕ → Option LeaseRow → List CallRow → Status
unfolding order_by_start ttl_ms select_where
status_row now none calls = free
status_row now (some row) calls = held row.holder row.acquired_at (ttl_ms row.expires_at now) (
    map (λ c. (c.call_id, c.tool))
      (order_by_start (select_where (λ c. c.holder == row.holder) calls)))

unfoldable pub status_sync : ℕ → Db → Db × Status
unfolding status_row expire_locked
status_sync now db =
    let db' = expire_locked now db in
    (db', status_row now db'.mutating_lease db'.mutating_lease_calls)
