-- ===== src/Lease/Lock.antt =====
-- The lease as a client understands it: one lock, free or held for one call of one principal.
use openagent_host_tools.Base.{
  ℕ, ◌+◌, String, Bool, true, false, ◌&&◌, some, [], ◌∷◌, leb, if◌then◌else◌, ◌==◌, Outcome, ok,
  raise,
}
use openagent_host_tools.Lease.{LeaseRow, CallRow, Db, empty, Status, ttl_ms, lease_held}

pub record Hold : Type 0 where
  pub principal : String
  pub call_id : String
  pub tool : String
  pub acquired : ℕ
  pub started : ℕ
  pub expires : ℕ

pub data Lock : Type 0 where
  free : Lock
  held : Hold → Lock

-- The two rows that stand for a hold.
abbrev pub lease_row : Hold → LeaseRow
lease_row h = record { holder = h.principal; acquired_at = h.acquired; expires_at = h.expires }

abbrev pub call_row : Hold → CallRow
call_row h = record {
  call_id = h.call_id;
  holder = h.principal;
  tool = h.tool;
  started_at = h.started;
  expires_at = h.expires;
}

-- The tables that a lock is stored in.
abbrev pub store : Lock → Db
store free = empty
store (held h) = record {
  mutating_lease = some (lease_row h);
  mutating_lease_calls = call_row h ∷ [];
}

abbrev pub owns : String → String → Hold → Bool
owns principal call_id h = h.principal == principal && h.call_id == call_id

unfoldable pub settled : ℕ → Lock → Lock
settled now free = free
settled now (held h) = if leb h.expires now then free else held h

fresh : ℕ → ℕ → String → String → String → Hold
fresh duration now principal call_id tool = record {
  principal = principal;
  call_id = call_id;
  tool = tool;
  acquired = now;
  started = now;
  expires = now + duration;
}

enter_settled : ℕ → ℕ → String → String → String → Lock → Lock × Outcome (Unit {0})
unfolding fresh
enter_settled duration now principal call_id tool free =
    (held (fresh duration now principal call_id tool), ok tt)
enter_settled duration now principal call_id tool (held h) =
    if owns principal call_id h
    then (
      held (record (fresh duration now principal call_id tool) { acquired = h.acquired }),
      ok tt,
    )
    else (held h, raise (lease_held now (lease_row h) (some (call_row h))))

unfoldable pub enter : ℕ → ℕ → String → String → String → Lock → Lock × Outcome (Unit {0})
unfolding enter_settled settled
enter duration now principal call_id tool l =
    enter_settled duration now principal call_id tool (settled now l)

renew_settled : ℕ → String → String → Lock → Lock × Bool
renew_settled expires principal call_id free = (free, false)
renew_settled expires principal call_id (held h) =
    if owns principal call_id h
    then (held (record h { expires = expires }), true)
    else (held h, false)

unfoldable pub renew : ℕ → ℕ → String → String → Lock → Lock × Bool
unfolding renew_settled settled
renew duration now principal call_id l =
    renew_settled (now + duration) principal call_id (settled now l)

unfoldable pub leave : String → String → Lock → Lock
leave principal call_id free = free
leave principal call_id (held h) = if owns principal call_id h then free else held h

unfoldable pub release : String → Lock → Lock
release principal free = free
release principal (held h) = if h.principal == principal then free else held h

status_settled : ℕ → Lock → Status
unfolding ttl_ms
status_settled now free = Status.free
status_settled now (held h) =
    Status.held h.principal h.acquired (ttl_ms h.expires now) ((h.call_id, h.tool) ∷ [])

unfoldable pub status : ℕ → Lock → Lock × Status
unfolding status_settled settled
status now l = let l' = settled now l in (l', status_settled now l')
