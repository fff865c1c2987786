-- ===== src/Pool.antt =====
-- `PerPrincipalMCPPool` of src/openagent_host_tools/mcp_stdio.py: one adapter of a server for each
-- network and account, with a port of its own. An adapter is the number of its construction; a port
-- is locked while this pool holds its lock file.
pub mod Isolation
pub mod Histories
mod Tests
use Prim.Native.String
use openagent_host_tools.Base.{
  ℕ, zero, suc, ◌+◌, ◌%◌, String, Bool, true, false, not, ◌&&◌, ◌||◌, nat_eq, Option, none, some,
  List, [], ◌∷◌, has, insert, without, member, add, discard, if◌then◌else◌, ◌==◌, strip, Value,
  null, bool, int, float, str, arr, obj, foreign, Fields, end, HostError, Outcome, ok, raise, crash,
}
use openagent_host_tools.Base.Maps.{find, put, pop}
use openagent_host_tools.Types.{get_value}

pub record Pool : Type 0 where
  pub instances : List (String × ℕ)
  pub ports : List (String × ℕ)
  pub principal_accounts : List (String × String)
  pub account_principals : List (String × List String)
  -- `_instance_health` and `_instance_reasons`, which have the same keys
  pub health : List (String × (Bool × Option String))
  pub built : ℕ
  pub locked : List ℕ

abbrev pub init : Pool
init = record {
  instances = [];
  ports = [];
  principal_accounts = [];
  account_principals = [];
  health = [];
  built = 0;
  locked = [];
}

unfoldable pub context_required : String → String → HostError
context_required what message = record {
  code = Prim.Native.String.◌++◌ what "_context_required";
  message = message;
  details = end;
}

-- `str` of an id that is a text, an integer or a truth value, without the space around it
module _ (text_of : Value → String) where
  unfoldable pub id_text : Value → Option String
  unfolding strip
  id_text (str s) = some (strip s)
  id_text (int z) = some (strip (text_of (int z)))
  id_text (bool b) = some (strip (text_of (bool b)))
  id_text _ = none

  unfoldable pub is_given : Option String → Bool
  is_given none = false
  is_given (some s) = not (s == "")

  abbrev pub text_or_empty : Option String → String
  text_or_empty none = ""
  text_or_empty (some s) = s

  -- The key of an object; `dump` is the text of `json.dumps` of the account and the network.
  unfoldable pub key_of : (String → String → String) → Value → Outcome String
  unfolding id_text is_given context_required get_value
  key_of dump (obj value) =
      let account = id_text (get_value "account_id" value) in
      let network = id_text (get_value "network_id" value) in
      if is_given account
      then if is_given network
        then ok (dump (text_or_empty account) (text_or_empty network))
        else raise
            (context_required "network" "agent-in-chrome cannot run without a certified network id")
      else raise
          (context_required "account" "agent-in-chrome cannot run without an isolated account id")
  key_of dump value =
      raise (context_required "account" "agent-in-chrome cannot run without an isolated account id")

-- `_PortLease.acquire`: the port at an offset from the start that the digest of the key gives, and
-- the first of 512 that is free and whose lock file is not held.
unfoldable pub port_at : ℕ → ℕ → ℕ
port_at digest offset = 28000 + (digest % 18000 + offset) % 18000

unfoldable pub first_free : (ℕ → Bool) → List ℕ → ℕ → ℕ → ℕ → Option ℕ
unfolding port_at
first_free free locked digest zero offset = none
first_free free locked digest (suc n) offset =
    let rest = first_free free locked digest n (suc offset) in
    if free (port_at digest offset) && not (has (port_at digest offset) locked)
    then some (port_at digest offset)
    else rest

unfoldable pub acquire : (ℕ → Bool) → List ℕ → ℕ → Option ℕ
unfolding first_free
acquire free locked digest = first_free free locked digest 512 0

abbrev pub principals_of : String → Pool → List String
principals_of key pool = elim (find key pool.account_principals) [ none ↦ [] | some ps ↦ ps ]

-- `call` up to the search for the adapter.
unfoldable pub enroll : String → String → Pool → Pool
unfolding put find add
enroll principal key pool = record pool {
  principal_accounts = put principal key pool.principal_accounts;
  account_principals = put key (add principal (principals_of key pool)) pool.account_principals;
}

-- The new adapter of a key, which is kept whether it started or not.
unfoldable pub keep : String → ℕ → Bool → Option String → Pool → Pool
unfolding put insert
keep key port available reason pool = record pool {
  instances = put key pool.built pool.instances;
  ports = put key port pool.ports;
  health = put key (available, reason) pool.health;
  built = suc pool.built;
  locked = insert port pool.locked;
}

unfoldable pub port_unavailable : HostError
port_unavailable = record {
  code = "chrome_port_unavailable";
  message = "no isolated Chrome CDP port is available";
  details = end;
}

-- How `adapter.start()` ends, on a port. A cancellation is no `Exception`: the adapter is not kept,
-- and its port is given up with it.
unfoldable pub start_on : String → ℕ → Outcome (Unit {0}) → Pool → Pool × Outcome ℕ
unfolding keep
start_on key port (ok _) pool = (keep key port true none pool, ok pool.built)
start_on key port (raise e) pool = (keep key port false (some e.message) pool, raise e)
start_on key port (crash t) pool =
    if t == "CancelledError"
    then (record pool { built = suc pool.built }, crash t)
    else (keep key port false (some t) pool, crash t)

unfoldable pub build : String → Option ℕ → Outcome (Unit {0}) → Pool → Pool × Outcome ℕ
unfolding start_on port_unavailable
build key none started pool = (pool, raise port_unavailable)
build key (some port) started pool = start_on key port started pool

unfoldable pub adapter_of :
    String → Option ℕ → (ℕ → Bool) → ℕ → Outcome (Unit {0}) → Pool → Pool × Outcome ℕ
unfolding build acquire
adapter_of key (some adapter) free digest started pool = (pool, ok adapter)
adapter_of key none free digest started pool =
    build key (acquire free pool.locked digest) started pool

-- `call` up to the call of the adapter.
unfoldable pub obtain :
    String → String → (ℕ → Bool) → ℕ → Outcome (Unit {0}) → Pool → Pool × Outcome ℕ
unfolding enroll adapter_of find
obtain principal key free digest started pool =
    adapter_of key (find key pool.instances) free digest started (enroll principal key pool)

abbrev pub unlock : Option ℕ → List ℕ → List ℕ
unlock none ports = ports
unlock (some port) ports = without port ports

-- The end of an adapter whose last principal left, once it is closed and its port is free.
unfoldable pub drop_key : String → Pool → Pool
unfolding find pop without
drop_key key pool = record pool {
  account_principals = pop key pool.account_principals;
  instances = pop key pool.instances;
  ports = pop key pool.ports;
  health = pop key pool.health;
  locked = unlock (find key pool.ports) pool.locked;
}

unfoldable pub leave_key : String → String → Pool → Option (List String) → Pool
unfolding discard put drop_key
leave_key principal key pool none = drop_key key pool
leave_key principal key pool (some principals) = elim (discard principal principals) [
  | [] ↦ drop_key key pool
  | p ∷ ps ↦ record pool { account_principals = put key (p ∷ ps) pool.account_principals }
]

unfoldable pub release_of : String → Option String → Pool → Pool
unfolding leave_key find
release_of principal none pool = pool
release_of principal (some key) pool =
    leave_key principal key pool (find key pool.account_principals)

-- `release_principal`
unfoldable pub release_principal : String → Pool → Pool
unfolding release_of find pop
release_principal principal pool =
    release_of principal (find principal pool.principal_accounts)
      (record pool { principal_accounts = pop principal pool.principal_accounts })

-- `_instance_state_changed`, by an adapter of the pool.
unfoldable pub state_changed : String → ℕ → Bool → Option String → Pool → Pool
unfolding find put
state_changed key adapter available reason pool = elim (find key pool.instances) [
  | none ↦ pool
  | some current ↦
      if nat_eq current adapter
      then record pool { health = put key (available, reason) pool.health }
      else pool
]

-- `availability_for_principal`, by the key of the principal.
unfoldable pub availability : String → Pool → Bool × Option String
unfolding find
availability key pool = elim (find key pool.instances) [
  | none ↦ (true, none)
  | some adapter ↦ elim (find key pool.health) [ none ↦ (false, none) | some state ↦ state ]
]

unfoldable pub unlock_all : List (String × ℕ) → List ℕ → List ℕ
unfolding without
unlock_all [] ports = ports
unlock_all ((key, port) ∷ leases) ports = without port (unlock_all leases ports)

-- `close`
unfoldable pub close : Pool → Pool
unfolding unlock_all
close pool = record pool {
  instances = [];
  ports = [];
  principal_accounts = [];
  account_principals = [];
  health = [];
  locked = unlock_all pool.ports pool.locked;
}
