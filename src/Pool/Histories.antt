-- ===== src/Pool/Histories.antt =====
-- The histories of a pool, whose accounts stay apart.
use openagent_host_tools.Base.{
  ℕ, String, Bool, Option, none, some, List, [], ◌∷◌, nat_eq, discard, if◌then◌else◌, if-cases,
  Outcome,
}
use openagent_host_tools.Base.Maps.{find, put, pop}
use openagent_host_tools.Pool.{
  Pool, init, enroll, obtain, drop_key, leave_key, release_of, release_principal, state_changed,
  close,
}
use openagent_host_tools.Pool.Isolation.{
  IsIsolated, adapter_of-IsIsolated, enroll-IsIsolated, drop-IsIsolated,
}

-- A call of a principal with the key of its account, the ports that are free then, the digest of the
-- key and the end of the start of a new adapter; a release; a report of an adapter; a closing.
pub data Action : Type 0 where
  obtains : String → String → (ℕ → Bool) → ℕ → Outcome (Unit {0}) → Action
  releases : String → Action
  reports : String → ℕ → Bool → Option String → Action
  closes : Action

unfoldable pub act : Action → Pool → Pool
unfolding obtain release_principal state_changed close
act (obtains principal key free digest started) pool =
    (obtain principal key free digest started pool).0
act (releases principal) pool = release_principal principal pool
act (reports key adapter available reason) pool = state_changed key adapter available reason pool
act closes pool = close pool

unfoldable pub run : List Action → Pool → Pool
unfolding act
run [] pool = pool
run (a ∷ actions) pool = run actions (act a pool)

-- Other tables than those of the adapters and ports do not matter.
with_principals :
    (accounts : List (String × String)) (principals : List (String × List String))
    (health : List (String × (Bool × Option String))) (pool : Pool)
    → IsIsolated pool
    → IsIsolated (record pool {
      principal_accounts = accounts;
      account_principals = principals;
      health = health;
    })
with_principals accounts principals health pool w = record {
  adapters = w.adapters;
  built = w.built;
  ports = w.ports;
  locked = w.locked;
  in_range = w.in_range;
}

left-IsIsolated :
    (key : String) (principals : List String) (pool : Pool)
    → IsIsolated pool
    → IsIsolated (elim principals [
      | [] ↦ drop_key key pool
      | p ∷ ps ↦ record pool { account_principals = put key (p ∷ ps) pool.account_principals }
    ])
left-IsIsolated key [] pool w = drop-IsIsolated key pool w
left-IsIsolated key (p ∷ ps) pool w =
    with_principals pool.principal_accounts (put key (p ∷ ps) pool.account_principals) pool.health
      pool w

leave_key-IsIsolated :
    (principal key : String) (pool : Pool) (o : Option (List String))
    → IsIsolated pool
    → IsIsolated (leave_key principal key pool o)
unfolding leave_key
leave_key-IsIsolated principal key pool none w = drop-IsIsolated key pool w
leave_key-IsIsolated principal key pool (some ps) w =
    left-IsIsolated key (discard principal ps) pool w

release_of-IsIsolated :
    (principal : String) (o : Option String) (pool : Pool)
    → IsIsolated pool
    → IsIsolated (release_of principal o pool)
unfolding release_of
release_of-IsIsolated principal none pool w = w
release_of-IsIsolated principal (some key) pool w =
    leave_key-IsIsolated principal key pool (find key pool.account_principals) w

reported-IsIsolated :
    (key : String) (adapter : ℕ) (available : Bool) (reason : Option String) (o : Option ℕ)
    (pool : Pool)
    → IsIsolated pool
    → IsIsolated (elim o [
      | none ↦ pool
      | some current ↦
          if nat_eq current adapter
          then record pool { health = put key (available, reason) pool.health }
          else pool
    ])
reported-IsIsolated key adapter available reason none pool w = w
reported-IsIsolated key adapter available reason (some current) pool w =
    if-cases IsIsolated (nat_eq current adapter) _ _
      (λ _.
        with_principals pool.principal_accounts pool.account_principals
          (put key (available, reason) pool.health) pool w)
      (λ _. w)

act-IsIsolated : (a : Action) (pool : Pool) → IsIsolated pool → IsIsolated (act a pool)
unfolding act obtain release_principal state_changed close find
act-IsIsolated (obtains principal key free digest started) pool w =
    adapter_of-IsIsolated key (find key pool.instances) free digest started
      (enroll principal key pool) (enroll-IsIsolated principal key pool w)
act-IsIsolated (releases principal) pool w =
    release_of-IsIsolated principal (find principal pool.principal_accounts) _ (
      with_principals (pop principal pool.principal_accounts) pool.account_principals pool.health
        pool w)
act-IsIsolated (reports key adapter available reason) pool w =
    reported-IsIsolated key adapter available reason (find key pool.instances) pool w
act-IsIsolated closes pool w = record {
  adapters = λ j k v hj hk. absurd (cc (hj));
  built = λ k i h. absurd (cc (h));
  ports = λ j k v hj hk. absurd (cc (hj));
  locked = λ k p h. absurd (cc (h));
  in_range = λ k p h. absurd (cc (h));
}

kept-IsIsolated :
    (actions : List Action) (pool : Pool) → IsIsolated pool → IsIsolated (run actions pool)
unfolding run
kept-IsIsolated [] pool w = w
kept-IsIsolated (a ∷ actions) pool w =
    kept-IsIsolated actions (act a pool) (act-IsIsolated a pool w)

-- In every history of a new pool, two accounts have different adapters and different ports; each
-- port is one of 28000 up to 45999, and the pool holds its lock file.
pub run-IsIsolated : (actions : List Action) → IsIsolated (run actions init)
unfolding find
run-IsIsolated actions = kept-IsIsolated actions init (record {
  adapters = λ j k v hj hk. absurd (cc (hj));
  built = λ k i h. absurd (cc (h));
  ports = λ j k v hj hk. absurd (cc (hj));
  locked = λ k p h. absurd (cc (h));
  in_range = λ k p h. absurd (cc (h));
})
