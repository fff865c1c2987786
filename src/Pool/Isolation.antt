-- ===== src/Pool/Isolation.antt =====
-- No two accounts share an adapter or a port.
use openagent_host_tools.Base.{
  ℕ, zero, suc, ◌+◌, ◌%◌, ◌≤◌, ◌<◌, ◌≡◌, ◌≢◌, ◌⊎◌, refl, String, Bool, true, false, not, ◌&&◌,
  nat_eq, Option, none, some, List, arith, has, has-insert, has-without, if-cases, Bool-cases, inl,
  inr, ◌==◌, eq_iff, Outcome, ok, raise, crash,
}
use openagent_host_tools.Base.Maps.{find, put, pop, find-put, find-pop}
use openagent_host_tools.Pool.{
  Pool, port_at, first_free, acquire, enroll, keep, start_on, build, adapter_of, unlock, drop_key,
}

-- The values of different keys are different.
abbrev pub AreDistinct : List (String × ℕ) → Type 0
AreDistinct m = (j k : String) (v : ℕ) → find j m ≡ some v → find k m ≡ some v → j ≡ k

-- Two accounts have different adapters and different ports; each port is one of the range, and its
-- lock file is held.
pub record IsIsolated (pool : Pool) : Type 0 where
  pub adapters : AreDistinct pool.instances
  pub built : (k : String) (i : ℕ) → find k pool.instances ≡ some i → i < pool.built
  pub ports : AreDistinct pool.ports
  pub locked : (k : String) (p : ℕ) → find k pool.ports ≡ some p → has p pool.locked ≡ true
  pub in_range : (k : String) (p : ℕ) → find k pool.ports ≡ some p → (28000 ≤ p) × (p < 46000)

put-AreDistinct :
    (key : String) (v : ℕ) (m : List (String × ℕ))
    → ((k : String) → find k m ≢ some v)
    → AreDistinct m
    → AreDistinct (put key v m)
put-AreDistinct key v m new d j k w hj hk = elim (Bool-cases (key == j)) [
  | inl ej ↦ elim (Bool-cases (key == k)) [
    | inl ek ↦ ground (arith, ej, ek, eq_iff key j, eq_iff key k)
    | inr ek ↦
        absurd (new k (ground (arith, ej, ek, hj, hk, find-put key j v m, find-put key k v m)))
  ]
  | inr ej ↦ elim (Bool-cases (key == k)) [
    | inl ek ↦
        absurd (new j (ground (arith, ej, ek, hj, hk, find-put key j v m, find-put key k v m)))
    | inr ek ↦
        d j k w (ground (arith, ej, hj, find-put key j v m))
          (ground (arith, ek, hk, find-put key k v m))
  ]
]

-- What is found after a key has gone was there before, at another key.
found-pop :
    (key k : String) (v : ℕ) (m : List (String × ℕ))
    → find k (pop key m) ≡ some v
    → (key ≢ k) × (find k m ≡ some v)
found-pop key k v m h = (
  λ e. absurd (ground (arith, h, find-pop key k m, eq_iff key k, e)),
  ground (arith, h, find-pop key k m),
)

pop-AreDistinct : (key : String) (m : List (String × ℕ)) → AreDistinct m → AreDistinct (pop key m)
pop-AreDistinct key m d j k v hj hk = d j k v (found-pop key j v m hj).1 (found-pop key k v m hk).1

first_free-new :
    (free : ℕ → Bool) (locked : List ℕ) (digest n offset p : ℕ)
    → first_free free locked digest n offset ≡ some p
    → (has p locked ≡ false) × (28000 ≤ p) × (p < 46000)
unfolding first_free port_at
first_free-new free locked digest zero offset p h = absurd (cc (h))
first_free-new free locked digest (suc n) offset p h =
    let at = 28000 + (digest % 18000 + offset) % 18000 in
    elim (Bool-cases (free at && not (has at locked))) [
      | inl e ↦
          let same : at ≡ p = ground (arith, h, e) in
          (ground (arith, e, same), omega (arith, same), omega (arith, same))
      | inr e ↦ first_free-new free locked digest n (suc offset) p (ground (arith, h, e))
    ]

-- What is found after a put is the new value, or was there before.
found-put :
    (key k : String) (v x : ℕ) (m : List (String × ℕ))
    → find k (put key v m) ≡ some x
    → (x ≡ v) ⊎ (find k m ≡ some x)
found-put key k v x m h = elim (Bool-cases (key == k)) [
  | inl e ↦ inl (ground (arith, h, e, find-put key k v m))
  | inr e ↦ inr (ground (arith, h, e, find-put key k v m))
]

-- What a new adapter on a new port makes of the pool.
keep-IsIsolated :
    (key : String) (port : ℕ) (available : Bool) (reason : Option String) (pool : Pool)
    → has port pool.locked ≡ false
    → 28000 ≤ port
    → port < 46000
    → IsIsolated pool
    → IsIsolated (keep key port available reason pool)
unfolding keep
keep-IsIsolated key port available reason pool new low high w = record {
  adapters =
      put-AreDistinct key pool.built pool.instances (λ k h. omega (arith, w.built k pool.built h))
        w.adapters;
  built = λ k i h. elim (found-put key k pool.built i pool.instances h) [
    | inl e ↦ omega (arith, e)
    | inr old ↦ omega (arith, w.built k i old)
  ];
  ports = put-AreDistinct key port pool.ports (λ k h. absurd (cc (new, w.locked k port h))) w.ports;
  locked = λ k p h. elim (found-put key k port p pool.ports h) [
    | inl e ↦ ground (arith, e, has-insert port p pool.locked)
    | inr old ↦ ground (arith, w.locked k p old, has-insert port p pool.locked)
  ];
  in_range = λ k p h. elim (found-put key k port p pool.ports h) [
    | inl e ↦ (omega (arith, e, low), omega (arith, e, high))
    | inr old ↦ w.in_range k p old
  ];
}

-- The port of one key stays locked when that of another is unlocked.
unlock-locked :
    (key k : String) (p : ℕ) (pool : Pool)
    → IsIsolated pool
    → key ≢ k
    → find k pool.ports ≡ some p
    → (o : Option ℕ) → find key pool.ports ≡ o
    → has p (unlock o pool.locked) ≡ true
unlock-locked key k p pool w other old none e = w.locked k p old
unlock-locked key k p pool w other old (some q) e = elim (Bool-cases (nat_eq q p)) [
  | inl same ↦
      let q_is_p : q ≡ p = ground (arith, same) in
      absurd (other (w.ports key k p (cc (e, q_is_p)) old))
  | inr different ↦ ground (arith, has-without q p pool.locked, different, w.locked k p old)
]

pub drop-IsIsolated :
    (key : String) (pool : Pool) → IsIsolated pool → IsIsolated (drop_key key pool)
unfolding drop_key
drop-IsIsolated key pool w = record {
  adapters = pop-AreDistinct key pool.instances w.adapters;
  built = λ k i h. w.built k i (found-pop key k i pool.instances h).1;
  ports = pop-AreDistinct key pool.ports w.ports;
  locked = λ k p h.
      let (other, old) = found-pop key k p pool.ports h in
      unlock-locked key k p pool w other old (find key pool.ports) refl;
  in_range = λ k p h. w.in_range k p (found-pop key k p pool.ports h).1;
}

start_on-IsIsolated :
    (key : String) (port : ℕ) (started : Outcome (Unit {0})) (pool : Pool)
    → (has port pool.locked ≡ false) × (28000 ≤ port) × (port < 46000)
    → IsIsolated pool
    → IsIsolated (start_on key port started pool).0
unfolding start_on
start_on-IsIsolated key port (ok _) pool f w = keep-IsIsolated key port _ _ pool f.0 f.1 f.2 w
start_on-IsIsolated key port (raise e) pool f w = keep-IsIsolated key port _ _ pool f.0 f.1 f.2 w
start_on-IsIsolated key port (crash t) pool f w =
    if-cases (λ (r : Pool × Outcome ℕ). IsIsolated r.0) (t == "CancelledError") _ _
      (λ _. record {
        adapters = w.adapters;
        built = λ k i h. omega (arith, w.built k i h);
        ports = w.ports;
        locked = w.locked;
        in_range = w.in_range;
      })
      (λ _. keep-IsIsolated key port _ _ pool f.0 f.1 f.2 w)

build-IsIsolated :
    (key : String) (free : ℕ → Bool) (digest : ℕ) (o : Option ℕ) (started : Outcome (Unit {0}))
    (pool : Pool)
    → acquire free pool.locked digest ≡ o
    → IsIsolated pool
    → IsIsolated (build key o started pool).0
unfolding build acquire
build-IsIsolated key free digest none started pool e w = w
build-IsIsolated key free digest (some port) started pool e w =
    start_on-IsIsolated key port started pool (first_free-new free pool.locked digest 512 0 port e)
      w

pub adapter_of-IsIsolated :
    (key : String) (o : Option ℕ) (free : ℕ → Bool) (digest : ℕ) (started : Outcome (Unit {0}))
    (pool : Pool)
    → IsIsolated pool
    → IsIsolated (adapter_of key o free digest started pool).0
unfolding adapter_of
adapter_of-IsIsolated key (some adapter) free digest started pool w = w
adapter_of-IsIsolated key none free digest started pool w =
    build-IsIsolated key free digest (acquire free pool.locked digest) started pool refl w

pub enroll-IsIsolated :
    (principal key : String) (pool : Pool)
    → IsIsolated pool
    → IsIsolated (enroll principal key pool)
unfolding enroll
enroll-IsIsolated principal key pool w = record {
  adapters = w.adapters;
  built = w.built;
  ports = w.ports;
  locked = w.locked;
  in_range = w.in_range;
}
