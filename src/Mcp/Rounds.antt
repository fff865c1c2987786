-- ===== src/Mcp/Rounds.antt =====
-- The restart loop ends: each of its rounds uses up one of the attempts that the limit allows.
use openagent_host_tools.Base.{
  ℕ, zero, suc, ◌-◌, ◌≤◌, ◌<◌, ◌≡◌, refl, String, false, ◌||◌, Option, none, some, List, length,
  arith, ltb, if-cases, Outcome, ok, raise, crash, All, is_some, not, ◌==◌,
}
use openagent_host_tools.Mcp.{Adapter, is_running, mark_unavailable}
use openagent_host_tools.Mcp.Restart.{
  Round, again, returns, raises, delay_of, slept, launched, attempted, after_delay, round,
  restart_loop, prefixed, after_round, IsCalm, Uses, Others, AreCalm,
}

delay_of-le : (initial maximum attempts : ℕ) → delay_of initial maximum attempts ≤ maximum
unfolding delay_of
delay_of-le initial maximum attempts = ground arith

-- What a state in a round after an adapter keeps.
abbrev Within : Adapter → Adapter → Type 0
Within a b = (b.restart_limit ≡ a.restart_limit) × (suc a.restart_attempts ≤ b.restart_attempts)

calm-Within : (f : Adapter → Adapter) (a b : Adapter) → IsCalm f → Within a b → Within a (f b)
calm-Within f a b c w = (omega (arith, c.limit b, w.0), omega (arith, c.attempts b, w.1))

module _ (initial maximum : ℕ) (o : Others) (calm : AreCalm o) where
  failed-Uses :
      (a b : Adapter) (t : String)
      → Within a b
      → Uses a (again (o.notify (mark_unavailable (o.failure b t) b)))
  unfolding mark_unavailable
  failed-Uses a b t w = calm-Within o.notify a (mark_unavailable (o.failure b t) b) calm.notify w

  launched-Uses :
      (a b : Adapter) (r : Outcome (Unit {0}))
      → Within a b
      → Uses a (launched initial maximum o (b, r))
  unfolding launched
  launched-Uses a b (ok _) w =
      if-cases (Uses a)
        ((o.tick (o.notify b)).restart_requested || not (is_some (o.tick (o.notify b)).process)) _ _
        (λ _. calm-Within o.tick a (o.notify b) calm.tick (calm-Within o.notify a b calm.notify w))
        (λ _. _)
  launched-Uses a b (raise e) w = failed-Uses a b e.message w
  launched-Uses a b (crash t) w =
      if-cases (Uses a) (t == "CancelledError") _ _ (λ _. _) (λ _. failed-Uses a b t w)

  attempted-Uses : (a b : Adapter) → Within a b → Uses a (attempted initial maximum o b)
  unfolding attempted
  attempted-Uses a b w =
      if-cases (Uses a) b.closing _ _ (λ _. _)
        (λ _.
          if-cases (Uses a) (is_running b) _ _ (λ _. _)
            (λ _.
              launched-Uses a (o.launch b).0 (o.launch b).1
                (calm-Within (λ c. (o.launch c).0) a b calm.launch w)))

  after_delay-Uses :
      (a b : Adapter)
      → b.restart_limit ≡ a.restart_limit
      → Uses a (after_delay initial maximum o (suc a.restart_attempts) b)
  unfolding after_delay
  after_delay-Uses a b l =
      let tried : Adapter = record b {
        restart_attempts = suc a.restart_attempts;
        restart_requested = false;
      } in
      if-cases (Uses a) b.closing _ _ (λ _. _)
        (λ _.
          attempted-Uses a (o.acquire tried)
            (calm-Within o.acquire a tried calm.acquire (l, omega arith)))

  slept-limit :
      (d : ℕ) (a : Adapter) → (slept initial maximum o d a).restart_limit ≡ a.restart_limit
  slept-limit zero a = refl
  slept-limit (suc d) a = (calm.sleep (suc d)).limit a

  round-Uses : (a : Adapter) → Uses a (round initial maximum o a)
  unfolding round
  round-Uses a = after_delay-Uses a _ (slept-limit _ a)

-- What the loop gives with enough fuel: a state, and the delays before at most the given number of
-- attempts, none above the maximum.
abbrev pub Returns : ℕ → ℕ → Option (Adapter × List ℕ) → Type 0
Returns maximum n none = ⊥
Returns maximum n (some (b, delays)) = (length delays ≤ n) × All (λ d. d ≤ maximum) delays

prefixed-Returns :
    (maximum n delay : ℕ) (r : Option (Adapter × List ℕ))
    → delay ≤ maximum
    → Returns maximum n r
    → (m : ℕ) → n < m
    → Returns maximum m (prefixed delay r)
unfolding prefixed
prefixed-Returns maximum n delay none d h m b = h
prefixed-Returns maximum n delay (some (a, delays)) d h m b = (omega (arith, h.0, b), (d, h.1))

after_round-Returns :
    (maximum delay fuel : ℕ) (a : Adapter) (r : Round)
    (continue : Adapter → Option (Adapter × List ℕ))
    → delay ≤ maximum
    → a.restart_attempts < a.restart_limit
    → a.restart_limit - a.restart_attempts < suc fuel
    → Uses a r
    → ((b : Adapter)
        → b.restart_limit - b.restart_attempts < fuel
        → Returns maximum (b.restart_limit - b.restart_attempts) (continue b))
    → Returns maximum (a.restart_limit - a.restart_attempts) (after_round continue delay r)
unfolding after_round
after_round-Returns maximum delay fuel a (again b) continue d l f u h =
    prefixed-Returns maximum (b.restart_limit - b.restart_attempts) delay (continue b) d
      (h b (omega (arith, l, f, u.0, u.1))) _ (omega (arith, l, u.0, u.1))
after_round-Returns maximum delay fuel a (returns b) continue d l f u h = (omega (arith, l), (d, _))
after_round-Returns maximum delay fuel a (raises b) continue d l f u h = (omega (arith, l), (d, _))

module _ (initial maximum : ℕ) (o : Others) (calm : AreCalm o) where
  -- If what others do meanwhile keeps the limit and never sets the attempts back, the restart loop
  -- returns: fuel above the attempts that the limit still allows is enough, it makes at most as many
  -- attempts as that, and the delay before each is at most the maximum.
  pub restart_loop-Returns :
      (fuel : ℕ) (a : Adapter)
      → a.restart_limit - a.restart_attempts < fuel
      → Returns maximum
          (a.restart_limit - a.restart_attempts)
          (restart_loop initial maximum o fuel a)
  unfolding restart_loop
  restart_loop-Returns zero a f = omega (arith, f)
  restart_loop-Returns (suc fuel) a f =
      if-cases (Returns maximum (a.restart_limit - a.restart_attempts))
        (ltb a.restart_attempts a.restart_limit) _ _
        (λ more.
          after_round-Returns maximum (delay_of initial maximum a.restart_attempts) fuel a
            (round initial maximum o a) (restart_loop initial maximum o fuel)
            (delay_of-le initial maximum a.restart_attempts) (ground (arith, more)) f
            (round-Uses initial maximum o calm a) (λ b. restart_loop-Returns fuel b))
        (λ _. (omega arith, _))
