-- ===== src/Mcp/Restart.antt =====
-- `_restart_loop`: the rounds that start a lost server again. What others do to the adapter meanwhile
-- is an argument: `sleep` while the loop sleeps, `acquire` while it waits for the spawn lock,
-- `notify` in the callback and `tick` in `asyncio.sleep(0)`; `launch` is `_launch`.
use Prim.Native.Nat.{◌^◌}
use openagent_host_tools.Base.{
  ℕ, zero, suc, ◌*◌, ◌≤◌, ◌≡◌, String, false, ◌||◌, Option, none, some, List, [], ◌∷◌, ltb, leb,
  if◌then◌else◌, Outcome, ok, raise, crash, is_some, not, ◌==◌,
}
use openagent_host_tools.Mcp.{Adapter, is_running, mark_unavailable}

-- How a round ends: the loop goes on, or is left by `return` or by the exception of a cancellation.
pub data Round : Type 0 where
  again : Adapter → Round
  returns : Adapter → Round
  raises : Adapter → Round

abbrev min : ℕ → ℕ → ℕ
min m n = if leb m n then m else n

-- The delay before an attempt, whose exponent is the number of attempts before it.
unfoldable pub delay_of : ℕ → ℕ → ℕ → ℕ
delay_of initial maximum attempts = min maximum (initial * 2 ^ attempts)

-- The delay of a round, before those of the rounds after it.
unfoldable pub prefixed : ℕ → Option (Adapter × List ℕ) → Option (Adapter × List ℕ)
prefixed delay none = none
prefixed delay (some (a, delays)) = some (a, delay ∷ delays)

unfoldable pub after_round :
    (Adapter → Option (Adapter × List ℕ)) → ℕ → Round → Option (Adapter × List ℕ)
unfolding prefixed
after_round continue delay (again a) = prefixed delay (continue a)
after_round continue delay (returns a) = some (a, delay ∷ [])
after_round continue delay (raises a) = some (a, delay ∷ [])

-- What runs while the loop waits, and the message of a failure.
pub record Others : Type 0 where
  pub sleep : ℕ → Adapter → Adapter
  pub acquire : Adapter → Adapter
  pub notify : Adapter → Adapter
  pub tick : Adapter → Adapter
  pub launch : Adapter → Adapter × Outcome (Unit {0})
  pub failure : Adapter → String → String

module _ (initial maximum : ℕ) (o : Others) where
  abbrev pub slept : ℕ → Adapter → Adapter
  slept zero a = a
  slept d a = o.sleep d a

  unfoldable pub launched : Adapter × Outcome (Unit {0}) → Round
  unfolding mark_unavailable
  launched (a, ok _) =
      let b = o.tick (o.notify a) in
      if b.restart_requested || not (is_some b.process) then again b else returns b
  launched (a, raise e) = again (o.notify (mark_unavailable (o.failure a e.message) a))
  launched (a, crash t) =
      if t == "CancelledError"
      then raises a
      else again (o.notify (mark_unavailable (o.failure a t) a))

  -- The part of a round under the spawn lock.
  unfoldable pub attempted : Adapter → Round
  unfolding launched
  attempted a =
      if a.closing then returns a else if is_running a then returns a else launched (o.launch a)

  unfoldable pub after_delay : ℕ → Adapter → Round
  unfolding attempted
  after_delay attempt a =
      if a.closing
      then returns a
      else attempted
          (o.acquire (record a { restart_attempts = attempt; restart_requested = false }))

  unfoldable pub round : Adapter → Round
  unfolding after_delay delay_of
  round a =
      after_delay (suc a.restart_attempts) (slept (delay_of initial maximum a.restart_attempts) a)

  -- The adapter that the loop leaves, and the delays of its rounds; none when the fuel is spent.
  unfoldable pub restart_loop : ℕ → Adapter → Option (Adapter × List ℕ)
  unfolding round delay_of after_round
  restart_loop zero a = none
  restart_loop (suc fuel) a =
      let rest =
        after_round (restart_loop fuel) (delay_of initial maximum a.restart_attempts) (round a) in
      if ltb a.restart_attempts a.restart_limit then rest else some (a, [])

-- What others do keeps the limit, and does not set the attempts back: `start` is not called.
pub record IsCalm (f : Adapter → Adapter) : Type 0 where
  pub limit : (a : Adapter) → (f a).restart_limit ≡ a.restart_limit
  pub attempts : (a : Adapter) → a.restart_attempts ≤ (f a).restart_attempts

pub record AreCalm (o : Others) : Type 0 where
  pub sleep : (d : ℕ) → IsCalm (o.sleep d)
  pub acquire : IsCalm o.acquire
  pub notify : IsCalm o.notify
  pub tick : IsCalm o.tick
  pub launch : IsCalm (λ a. (o.launch a).0)

-- A round that goes on has used up an attempt.
abbrev pub Uses : Adapter → Round → Type 0
Uses a (again b) =
    (b.restart_limit ≡ a.restart_limit) × (suc a.restart_attempts ≤ b.restart_attempts)
Uses a (returns b) = Unit {0}
Uses a (raises b) = Unit {0}
