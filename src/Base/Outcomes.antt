-- ===== src/Base/Outcomes.antt =====
-- `HostError` (src/openagent_host_tools/types.py), results that may raise it or crash with another
-- exception, by the name of its type, and the connection
-- block of sqlite3, which commits when its body returns and rolls back when the body raises.
use Prim.Native.String.{String}
use mathlib.Core.Logic.{◌≢◌}
use mathlib.Core.Path.{◌≡◌, refl}
use openagent_host_tools.Base.Values.{Fields}

pub record HostError : Type 0 where
  pub code : String
  pub message : String
  pub details : Fields

pub data Outcome {ℓ} (A : Type ℓ) : Type ℓ where
  ok : A → Outcome A
  raise : HostError → Outcome A
  crash : String → Outcome A

infixl 5 ◌>>=◌ ◌>>◌
abbrev pub ◌>>=◌ {ℓ κ} : {A : Type ℓ} {B : Type κ} → Outcome A → (A → Outcome B) → Outcome B
ok a >>= f = f a
raise e >>= f = raise e
crash t >>= f = crash t

abbrev pub ◌>>◌ {ℓ} : {B : Type ℓ} → Outcome (Unit {0}) → Outcome B → Outcome B
m >> k = m >>= λ _. k

-- How the block ends: the new tables, or on an exception the old ones.
abbrev pub settle : {T A : Type 0} → T → T × Outcome A → T × Outcome A
settle old (new, ok a) = (new, ok a)
settle old (new, raise e) = (old, raise e)
settle old (new, crash t) = (old, crash t)

-- `with self._connect() as conn: BEGIN IMMEDIATE; …`
abbrev pub transaction : {T A : Type 0} → (T → T × Outcome A) → T → T × Outcome A
transaction body t = settle t (body t)

settle-old :
    {T A : Type 0} (old new : T) (r : Outcome A)
    → ((a : A) → (settle old (new, r)).1 ≢ ok a)
    → (settle old (new, r)).0 ≡ old
settle-old old new (ok a) h = absurd (h a refl)
settle-old old new (raise e) h = refl
settle-old old new (crash t) h = refl

-- A transaction that does not return leaves the tables as they were.
pub transaction_rolls_back :
    {T A : Type 0} (body : T → T × Outcome A) (t : T)
    → ((a : A) → (transaction body t).1 ≢ ok a)
    → (transaction body t).0 ≡ t
transaction_rolls_back body t h = settle-old t (body t).0 (body t).1 h
