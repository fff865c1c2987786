-- ===== src/Consent.antt =====
-- src/openagent_host_tools/consent.py: the consent of the device, in a file that may be missing or
-- hold anything.
pub mod Closed
mod Tests
use openagent_host_tools.Base.{
  ℕ, zero, suc, Bool, true, false, ◌||◌, not, Option, none, some, if◌then◌else◌, ◌==◌, String, ℤ,
  pos, negsuc, Value, null, bool, int, float, str, obj, Float, Fields, end, field, dict_get, truthy,
  int_of, HostError, Outcome, ok, raise, crash,
}
use openagent_host_tools.Types.{get_value}

abbrev pub consent_version : ℕ
consent_version = 1

-- The times are floats.
pub record ConsentState : Type 0 where
  pub enabled : Bool
  pub version : ℕ
  pub updated_at : Option Float
  pub granted_at : Option Float

-- What `load` finds: no file, one whose reading or `json.loads` raises an exception, or a value.
pub data File : Type 0 where
  missing : File
  unreadable : String → File
  holds : Value → File

-- `ConsentState()`
abbrev pub denied : ConsentState
denied = record { enabled = false; version = consent_version; updated_at = none; granted_at = none }

abbrev pub get_or : Value → Option Value → Value
get_or default none = default
get_or default (some v) = v

-- The clause `except (OSError, ValueError, TypeError, json.JSONDecodeError)`; UnicodeDecodeError and
-- JSONDecodeError are kinds of ValueError.
abbrev pub is_caught : String → Bool
is_caught t =
    t == "OSError"
    || t == "ValueError"
    || t == "TypeError"
    || t == "JSONDecodeError"
    || t == "UnicodeDecodeError"

unfoldable pub caught : String → Outcome ConsentState
caught t = if is_caught t then ok denied else crash t

-- `float` is an argument: its exceptions TypeError and ValueError give None.
module _ (float_of : Value → Outcome Float) where
  unfoldable pub or_none : Outcome Float → Outcome (Option Float)
  or_none (ok f) = ok (some f)
  or_none (raise e) = raise e
  or_none (crash t) = if t == "TypeError" || t == "ValueError" then ok none else crash t

  unfoldable pub float_or_none : Value → Outcome (Option Float)
  unfolding or_none
  float_or_none null = ok none
  float_or_none v = or_none (float_of v)

  unfoldable pub timed :
      Fields → Outcome (Option Float) → Outcome (Option Float) → Outcome ConsentState
  unfolding truthy dict_get caught
  timed raw (ok updated_at) (ok granted_at) = ok (record {
    enabled = truthy (get_or (bool false) (dict_get "enabled" raw));
    version = consent_version;
    updated_at = updated_at;
    granted_at = granted_at;
  })
  timed raw (ok updated_at) (raise e) = raise e
  timed raw (ok updated_at) (crash t) = caught t
  timed raw (raise e) granted_at = raise e
  timed raw (crash t) granted_at = caught t

  unfoldable pub versioned : Fields → Outcome ℤ → Outcome ConsentState
  unfolding timed float_or_none get_value caught
  versioned raw (ok (pos (suc zero))) =
      timed raw (float_or_none (get_value "updated_at" raw))
        (float_or_none (get_value "granted_at" raw))
  versioned raw (ok z) = ok denied
  versioned raw (raise e) = raise e
  versioned raw (crash t) = caught t

  -- `raw.get`, which only a dict has
  unfoldable pub load_value : Value → Outcome ConsentState
  unfolding versioned int_of dict_get caught
  load_value (obj raw) = versioned raw (int_of (get_or (int (pos 0)) (dict_get "version" raw)))
  load_value v = caught "AttributeError"

  unfoldable pub load : File → Outcome ConsentState
  unfolding load_value caught
  load missing = ok denied
  load (unreadable t) = caught t
  load (holds v) = load_value v

-- `state.to_wire()`
abbrev pub time_value : Option Float → Value
time_value none = null
time_value (some f) = float f

unfoldable pub to_wire : ConsentState → Value
to_wire s = obj (
    field "enabled" (bool s.enabled) (
      field "version" (int (pos s.version)) (
        field "updated_at" (time_value s.updated_at)
          (field "granted_at" (time_value s.granted_at) end))))

module _ (float_of : Value → Outcome Float) (now : Float) where
  -- `previous.granted_at or now`
  abbrev pub granted : Bool → Option Float → Option Float
  granted true none = some now
  granted true (some f) = if truthy (float f) then some f else some now
  granted false t = t

  unfoldable pub set_from : Bool → Outcome ConsentState → File → File × Outcome ConsentState
  unfolding to_wire truthy
  set_from enabled (ok previous) f =
      let state : ConsentState = record {
        enabled = enabled;
        version = consent_version;
        updated_at = some now;
        granted_at = granted enabled previous.granted_at;
      } in
      (holds (to_wire state), ok state)
  set_from enabled (raise e) f = (f, raise e)
  set_from enabled (crash t) f = (f, crash t)

  -- `set_enabled`, where the writing of the file does not fail.
  unfoldable pub set_enabled : Bool → ℕ → File → File × Outcome ConsentState
  unfolding set_from load
  set_enabled enabled (suc zero) f = set_from enabled (load float_of f) f
  set_enabled enabled version f = (f, crash "ValueError")
