-- ===== src/Consent/Tests.antt =====
-- Files of consent.
use openagent_host_tools.Base.{
  ◌≡◌, refl, true, false, some, Value, float, arr, obj, nil, Float, integral, infinity, end, field,
  pos, Outcome, ok, crash,
}
use openagent_host_tools.Consent.{ConsentState, missing, holds, load, set_enabled, to_wire}
use openagent_host_tools.Consent.Closed.{Gives, load-Gives}

abbrev float_of : Value → Outcome Float
float_of (float x) = ok x
float_of v = crash "TypeError"

abbrev now : Float
now = integral (pos 1700)

abbrev given : ConsentState
given = record { enabled = true; version = 1; updated_at = some now; granted_at = some now }

set_enabled_lem : set_enabled float_of now true 1 missing ≡ (holds (to_wire given), ok given)
unfolding set_enabled
set_enabled_lem = refl

-- A JSON file that holds no object, and a version that is no integer, crash the loading and the
-- setting.
load-array : load float_of (holds (arr nil)) ≡ crash "AttributeError"
unfolding load
load-array = refl

load-infinity :
    load float_of (holds (obj (field "version" (float (infinity false)) end)))
    ≡ crash "OverflowError"
unfolding load
load-infinity = refl

set_enabled-array :
    set_enabled float_of now true 1 (holds (arr nil)) ≡ (holds (arr nil), crash "AttributeError")
unfolding set_enabled
set_enabled-array = refl

given_lem : load float_of (holds (to_wire given)) ≡ ok given
unfolding load to_wire
given_lem = refl

load-Gives_example : Gives (holds (to_wire given))
load-Gives_example = load-Gives float_of (holds (to_wire given)) given given_lem refl
