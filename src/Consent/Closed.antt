-- ===== src/Consent/Closed.antt =====
-- The consent is given only by a file that gives it, and by the one that `set_enabled` writes.
use openagent_host_tools.Base.{
  zero, suc, ◌≡◌, refl, sym, subst, ap, ◌∙◌, Bool, true, false, Option, none, some, String, ℤ, pos,
  negsuc, Value, null, bool, int, float, str, arr, obj, foreign, Float, Fields, end, field,
  dict_get, truthy, int_of, Outcome, ok, raise, crash, if-cases,
}
use openagent_host_tools.Types.{get_value}
use openagent_host_tools.Consent.{
  ConsentState, File, missing, unreadable, holds, get_or, caught, is_caught, or_none, float_or_none,
  timed, versioned, load_value, load, to_wire, time_value, granted, set_from, set_enabled,
}

-- A file that gives the consent: an object of version 1 whose field `enabled` counts as true.
pub record Gives (f : File) : Type 0 where
  pub raw : Fields
  pub is_object : f ≡ holds (obj raw)
  pub version : int_of (get_or (int (pos 0)) (dict_get "version" raw)) ≡ ok (pos 1)
  pub enabled : truthy (get_or (bool false) (dict_get "enabled" raw)) ≡ true

-- What an outcome of `load` says: a state that is enabled comes from such a file.
abbrev Sound : Type 0 → Outcome ConsentState → Type 0
Sound G (ok s) = s.enabled ≡ true → G
Sound G (raise e) = Unit {0}
Sound G (crash t) = Unit {0}

caught-Sound : (G : Type 0) (t : String) → Sound G (caught t)
unfolding caught
caught-Sound G t = if-cases (Sound G) (is_caught t) _ _ (λ _ e. absurd (cc e)) (λ _. _)

module _ (float_of : Value → Outcome Float) (f : File) (raw : Fields)
    (is_object : f ≡ holds (obj raw)) where
  timed-Sound :
      (u g : Outcome (Option Float))
      → int_of (get_or (int (pos 0)) (dict_get "version" raw)) ≡ ok (pos 1)
      → Sound (Gives f) (timed float_of raw u g)
  unfolding timed
  timed-Sound (ok u) (ok g) v =
      λ e. record { raw = raw; is_object = is_object; version = v; enabled = e }
  timed-Sound (ok u) (raise e) v = _
  timed-Sound (ok u) (crash t) v = caught-Sound (Gives f) t
  timed-Sound (raise e) g v = _
  timed-Sound (crash t) g v = caught-Sound (Gives f) t

  versioned-Sound :
      (o : Outcome ℤ)
      → int_of (get_or (int (pos 0)) (dict_get "version" raw)) ≡ o
      → Sound (Gives f) (versioned float_of raw o)
  unfolding versioned
  versioned-Sound (ok (pos (suc zero))) v =
      timed-Sound (float_or_none float_of (get_value "updated_at" raw))
        (float_or_none float_of (get_value "granted_at" raw)) v
  versioned-Sound (ok (pos zero)) v = λ e. absurd (cc e)
  versioned-Sound (ok (pos (suc (suc n)))) v = λ e. absurd (cc e)
  versioned-Sound (ok (negsuc n)) v = λ e. absurd (cc e)
  versioned-Sound (raise e) v = _
  versioned-Sound (crash t) v = caught-Sound (Gives f) t

load-Sound : (float_of : Value → Outcome Float) (f : File) → Sound (Gives f) (load float_of f)
unfolding load load_value caught
load-Sound float_of missing = λ e. absurd (cc e)
load-Sound float_of (unreadable t) = caught-Sound _ t
load-Sound float_of (holds (obj raw)) = versioned-Sound float_of (holds (obj raw)) raw refl _ refl
load-Sound float_of (holds null) = _
load-Sound float_of (holds (bool b)) = _
load-Sound float_of (holds (int z)) = _
load-Sound float_of (holds (float x)) = _
load-Sound float_of (holds (str s)) = _
load-Sound float_of (holds (arr vs)) = _
load-Sound float_of (holds (foreign t)) = _

-- A consent that is loaded as given comes from a file that holds an object of version 1 whose field
-- `enabled` counts as true: a missing, unreadable or malformed file, or another version, gives none.
pub load-Gives :
    (float_of : Value → Outcome Float) (f : File) (s : ConsentState)
    → load float_of f ≡ ok s
    → s.enabled ≡ true
    → Gives f
load-Gives float_of f s l e = subst (Sound (Gives f)) l (load-Sound float_of f) e

-- A time that is written reads back.
time-back :
    (float_of : Value → Outcome Float) (o : Option Float)
    → ((x : Float) → float_of (float x) ≡ ok x)
    → float_or_none float_of (time_value o) ≡ ok o
unfolding float_or_none or_none
time-back float_of none exact = refl
time-back float_of (some x) exact = ap (or_none float_of) (exact x)

load-to_wire :
    (float_of : Value → Outcome Float) (enabled : Bool) (updated_at granted_at : Option Float)
    → ((x : Float) → float_of (float x) ≡ ok x)
    → let s : ConsentState = record {
      enabled = enabled;
      version = 1;
      updated_at = updated_at;
      granted_at = granted_at;
    } in
      load float_of (holds (to_wire s)) ≡ ok s
unfolding load load_value to_wire versioned timed
load-to_wire float_of enabled updated_at granted_at exact =
    let raw = field "enabled" (bool enabled) (
      field "version" (int (pos 1)) (
        field "updated_at" (time_value updated_at)
          (field "granted_at" (time_value granted_at) end))) in
    λ i.
      timed float_of raw (time-back float_of updated_at exact i)
        (time-back float_of granted_at exact i)

set_from-load :
    (float_of : Value → Outcome Float) (now : Float) (enabled : Bool) (o : Outcome ConsentState)
    (f g : File) (s : ConsentState)
    → ((x : Float) → float_of (float x) ≡ ok x)
    → set_from float_of now enabled o f ≡ (g, ok s)
    → (load float_of g ≡ ok s) × (s.enabled ≡ enabled)
unfolding set_from
set_from-load float_of now enabled (ok previous) f g s exact h =
    let state : ConsentState = record {
      enabled = enabled;
      version = 1;
      updated_at = some now;
      granted_at = granted float_of now enabled previous.granted_at;
    } in
    let file : holds (to_wire state) ≡ g = λ i. (h i).0 in
    let same : state ≡ s = cc (h) in
    (
      ap (load float_of) (sym file)
          ∙ load-to_wire float_of enabled (some now) state.granted_at exact
          ∙ ap ok same,
      ap (λ (t : ConsentState). t.enabled) (sym same),
    )
set_from-load float_of now enabled (raise e) f g s exact h = absurd (cc (h))
set_from-load float_of now enabled (crash t) f g s exact h = absurd (cc (h))

-- After a setting that succeeds, the consent is loaded as it was set, if `float` gives a float back.
pub load-set_enabled :
    (float_of : Value → Outcome Float) (now : Float) (enabled : Bool) (f g : File)
    (s : ConsentState)
    → ((x : Float) → float_of (float x) ≡ ok x)
    → set_enabled float_of now enabled 1 f ≡ (g, ok s)
    → (load float_of g ≡ ok s) × (s.enabled ≡ enabled)
unfolding set_enabled
load-set_enabled float_of now enabled f g s exact h =
    set_from-load float_of now enabled (load float_of f) f g s exact h
