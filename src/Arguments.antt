-- ===== src/Arguments.antt =====
-- The digests of tool arguments (src/openagent_host_tools/idempotency.py): numbers are brought to one
-- form, so that clients in other languages compute the same digest. `digest` is the SHA-256 of the
-- JSON text that `json.dumps` makes of a value with sorted keys. Keys of a dict are texts here.
pub mod Numbers
mod Tests
use openagent_host_tools.Base.{
  nan, infinity, negative_zero, integral, fraction, String, Float, Value, null, bool, int, float,
  str, arr, obj, foreign, Items, nil, cons, Fields, end, field, pos, HostError, Outcome, ok, raise,
  crash,
}
use Prim.Native.String.{◌++◌ as text_append}

unfoldable pub not_finite : HostError
not_finite = record {
  code = "invalid_arguments";
  message = "NaN and Infinity are not valid tool arguments";
  details = end;
}

unfoldable pub unsupported : String → HostError
unsupported type_name = record {
  code = "invalid_arguments";
  message = text_append "tool arguments contain unsupported value " type_name;
  details = end;
}

unfoldable pub normalize_float : Float → Outcome Value
unfolding not_finite
normalize_float nan = raise not_finite
normalize_float (infinity negative) = raise not_finite
normalize_float negative_zero = ok (int (pos 0))
normalize_float (integral n) = ok (int n)
normalize_float (fraction m k) = ok (float (fraction m k))

-- The steps of the two comprehensions.
abbrev pub cons_ok : Outcome Value → Outcome Items → Outcome Items
cons_ok (ok v) (ok vs) = ok (cons v vs)
cons_ok (ok v) (raise e) = raise e
cons_ok (ok v) (crash t) = crash t
cons_ok (raise e) vs = raise e
cons_ok (crash t) vs = crash t

abbrev pub field_ok : String → Outcome Value → Outcome Fields → Outcome Fields
field_ok k (ok v) (ok fs) = ok (field k v fs)
field_ok k (ok v) (raise e) = raise e
field_ok k (ok v) (crash t) = crash t
field_ok k (raise e) fs = raise e
field_ok k (crash t) fs = crash t

abbrev pub map_ok : {A B : Type 0} → (A → B) → Outcome A → Outcome B
map_ok f (ok a) = ok (f a)
map_ok f (raise e) = raise e
map_ok f (crash t) = crash t

-- `_normalize_json_numbers`
unfoldable mutual
  unfolding normalize_float unsupported

  pub normalize : Value → Outcome Value
  normalize null = ok null
  normalize (bool b) = ok (bool b)
  normalize (int n) = ok (int n)
  normalize (float f) = normalize_float f
  normalize (str s) = ok (str s)
  normalize (arr vs) = map_ok arr (normalize_items vs)
  normalize (obj fs) = map_ok obj (normalize_fields fs)
  normalize (foreign t) = raise (unsupported t)

  pub normalize_items : Items → Outcome Items
  normalize_items nil = ok nil
  normalize_items (cons v vs) = cons_ok (normalize v) (normalize_items vs)

  pub normalize_fields : Fields → Outcome Fields
  normalize_fields end = ok end
  normalize_fields (field k v fs) = field_ok k (normalize v) (normalize_fields fs)

module _ (digest : Value → String) where
  unfoldable pub arguments_sha256 : Fields → Outcome String
  unfolding normalize_fields
  arguments_sha256 args = map_ok (λ fs. digest (obj fs)) (normalize_fields args)

  unfoldable pub fingerprint : String → String → Fields → Outcome String
  unfolding normalize_fields
  fingerprint server tool args =
      map_ok
        (λ fs.
          digest (
            obj
              (field "server" (str server) (field "tool" (str tool) (field "args" (obj fs) end)))))
        (normalize_fields args)
