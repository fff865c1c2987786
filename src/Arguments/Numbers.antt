-- ===== src/Arguments/Numbers.antt =====
-- The normal form of the numbers in tool arguments.
use openagent_host_tools.Base.{
  String, Bool, true, false, ◌&&◌, ◌≡◌, refl, ap, ◌∙◌, ℤ, nan, infinity, negative_zero, integral,
  fraction, Float, Value, null, bool, int, float, str, arr, obj, foreign, Items, nil, cons, Fields,
  end, field, pos, Outcome, ok, raise, crash,
}
use openagent_host_tools.Arguments.{
  normalize_float, cons_ok, field_ok, map_ok, normalize, normalize_items, normalize_fields,
  arguments_sha256, fingerprint,
}

abbrev pub is_ok {ℓ} : {A : Type ℓ} → Outcome A → Bool
is_ok (ok a) = true
is_ok _ = false

abbrev pub is_finite : Float → Bool
is_finite nan = false
is_finite (infinity negative) = false
is_finite _ = true

-- The values that JSON has.
unfoldable mutual
  pub is_json : Value → Bool
  is_json (float f) = is_finite f
  is_json (arr vs) = are_json vs
  is_json (obj fs) = has_json fs
  is_json (foreign t) = false
  is_json _ = true

  pub are_json : Items → Bool
  are_json nil = true
  are_json (cons v vs) = is_json v && are_json vs

  pub has_json : Fields → Bool
  has_json end = true
  has_json (field k v fs) = is_json v && has_json fs

-- Two values that are the same but for the form of their numbers.
mutual
  pub data Same : Value → Value → Type 0 where
    same : (v : Value) → Same v v
    integral_int : (n : ℤ) → Same (float (integral n)) (int n)
    int_integral : (n : ℤ) → Same (int n) (float (integral n))
    zero_int : Same (float negative_zero) (int (pos 0))
    int_zero : Same (int (pos 0)) (float negative_zero)
    zero_zero : Same (float negative_zero) (float (integral (pos 0)))
    zero_negative : Same (float (integral (pos 0))) (float negative_zero)
    arrays : {vs ws : Items} → SameItems vs ws → Same (arr vs) (arr ws)
    objects : {fs gs : Fields} → SameFields fs gs → Same (obj fs) (obj gs)

  pub data SameItems : Items → Items → Type 0 where
    no_items : SameItems nil nil
    items :
        {v w : Value} {vs ws : Items}
        → Same v w
        → SameItems vs ws
        → SameItems (cons v vs) (cons w ws)

  pub data SameFields : Fields → Fields → Type 0 where
    no_fields : SameFields end end
    fields :
        (k : String) {v w : Value} {fs gs : Fields}
        → Same v w
        → SameFields fs gs
        → SameFields (field k v fs) (field k w gs)

mutual
  unfolding normalize normalize_float

  normalize-Same : {v w : Value} → Same v w → normalize v ≡ normalize w
  normalize-Same (same v) = refl
  normalize-Same (integral_int n) = refl
  normalize-Same (int_integral n) = refl
  normalize-Same zero_int = refl
  normalize-Same int_zero = refl
  normalize-Same zero_zero = refl
  normalize-Same zero_negative = refl
  normalize-Same (arrays s) = ap (map_ok arr) (normalize_items-SameItems s)
  normalize-Same (objects s) = ap (map_ok obj) (normalize_fields-SameFields s)

  normalize_items-SameItems :
      {vs ws : Items} → SameItems vs ws → normalize_items vs ≡ normalize_items ws
  normalize_items-SameItems no_items = refl
  normalize_items-SameItems (items s ss) =
      λ i. cons_ok (normalize-Same s i) (normalize_items-SameItems ss i)

  normalize_fields-SameFields :
      {fs gs : Fields} → SameFields fs gs → normalize_fields fs ≡ normalize_fields gs
  normalize_fields-SameFields no_fields = refl
  normalize_fields-SameFields (fields k s ss) =
      λ i. field_ok k (normalize-Same s i) (normalize_fields-SameFields ss i)

normalize_float-is_ok : (f : Float) → is_ok (normalize_float f) ≡ is_finite f
unfolding normalize_float
normalize_float-is_ok nan = refl
normalize_float-is_ok (infinity negative) = refl
normalize_float-is_ok negative_zero = refl
normalize_float-is_ok (integral n) = refl
normalize_float-is_ok (fraction m k) = refl

module _ {A B : Type 0} where
  is_ok-map_ok : (f : A → B) (r : Outcome A) → is_ok (map_ok f r) ≡ is_ok r
  is_ok-map_ok f (ok a) = refl
  is_ok-map_ok f (raise e) = refl
  is_ok-map_ok f (crash t) = refl

is_ok-cons_ok :
    (v : Outcome Value) (vs : Outcome Items) → is_ok (cons_ok v vs) ≡ (is_ok v && is_ok vs)
is_ok-cons_ok (ok v) (ok vs) = refl
is_ok-cons_ok (ok v) (raise e) = refl
is_ok-cons_ok (ok v) (crash t) = refl
is_ok-cons_ok (raise e) vs = refl
is_ok-cons_ok (crash t) vs = refl

is_ok-field_ok :
    (k : String) (v : Outcome Value) (fs : Outcome Fields)
    → is_ok (field_ok k v fs) ≡ (is_ok v && is_ok fs)
is_ok-field_ok k (ok v) (ok fs) = refl
is_ok-field_ok k (ok v) (raise e) = refl
is_ok-field_ok k (ok v) (crash t) = refl
is_ok-field_ok k (raise e) fs = refl
is_ok-field_ok k (crash t) fs = refl

mutual
  unfolding normalize is_json

  normalize-is_ok : (v : Value) → is_ok (normalize v) ≡ is_json v
  normalize-is_ok null = refl
  normalize-is_ok (bool b) = refl
  normalize-is_ok (int n) = refl
  normalize-is_ok (float f) = normalize_float-is_ok f
  normalize-is_ok (str s) = refl
  normalize-is_ok (arr vs) = is_ok-map_ok arr (normalize_items vs) ∙ normalize_items-is_ok vs
  normalize-is_ok (obj fs) = is_ok-map_ok obj (normalize_fields fs) ∙ normalize_fields-is_ok fs
  normalize-is_ok (foreign t) = refl

  normalize_items-is_ok : (vs : Items) → is_ok (normalize_items vs) ≡ are_json vs
  normalize_items-is_ok nil = refl
  normalize_items-is_ok (cons v vs) = is_ok-cons_ok (normalize v) (normalize_items vs) ∙ λ i.
      (normalize-is_ok v i && normalize_items-is_ok vs i)

  normalize_fields-is_ok : (fs : Fields) → is_ok (normalize_fields fs) ≡ has_json fs
  normalize_fields-is_ok end = refl
  normalize_fields-is_ok (field k v fs) =
      is_ok-field_ok k (normalize v) (normalize_fields fs) ∙ λ i.
      (normalize-is_ok v i && normalize_fields-is_ok fs i)

-- Arguments that differ only in the form of their numbers have the same digest, and calls of a tool
-- with them the same fingerprint.
pub arguments_sha256-SameFields :
    (digest : Value → String) (fs gs : Fields)
    → SameFields fs gs
    → (arguments_sha256 digest fs ≡ arguments_sha256 digest gs)
      × ((server tool : String)
          → fingerprint digest server tool fs ≡ fingerprint digest server tool gs)
unfolding arguments_sha256 fingerprint
arguments_sha256-SameFields digest fs gs s =
    let e = normalize_fields-SameFields s in
    (
      ap (map_ok (λ hs. digest (obj hs))) e,
      λ server tool.
          ap
            (map_ok λ hs. digest (
              obj (
                field "server" (str server) (field "tool" (str tool) (field "args" (obj hs) end)))))
            e,
    )

-- Arguments have a digest, and calls a fingerprint, just when they are JSON values: no number in
-- them is a NaN or infinite, and no value is of another type.
pub arguments_sha256-has_json :
    (digest : Value → String) (server tool : String) (fs : Fields)
    → (is_ok (arguments_sha256 digest fs) ≡ has_json fs)
      × (is_ok (fingerprint digest server tool fs) ≡ has_json fs)
unfolding arguments_sha256 fingerprint
arguments_sha256-has_json digest server tool fs = (
  is_ok-map_ok _ (normalize_fields fs) ∙ normalize_fields-is_ok fs,
  is_ok-map_ok _ (normalize_fields fs) ∙ normalize_fields-is_ok fs,
)
