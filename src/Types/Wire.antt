-- ===== src/Types/Wire.antt =====
-- Results survive the wire, and the canonical fields win over an extension of the same name.
use openagent_host_tools.Base.{
  String, Bool, true, false, not, ◌&&◌, ◌≡◌, refl, ◌∙◌, Option, none, some, arith, if◌then◌else◌,
  ◌==◌, eq_iff, Value, null, bool, arr, obj, Fields, end, field, dict_get, dict_set,
  dict_get-dict_set, ok,
}
use openagent_host_tools.Types.{
  ToolResult, from_wire, to_wire, set_if, is_null, is_empty, is_canonical, drop_canonical,
  get_value, to_list, to_dict, is_error_of,
}

-- No extension field bears a canonical name.
abbrev pub IsExtension : Fields → Type 0
IsExtension end = Unit {0}
IsExtension (field k v fs) = (is_canonical k ≡ false) × IsExtension fs

drop_canonical_lem : (fs : Fields) → IsExtension fs → drop_canonical fs ≡ fs
unfolding drop_canonical
drop_canonical_lem end h = refl
drop_canonical_lem (field k v fs) h = ground (arith, drop_canonical_lem fs h.1)

drop_canonical-dict_set :
    (k : String) (v : Value) (fs : Fields)
    → is_canonical k ≡ true
    → drop_canonical (dict_set k v fs) ≡ drop_canonical fs
unfolding drop_canonical dict_set
drop_canonical-dict_set k v end h = ground arith
drop_canonical-dict_set k v (field j w fs) h =
    ground (arith, eq_iff j k, drop_canonical-dict_set k v fs h)

dict_get-IsExtension :
    (k : String) (fs : Fields) → is_canonical k ≡ true → IsExtension fs → dict_get k fs ≡ none
unfolding dict_get
dict_get-IsExtension k end h x = refl
dict_get-IsExtension k (field j v fs) h x =
    ground (arith, eq_iff j k, dict_get-IsExtension k fs h x.1)

dict_get-set_if :
    (b : Bool) (k j : String) (v : Value) (fs : Fields)
    → dict_get j (set_if b k v fs) ≡ (if b && k == j then some v else dict_get j fs)
unfolding set_if
dict_get-set_if true k j v fs = dict_get-dict_set k j v fs
dict_get-set_if false k j v fs = refl

drop_canonical-set_if :
    (b : Bool) (k : String) (v : Value) (fs : Fields)
    → is_canonical k ≡ true
    → drop_canonical (set_if b k v fs) ≡ drop_canonical fs
unfolding set_if
drop_canonical-set_if true k v fs h = drop_canonical-dict_set k v fs h
drop_canonical-set_if false k v fs h = refl

ruleset wire_laws = (dict_get-set_if, dict_get-dict_set)

-- The canonical fields of the wire form are the result's own, whatever its extension fields are.
pub to_wire-canonical :
    (r : ToolResult)
    → (dict_get "content" (to_wire r) ≡ some (arr r.content))
      × (dict_get "isError" (to_wire r) ≡ some (bool r.is_error))
unfolding to_wire
to_wire-canonical r = (simp wire_laws (ground arith), simp wire_laws (ground arith))

drop_canonical-to_wire : (r : ToolResult) → drop_canonical (to_wire r) ≡ drop_canonical r.extra
unfolding to_wire
drop_canonical-to_wire r =
    drop_canonical-set_if _ "_meta" _ _ refl
    ∙ drop_canonical-set_if _ "structuredContent" _ _ refl
    ∙ drop_canonical-dict_set "isError" _ _ refl
    ∙ drop_canonical-dict_set "content" _ _ refl

-- `None if missing`, of a field that is set under a condition.
value_or_null : Option Value → Value
value_or_null none = null
value_or_null (some v) = v

get_value_lem : (k : String) (fs : Fields) → get_value k fs ≡ value_or_null (dict_get k fs)
unfolding get_value value_or_null
get_value_lem k fs = ground arith

module _ (r : ToolResult) (x : IsExtension r.extra) where
  content_back : to_list (get_value "content" (to_wire r)) ≡ ok r.content
  unfolding value_or_null to_list
  content_back = rw (get_value_lem, (to_wire-canonical r).0)

  structured_field :
      get_value "structuredContent" (to_wire r)
      ≡ (if not (is_null r.structured_content) then r.structured_content else null)
  unfolding to_wire value_or_null
  structured_field =
      rw get_value_lem
        (simp (wire_laws, dict_get-IsExtension "structuredContent" r.extra refl x) (ground arith))

  meta_field : get_value "_meta" (to_wire r) ≡ (if not (is_empty r.meta) then obj r.meta else null)
  unfolding to_wire value_or_null
  meta_field =
      rw get_value_lem
        (simp (wire_laws, dict_get-IsExtension "_meta" r.extra refl x) (ground arith))

structured_back : (v : Value) → (if not (is_null v) then v else null) ≡ v
unfolding is_null
structured_back v = ground arith

meta_back : (m : Fields) → to_dict (if not (is_empty m) then obj m else null) ≡ ok m
unfolding to_dict is_empty
meta_back end = refl
meta_back (field k v fs) = refl

-- What a result becomes on the wire reads back as the same result, if none of its extension fields
-- bears a canonical name.
pub from_wire-to_wire : (r : ToolResult) → IsExtension r.extra → from_wire (to_wire r) ≡ ok r
unfolding from_wire
from_wire-to_wire r x =
    rw
      (
        content_back r x,
        meta_field r x,
        meta_back,
        structured_field r x,
        structured_back,
        (to_wire-canonical r).1,
        drop_canonical-to_wire r,
        drop_canonical_lem r.extra x,
      )
      (unfold is_error_of in refl)
