-- ===== src/Arguments/Tests.antt =====
-- Digests of arguments.
use openagent_host_tools.Base.{
  ◌≡◌, refl, String, Value, int, float, integral, nan, negative_zero, str, arr, nil, cons, Fields,
  end, field, pos, raise,
}
use openagent_host_tools.Arguments.{normalize, not_finite, arguments_sha256, fingerprint}
use openagent_host_tools.Arguments.Numbers.{
  no_fields, fields, integral_int, zero_int, arrays, items, no_items, arguments_sha256-SameFields,
}

-- A digest that only tells strings apart.
abbrev digest : Value → String
digest (str s) = s
digest _ = "digest"

abbrev from_js : Fields
from_js =
    field "timeout" (float (integral (pos 30)))
      (field "range" (arr (cons (float negative_zero) nil)) end)

abbrev from_python : Fields
from_python = field "timeout" (int (pos 30)) (field "range" (arr (cons (int (pos 0)) nil)) end)

nan_is_refused : normalize (float nan) ≡ raise not_finite
unfolding normalize
nan_is_refused = refl

arguments_sha256-SameFields_example :
    (arguments_sha256 digest from_js ≡ arguments_sha256 digest from_python)
    × ((server tool : String)
        → fingerprint digest server tool from_js ≡ fingerprint digest server tool from_python)
arguments_sha256-SameFields_example = arguments_sha256-SameFields digest from_js from_python (
    fields "timeout" (integral_int (pos 30))
      (fields "range" (arrays (items zero_int no_items)) no_fields))
