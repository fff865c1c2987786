-- ===== src/Shell/Arguments.antt =====
-- src/openagent_host_tools/builtins/_util.py: the arguments of the built-in tools.
use Prim.Native.String.{◌++◌ as text_append}
use openagent_host_tools.Base.{
  ℕ, String, Bool, true, false, not, ◌&&◌, ◌||◌, Option, none, some, leb, if◌then◌else◌, ◌==◌, ℤ,
  pos, negsuc, Value, null, bool, int, str, Fields, end, dict_get, int_of, HostError, Outcome, ok,
  raise, crash,
}

unfoldable pub invalid_arguments : String → HostError
invalid_arguments message = record { code = "invalid_arguments"; message = message; details = end }

-- `args.get(name, default)`
unfoldable pub get_or : Value → String → Fields → Value
unfolding dict_get
get_or default name args = elim (dict_get name args) [ none ↦ default | some v ↦ v ]

unfoldable pub string_of : String → Bool → Value → Outcome String
unfolding invalid_arguments
string_of name allow_empty (str s) =
    if not allow_empty && s == ""
    then raise (invalid_arguments (text_append name " must be a string"))
    else ok s
string_of name allow_empty v = raise (invalid_arguments (text_append name " must be a string"))

unfoldable pub require_string : Fields → String → Bool → Outcome String
unfolding string_of get_or
require_string args name allow_empty = string_of name allow_empty (get_or null name args)

-- A number between two natural numbers.
unfoldable pub between : ℕ → ℕ → ℤ → Option ℕ
between minimum maximum (pos n) = if leb minimum n && leb n maximum then some n else none
between minimum maximum (negsuc n) = none

abbrev pub is_bool : Value → Bool
is_bool (bool b) = true
is_bool _ = false

module _ (text_of_number : ℕ → String) (name : String) (minimum maximum : ℕ) where
  unfoldable pub out_of_range : HostError
  unfolding invalid_arguments
  out_of_range = invalid_arguments (
      text_append name (
        text_append " must be between "
          (text_append (text_of_number minimum) (text_append " and " (text_of_number maximum)))))

  unfoldable pub ranged : Option ℕ → Outcome ℕ
  unfolding out_of_range
  ranged none = raise out_of_range
  ranged (some n) = ok n

  -- The clause `except (TypeError, ValueError)` and the test of the range.
  unfoldable pub parsed : Outcome ℤ → Outcome ℕ
  unfolding ranged between invalid_arguments
  parsed (ok z) = ranged (between minimum maximum z)
  parsed (raise e) = raise e
  parsed (crash t) =
      if t == "TypeError" || t == "ValueError"
      then raise (invalid_arguments (text_append name " must be an integer"))
      else crash t

  unfoldable pub integer_arg : Fields → ℕ → Outcome ℕ
  unfolding parsed int_of get_or invalid_arguments
  integer_arg args default =
      let value = get_or (int (pos default)) name args in
      if is_bool value
      then raise (invalid_arguments (text_append name " must be an integer"))
      else parsed (int_of value)
