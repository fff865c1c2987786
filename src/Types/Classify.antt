-- ===== src/Types/Classify.antt =====
-- `classification_for`: as restrictive as every rule that says something of the call.
use openagent_host_tools.Base.{
  ◌≡◌, ◌⊎◌, inl, inr, refl, sym, ap, ◌∙◌, Option, none, some, List, [], ◌∷◌, All, arith, Fields,
  Bool, true, false, String, Value, null, bool, int, float, str, arr, obj, foreign, subst, dict_get,
}
use openagent_host_tools.Types.{
  ToolClassification, read_only, idempotent, mutating, Rule, ToolManifest, match_rule,
  classification_for, match_value, lookup_option,
}
use openagent_host_tools.Types.Worst.{worse, both, worst, or_base, classification_for-worst}

-- A rule says a classification of a call: its argument has a text, to which it gives that.
abbrev pub Says : Fields → Rule → ToolClassification → Type 0
Says arguments (argument, options) d =
    (s : String) × (dict_get argument arguments ≡ some (str s)) × (lookup_option s options ≡ some d)

abbrev pub OneSays : Fields → ToolClassification → List Rule → Type 0
OneSays arguments c [] = ⊥
OneSays arguments c (rule ∷ rules) = Says arguments rule c ⊎ OneSays arguments c rules

-- The first is no more restrictive than the second.
abbrev pub is_below : ToolClassification → ToolClassification → Bool
is_below read_only d = true
is_below idempotent read_only = false
is_below idempotent d = true
is_below mutating mutating = true
is_below mutating d = false

match_value-says :
    (o : Option Value) (options : List (String × ToolClassification)) (d : ToolClassification)
    → match_value o options ≡ some d
    → (s : String) × (o ≡ some (str s)) × (lookup_option s options ≡ some d)
unfolding match_value
match_value-says (some (str s)) options d e = (s, refl, e)
match_value-says none options d e = absurd (cc e)
match_value-says (some null) options d e = absurd (cc e)
match_value-says (some (bool b)) options d e = absurd (cc e)
match_value-says (some (int z)) options d e = absurd (cc e)
match_value-says (some (float f)) options d e = absurd (cc e)
match_value-says (some (arr vs)) options d e = absurd (cc e)
match_value-says (some (obj fs)) options d e = absurd (cc e)
match_value-says (some (foreign t)) options d e = absurd (cc e)

match_rule-Says :
    (arguments : Fields) (rule : Rule) (d : ToolClassification)
    → match_rule arguments rule ≡ some d
    → Says arguments rule d
unfolding match_rule
match_rule-Says arguments (argument, options) d e =
    match_value-says (dict_get argument arguments) options d e

Says-match_rule :
    (arguments : Fields) (rule : Rule) (d : ToolClassification)
    → Says arguments rule d
    → match_rule arguments rule ≡ some d
unfolding match_rule match_value
Says-match_rule arguments (argument, options) d (s, given, found) = rw given found

-- What the most restrictive match of some rules is to be.
abbrev Bound : Fields → List Rule → Option ToolClassification → Type 0
Bound arguments rules none =
    All (λ rule. (d : ToolClassification) → Says arguments rule d → ⊥) rules
Bound arguments rules (some c) =
    All (λ rule. (d : ToolClassification) → Says arguments rule d → is_below d c ≡ true) rules
    × OneSays arguments c rules

is_below-worse :
    (c d : ToolClassification)
    → (is_below c (worse c d) ≡ true)
      × (is_below d (worse c d) ≡ true)
      × ((worse c d ≡ c) ⊎ (worse c d ≡ d))
unfolding worse
is_below-worse mutating d = (refl, ground arith, inl refl)
is_below-worse idempotent mutating = (refl, refl, inr refl)
is_below-worse idempotent idempotent = (refl, refl, inl refl)
is_below-worse idempotent read_only = (refl, refl, inl refl)
is_below-worse read_only d = (refl, ground arith, inr refl)

is_below_trans :
    (b c d : ToolClassification) → is_below b c ≡ true → is_below c d ≡ true → is_below b d ≡ true
is_below_trans b c d h k = ground (arith, h, k)

All-map :
    (P Q : Rule → Type 0) (rules : List Rule)
    → ((rule : Rule) → P rule → Q rule)
    → All P rules
    → All Q rules
All-map P Q [] f w = tt
All-map P Q (rule ∷ rules) f w = (f rule w.0, All-map P Q rules f w.1)

both-Bound :
    (arguments : Fields) (rule : Rule) (rules : List Rule) (m o : Option ToolClassification)
    → match_rule arguments rule ≡ m
    → Bound arguments rules o
    → Bound arguments (rule ∷ rules) (both m o)
unfolding both
both-Bound arguments rule rules none none e w =
    (λ d says. cc (e, Says-match_rule arguments rule d says), w)
both-Bound arguments rule rules none (some c) e w =
    ((λ d says. absurd (cc (e, Says-match_rule arguments rule d says)), w.0), inr w.1)
both-Bound arguments rule rules (some c) none e w = (
  (
    λ d says. same d c (cc (e, Says-match_rule arguments rule d says)),
    All-map _ _ rules (λ r never d says. absurd (never d says)) w,
  ),
  inl (match_rule-Says arguments rule c e),
)
  where
    same : (d c : ToolClassification) → c ≡ d → is_below d c ≡ true
    same d c e = subst (λ x. is_below x c ≡ true) e (ground arith)
both-Bound arguments rule rules (some c) (some d) e w =
    let (first, second, one) = is_below-worse c d in
    (
      (
        λ x says.
            subst (λ y. is_below y (worse c d) ≡ true)
              (inj c x (sym e ∙ Says-match_rule arguments rule x says)) first,
        All-map _ _ rules (λ r below x says. is_below_trans x d (worse c d) (below x says) second)
            w.0,
      ),
      elim one [
        | inl is ↦ inl (match_rule-Says arguments rule (worse c d) (e ∙ ap some (sym is)))
        | inr is ↦ inr (subst (λ x. OneSays arguments x rules) (sym is) w.1)
      ],
    )
  where
    inj : (a b : ToolClassification) → some a ≡ some b → a ≡ b
    inj a b e = cc e

worst-Bound :
    (arguments : Fields) (rules : List Rule) → Bound arguments rules (worst arguments rules)
unfolding worst
worst-Bound arguments [] = tt
worst-Bound arguments (rule ∷ rules) =
    both-Bound arguments rule rules (match_rule arguments rule) (worst arguments rules) refl
      (worst-Bound arguments rules)

-- What a call is to be classified as: no rule that says something says anything more restrictive,
-- and some rule says just that; or no rule says anything, and it is the base classification.
abbrev pub IsRestrictive : ToolManifest → Fields → ToolClassification → Type 0
IsRestrictive manifest arguments c =
    (All (λ rule. (d : ToolClassification) → Says arguments rule d → is_below d c ≡ true)
        manifest.classification_by_argument
      × OneSays arguments c manifest.classification_by_argument)
    ⊎ (All (λ rule. (d : ToolClassification) → Says arguments rule d → ⊥)
          manifest.classification_by_argument
        × (c ≡ manifest.classification))

-- A call is classified at least as restrictively as every rule says that has a classification for
-- the text of its argument, as one of them says if any does, and by the base classification if none
-- does.
pub classification_for-IsRestrictive :
    (manifest : ToolManifest) (arguments : Fields)
    → IsRestrictive manifest arguments (classification_for manifest arguments)
classification_for-IsRestrictive manifest arguments =
    subst (IsRestrictive manifest arguments) (sym (classification_for-worst manifest arguments)) (
      based (worst arguments manifest.classification_by_argument)
        (worst-Bound arguments manifest.classification_by_argument))
  where
    based :
        (o : Option ToolClassification)
        → Bound arguments manifest.classification_by_argument o
        → IsRestrictive manifest arguments (or_base manifest.classification o)
    based none w = inr (w, refl)
    based (some c) w = inl w
