-- ===== src/Types/Worst.antt =====
-- The most restrictive of the rules that match a call, in whatever order the rules stand.
use mathlib.Core.List.{Perm, Permᴰ}
use mathlib.Core.Logic.{∥∥₁_elim}
use openagent_host_tools.Base.{
  ◌≡◌, refl, sym, ap, ◌∙◌, Option, none, some, List, [], ◌∷◌, arith, ltb, if◌then◌else◌, Fields,
}
use openagent_host_tools.Types.{
  ToolClassification, read_only, idempotent, mutating, risk, Rule, ToolManifest, match_rule,
  matches, max_by_risk, classification_for, prepend, choose,
}

unfoldable pub worse : ToolClassification → ToolClassification → ToolClassification
worse mutating d = mutating
worse idempotent mutating = mutating
worse idempotent d = idempotent
worse read_only d = d

-- The more restrictive of two matches, if any.
unfoldable pub both :
    Option ToolClassification → Option ToolClassification → Option ToolClassification
unfolding worse
both none o = o
both (some c) none = some c
both (some c) (some d) = some (worse c d)

unfoldable pub worst : Fields → List Rule → Option ToolClassification
unfolding both
worst arguments [] = none
worst arguments (rule ∷ rules) = both (match_rule arguments rule) (worst arguments rules)

abbrev pub or_base : ToolClassification → Option ToolClassification → ToolClassification
or_base base none = base
or_base base (some c) = c

top : List ToolClassification → Option ToolClassification
unfolding both
top [] = none
top (c ∷ cs) = both (some c) (top cs)

both_assoc : (a b c : Option ToolClassification) → both (both a b) c ≡ both a (both b c)
unfolding both
both_assoc a b c = ground arith

pub both_left_comm : (a b c : Option ToolClassification) → both a (both b c) ≡ both b (both a c)
unfolding both
both_left_comm a b c = ground arith

greater-worse : (b c : ToolClassification) → (if ltb (risk b) (risk c) then c else b) ≡ worse b c
unfolding risk worse
greater-worse b c = ground arith

max_by_risk-top :
    (b : ToolClassification) (cs : List ToolClassification)
    → some (max_by_risk b cs) ≡ both (some b) (top cs)
unfolding max_by_risk top
max_by_risk-top b [] = unfold both in refl
max_by_risk-top b (c ∷ cs) =
    rw (greater-worse b c)
      (max_by_risk-top (worse b c) cs ∙ (unfold both in both_assoc (some b) (some c) (top cs)))

choose-top :
    (base : ToolClassification) (cs : List ToolClassification)
    → choose base cs ≡ or_base base (top cs)
unfolding choose top
choose-top base [] = refl
choose-top base (c ∷ cs) = ap (or_base base) (max_by_risk-top c cs)

top-matches :
    (arguments : Fields) (rules : List Rule) → top (matches arguments rules) ≡ worst arguments rules
unfolding matches worst
top-matches arguments [] = unfold top in refl
top-matches arguments (rule ∷ rules) =
    top-prepend (match_rule arguments rule) (matches arguments rules)
    ∙ ap (both (match_rule arguments rule)) (top-matches arguments rules)
  where
    top-prepend :
        (o : Option ToolClassification) (cs : List ToolClassification)
        → top (prepend o cs) ≡ both o (top cs)
    top-prepend none cs = unfold both in refl
    top-prepend (some c) cs = unfold top in refl

pub classification_for-worst :
    (manifest : ToolManifest) (arguments : Fields)
    → classification_for manifest arguments
      ≡ or_base manifest.classification (worst arguments manifest.classification_by_argument)
unfolding classification_for
classification_for-worst manifest arguments =
    choose-top _ _
    ∙ ap (or_base manifest.classification)
        (top-matches arguments manifest.classification_by_argument)

worst-perm :
    (arguments : Fields) {rules rules' : List Rule}
    → Permᴰ rules rules'
    → worst arguments rules ≡ worst arguments rules'
unfolding worst
worst-perm arguments Permᴰ.nil = refl
worst-perm arguments (Permᴰ.cons e p) = rw (e, worst-perm arguments p)
worst-perm arguments (Permᴰ.swap e e') =
    rw (e, e')
      (both_left_comm (match_rule arguments _) (match_rule arguments _) (worst arguments _))
worst-perm arguments (Permᴰ.trans p q) = worst-perm arguments p ∙ worst-perm arguments q

ToolClassification-set : IsSet ToolClassification
ToolClassification-set = hlevel

-- The classification of a call does not depend on the order of the rules of the manifest.
pub classification_for-perm :
    (manifest : ToolManifest) (rules : List Rule) (arguments : Fields)
    → Perm manifest.classification_by_argument rules
    → classification_for manifest arguments
      ≡ classification_for (record manifest { classification_by_argument = rules }) arguments
classification_for-perm manifest rules arguments p = ∥∥₁_elim p (ToolClassification-set _ _) λ q.
    classification_for-worst manifest arguments
    ∙ ap (or_base manifest.classification) (worst-perm arguments q)
    ∙ sym (
        classification_for-worst (record manifest { classification_by_argument = rules }) arguments)
