-- ===== src/Editor/Edit.antt =====
-- What `edit` writes.
use openagent_host_tools.Base.{
  ℕ, zero, suc, ◌-◌, ◌≡◌, refl, ap, ◌∙◌, true, false, none, some, [], ◌∷◌, ◌++◌, length, nat_eq,
  nat_eq_refl, arith, ok,
}
use openagent_host_tools.Editor.{Text, universal, is_prefix, count, replace, edited, edit}

-- No occurrence of a text begins in the first part.
abbrev pub Earliest : Text → Text → Text → Type 0
Earliest old [] rest = Unit {0}
Earliest old (c ∷ s) rest = (is_prefix old (c ∷ (s ++ rest)) ≡ false) × Earliest old s rest

append_assoc : (xs ys zs : Text) → xs ++ ys ++ zs ≡ xs ++ (ys ++ zs)
append_assoc [] ys zs = refl
append_assoc (x ∷ xs) ys zs = ap (λ l. x ∷ l) (append_assoc xs ys zs)

is_prefix-append : (s rest : Text) → is_prefix s (s ++ rest) ≡ true
unfolding is_prefix
is_prefix-append [] rest = refl
is_prefix-append (c ∷ s) rest = rw (nat_eq_refl c) (is_prefix-append s rest)

replace_past :
    (old new : Text) (limit : ℕ) (s rest : Text)
    → replace old new limit (length s) (s ++ rest) ≡ replace old new limit zero rest
unfolding replace
replace_past old new limit [] rest = refl
replace_past old new limit (c ∷ s) rest = replace_past old new limit s rest

replace_nothing : (old new s : Text) → replace old new 0 zero s ≡ s
unfolding replace
replace_nothing old new [] = refl
replace_nothing old new (c ∷ s) = ap (λ l. c ∷ l) (replace_nothing old new s)

suc_less : (n : ℕ) → suc n - 1 ≡ n
suc_less n = omega arith

suc_not_zero : (n : ℕ) → nat_eq (suc n) 0 ≡ false
suc_not_zero n = ground arith

module _ (c : ℕ) (o new rest : Text) where
  abbrev old : Text
  old = c ∷ o

  replace-first :
      (s : Text)
      → Earliest old s (old ++ rest)
      → replace old new 1 zero (s ++ (old ++ rest)) ≡ s ++ (new ++ rest)
  unfolding replace
  replace-first [] e = rw (is_prefix-append (c ∷ o) rest) (
      ap (λ n. new ++ replace old new 0 n (o ++ rest)) (suc_less (length o))
      ∙ ap (λ l. new ++ l) (replace_past old new 0 o rest ∙ replace_nothing old new rest))
  replace-first (d ∷ s) e = rw e.0 (ap (λ l. d ∷ l) (replace-first s e.1))

  count-first :
      (s : Text)
      → Earliest old s (old ++ rest)
      → nat_eq (count old zero (s ++ (old ++ rest))) 0 ≡ false
  unfolding count
  count-first [] e = rw (is_prefix-append (c ∷ o) rest) (suc_not_zero _)
  count-first (d ∷ s) e = rw e.0 (count-first s e.1)

  -- An edit of a readable and writable file, whose text with universal line ends has the old text
  -- and no earlier occurrence of it, writes this text with the new one in the place of the first
  -- occurrence and nothing else changed; it reports one replacement and the number of occurrences.
  pub edit-first :
      (raw s : Text)
      → universal raw ≡ s ++ (old ++ rest)
      → Earliest old s (old ++ rest)
      → edit old new false (ok raw) none ≡ (
        some (s ++ (new ++ rest)),
        ok (record { replacements = 1; total_occurrences = count old zero (s ++ (old ++ rest)) }),
      )
  unfolding edit edited
  edit-first raw s u e =
      ap (λ content. edited old new false content none) u
      ∙ rw (count-first s e, replace-first s e) refl
