-- ===== src/Config/Toml.antt =====
-- Basic strings as TOML reads them, and what `_toml_value` writes of a text.
use openagent_host_tools.Base.{
  ℕ, ◌≡◌, refl, ap, ◌∙◌, Bool, true, false, not, ◌&&◌, ◌||◌, nat_eq, ltb, Option, none, some, [],
  ◌∷◌, ◌++◌, if◌then◌else◌, arith,
}
use openagent_host_tools.Config.{Text, replace, toml_text}

-- The control characters, but for the tab, which may not stand in a basic string.
abbrev pub is_control : ℕ → Bool
is_control c = (ltb c 32 && not (nat_eq c 9)) || nat_eq c 127

abbrev pub has_control : Text → Bool
has_control [] = false
has_control (c ∷ s) = is_control c || has_control s

-- The character of an escape; the escapes by code point are left out.
abbrev pub escaped : ℕ → Option ℕ
escaped c =
    if nat_eq c b'"'
    then some b'"'
    else if nat_eq c b'\\'
    then some b'\\'
    else if nat_eq c b'b'
    then some 8
    else if nat_eq c b't'
    then some 9
    else if nat_eq c b'n'
    then some 10
    else if nat_eq c b'f'
    then some 12
    else if nat_eq c b'r'
    then some 13
    else none

-- A character before what is read after it.
abbrev pub before : Option ℕ → Option (Text × Text) → Option (Text × Text)
before none r = none
before (some c) none = none
before (some c) (some (s, rest)) = some (c ∷ s, rest)

-- The rest of a basic string, up to its quote, and what follows. The flag tells that a backslash
-- comes before.
unfoldable pub read_basic : Bool → Text → Option (Text × Text)
read_basic after_backslash [] = none
read_basic true (c ∷ s) = before (escaped c) (read_basic false s)
read_basic false (c ∷ s) =
    let escape = read_basic true s in
    let copy = before (some c) (read_basic false s) in
    if nat_eq c b'"'
    then some ([], s)
    else if nat_eq c b'\\'
    then escape
    else if is_control c
    then none
    else copy

-- A basic string of one line: two quotes and a third would begin one of several lines.
unfoldable pub read_text : Text → Option (Text × Text)
unfolding read_basic
read_text (c ∷ d ∷ e ∷ s) =
    if nat_eq c b'"'
    then if nat_eq d b'"' && nat_eq e b'"' then none else read_basic false (d ∷ e ∷ s)
    else none
read_text (c ∷ s) = if nat_eq c b'"' then read_basic false s else none
read_text [] = none

-- What is written for one character.
abbrev hide : ℕ → Text
hide c =
    if nat_eq c b'\\'
    then b'\\' ∷ b'\\' ∷ []
    else if nat_eq c b'"'
    then b'\\' ∷ b'"' ∷ []
    else c ∷ []

unfoldable pub hidden : Text → Text
hidden [] = []
hidden (c ∷ s) = hide c ++ hidden s

replace-hidden :
    (s : Text) → replace b'"' (b'\\' ∷ b'"' ∷ []) (replace b'\\' (b'\\' ∷ b'\\' ∷ []) s) ≡ hidden s
unfolding replace hidden
replace-hidden [] = refl
replace-hidden (c ∷ s) = ground (arith, replace-hidden s)

-- What reads back of what is written.
read_basic-hidden :
    (s rest : Text)
    → read_basic false (hidden s ++ (b'"' ∷ rest))
      ≡ (if has_control s then none else some (s, rest))
unfolding read_basic hidden
read_basic-hidden [] rest = refl
read_basic-hidden (c ∷ s) rest = ground (arith, read_basic-hidden s rest)

abbrev pub starts_with_quote : Text → Bool
starts_with_quote [] = false
starts_with_quote (c ∷ s) = nat_eq c b'"'

abbrev are_quotes : Text → Bool
are_quotes (c ∷ d ∷ s) = nat_eq c b'"' && nat_eq d b'"'
are_quotes _ = false

read_text-read_basic : (t : Text) → are_quotes t ≡ false → read_text (b'"' ∷ t) ≡ read_basic false t
unfolding read_text
read_text-read_basic [] h = refl
read_text-read_basic (c ∷ []) h = refl
read_text-read_basic (c ∷ d ∷ s) h = rw h refl

other_quotes : (c : ℕ) (t : Text) → nat_eq c b'"' ≡ false → are_quotes (c ∷ t) ≡ false
other_quotes c [] h = refl
other_quotes c (d ∷ t) h = rw h refl

hidden-quotes :
    (s rest : Text)
    → starts_with_quote rest ≡ false
    → are_quotes (hidden s ++ (b'"' ∷ rest)) ≡ false
unfolding hidden
hidden-quotes [] [] h = refl
hidden-quotes [] (c ∷ rest) h = ground (arith, h)
hidden-quotes (c ∷ s) rest h = ground (arith, other_quotes c (hidden s ++ (b'"' ∷ rest)))

append_assoc : (xs ys zs : Text) → xs ++ ys ++ zs ≡ xs ++ (ys ++ zs)
append_assoc [] ys zs = refl
append_assoc (x ∷ xs) ys zs = ap (λ l. x ∷ l) (append_assoc xs ys zs)

-- A text that is written and followed by no quote reads back as the text, and what follows is left,
-- just when no control character but the tab stands in it; otherwise the reading fails.
pub read_text-toml_text :
    (s rest : Text)
    → starts_with_quote rest ≡ false
    → read_text (toml_text s ++ rest) ≡ (if has_control s then none else some (s, rest))
unfolding toml_text
read_text-toml_text s rest h =
    ap (λ t. read_text (b'"' ∷ (t ++ (b'"' ∷ []) ++ rest))) (replace-hidden s)
    ∙ ap (λ t. read_text (b'"' ∷ t)) (append_assoc (hidden s) (b'"' ∷ []) rest)
    ∙ read_text-read_basic (hidden s ++ (b'"' ∷ rest)) (hidden-quotes s rest h)
    ∙ read_basic-hidden s rest
