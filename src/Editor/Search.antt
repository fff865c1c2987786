-- ===== src/Editor/Search.antt =====
-- What `grep` finds: the first matches of all, up to the limit.
use openagent_host_tools.Base.{
  ℕ, zero, suc, ◌≤◌, ◌<◌, ◌≡◌, refl, sym, ap, ◌∙◌, String, Bool, false, List, [], ◌∷◌, ◌++◌, length,
  take, leb, leb→le, if◌then◌else◌, if-cases, Bool-cases, inl, inr, arith, length-append,
}
use openagent_host_tools.Editor.{Candidate, Match, searched, match_at, scan, grep}

module _ {ℓ} {A : Type ℓ} where
  append_assoc : (xs ys zs : List A) → xs ++ ys ++ zs ≡ xs ++ (ys ++ zs)
  append_assoc [] ys zs = refl
  append_assoc (x ∷ xs) ys zs = ap (λ l. x ∷ l) (append_assoc xs ys zs)

  append_empty : (xs : List A) → xs ++ [] ≡ xs
  append_empty [] = refl
  append_empty (x ∷ xs) = ap (λ l. x ∷ l) (append_empty xs)

  -- A list as long as what is taken.
  take-append : (n : ℕ) (xs ys : List A) → length xs ≡ n → take n (xs ++ ys) ≡ xs
  take-append zero [] ys h = refl
  take-append zero (x ∷ xs) ys h = ground arith
  take-append (suc n) [] ys h = ground arith
  take-append (suc n) (x ∷ xs) ys h = ap (λ l. x ∷ l) (take-append n xs ys (omega (arith, h)))

  take_all : (n : ℕ) (xs : List A) → length xs ≤ n → take n xs ≡ xs
  take_all zero [] h = refl
  take_all zero (x ∷ xs) h = ground arith
  take_all (suc n) [] h = refl
  take_all (suc n) (x ∷ xs) h = ap (λ l. x ∷ l) (take_all n xs (omega (arith, h)))

  take-take : (n : ℕ) (xs ys : List A) → take n (take n xs ++ ys) ≡ take n (xs ++ ys)
  take-take zero xs ys = refl
  take-take (suc n) [] ys = refl
  take-take (suc n) (x ∷ xs) ys = ap (λ l. x ∷ l) (take-take n xs ys)

  length-take : (n : ℕ) (xs : List A) → length (take n xs) ≤ n
  length-take zero xs = omega arith
  length-take (suc n) [] = omega arith
  length-take (suc n) (x ∷ xs) = omega (arith, length-take n xs)

leb-false→lt : (a b : ℕ) → leb a b ≡ false → b < a
leb-false→lt a b h = ground arith

module _ (search : String → Bool) (context limit : ℕ) where
  -- All the matches of a file, from a line on.
  unfoldable pub found : String → List String → ℕ → List String → List Match
  found file lines index [] = []
  found file lines index (l ∷ ls) =
      let rest = found file lines (suc index) ls in
      if search l then match_at search context limit file lines index l ∷ rest else rest

  -- All the matches of the files, one file after another.
  unfoldable pub found_in : (String → Bool) → List Candidate → List Match
  unfolding found
  found_in fits [] = []
  found_in fits (c ∷ cs) = found c.path (searched fits c) 0 (searched fits c) ++ found_in fits cs

  scan-found :
      (file : String) (lines : List String) (index : ℕ) (ls : List String) (matches : List Match)
      → length matches < limit
      → scan search context limit file lines index ls matches
        ≡ take limit (matches ++ found file lines index ls)
  unfolding scan found
  scan-found file lines index [] matches h =
      sym (append_empty matches)
      ∙ sym (take_all limit (matches ++ []) (omega (arith, h, length-append {0} matches [])))
  scan-found file lines index (l ∷ ls) matches h =
      let m = match_at search context limit file lines index l in
      let longer : List Match = matches ++ m ∷ [] in
      let size : length longer ≡ suc (length matches) =
        omega (arith, length-append {0} matches (m ∷ [])) in
      let later : List Match = found file lines (suc index) ls in
      let same : take limit (longer ++ later) ≡ take limit (matches ++ (m ∷ later)) =
        ap (take limit) (append_assoc matches (m ∷ []) later) in
      elim (Bool-cases (search l)) [
        | inr other ↦ rw other (scan-found file lines (suc index) ls matches h)
        | inl hit ↦ rw hit (
            if-cases (λ l. l ≡ take limit (matches ++ (m ∷ later))) (leb limit (length longer)) _ _
              (λ full.
                sym (
                  take-append limit longer later
                    (omega (arith, size, h, leb→le limit (length longer) full)))
                ∙ same)
              (λ room.
                scan-found file lines (suc index) ls longer
                  (leb-false→lt limit (length longer) room)
                ∙ same))
      ]

  grep-found :
      (fits : String → Bool) (cs : List Candidate) (matches : List Match)
      → length matches ≤ limit
      → grep search context limit fits cs matches ≡ take limit (matches ++ found_in fits cs)
  unfolding grep found_in
  grep-found fits [] matches h =
      sym (append_empty matches)
      ∙ sym (take_all limit (matches ++ []) (omega (arith, h, length-append {0} matches [])))
  grep-found fits (c ∷ cs) matches h =
      let here : List Match = found c.path (searched fits c) 0 (searched fits c) in
      let later : List Match = found_in fits cs in
      if-cases (λ l. l ≡ take limit (matches ++ (here ++ later))) (leb limit (length matches)) _ _
        (λ full. sym (
          take-append limit matches (here ++ later)
            (omega (arith, h, leb→le limit (length matches) full))))
        (λ room.
          let one =
            scan-found c.path (searched fits c) 0 (searched fits c) matches
              (leb-false→lt limit (length matches) room) in
          ap (grep search context limit fits cs) one
          ∙ grep-found fits cs (take limit (matches ++ here)) (length-take limit (matches ++ here))
          ∙ take-take limit (matches ++ here) later
          ∙ ap (take limit) (append_assoc matches here later))

  -- The search, whose loops stop at the limit, finds the first matches of all the files, as many as
  -- the limit allows.
  pub grep-take :
      (fits : String → Bool) (cs : List Candidate)
      → grep search context limit fits cs [] ≡ take limit (found_in fits cs)
  grep-take fits cs = grep-found fits cs [] (omega arith)
