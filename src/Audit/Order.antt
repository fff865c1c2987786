-- ===== src/Audit/Order.antt =====
-- The numbering of the audit rows, and what a reading of the recent ones sees.
use openagent_host_tools.Base.{
  ℕ, zero, suc, ◌+◌, ◌≡◌, refl, ap, ◌∙◌, List, [], ◌∷◌, ◌++◌, length, take, ℤ, pos, negsuc, leb,
  if◌then◌else◌, arith,
}
use mathlib.Core.List.{reverse, reverse_aux}
use openagent_host_tools.Audit.{AuditRow, Entry, Audit, empty, append, clamp_limit, recent}

-- The entries of a history, each with its time.
unfoldable pub append_all : List (ℕ × Entry) → Audit → Audit
append_all [] a = a
append_all ((now, e) ∷ es) a = append_all es (append now e a)

abbrev pub seqs : List AuditRow → List ℕ
seqs [] = []
seqs (r ∷ rs) = r.seq ∷ seqs rs

-- n, n - 1, … 1.
abbrev pub down_from : ℕ → List ℕ
down_from zero = []
down_from (suc n) = suc n ∷ down_from n

reverse_aux-snoc :
    (x : AuditRow) (xs ys : List AuditRow) → reverse_aux (xs ++ x ∷ []) ys ≡ x ∷ reverse_aux xs ys
reverse_aux-snoc x [] ys = refl
reverse_aux-snoc x (a ∷ xs) ys = reverse_aux-snoc x xs (a ∷ ys)

seqs-take : (n : ℕ) (rs : List AuditRow) → seqs (take n rs) ≡ take n (seqs rs)
seqs-take zero rs = refl
seqs-take (suc n) [] = refl
seqs-take (suc n) (r ∷ rs) = ap (λ xs. r.seq ∷ xs) (seqs-take n rs)

abbrev IsNumbered : Audit → Type 0
IsNumbered a = seqs (reverse a.rows) ≡ down_from a.last_seq

append-IsNumbered : (now : ℕ) (e : Entry) (a : Audit) → IsNumbered a → IsNumbered (append now e a)
unfolding append
append-IsNumbered now e a numbered =
    rw (reverse_aux-snoc _ a.rows []) (ap (λ xs. suc a.last_seq ∷ xs) numbered)

append_all-IsNumbered :
    (es : List (ℕ × Entry)) (a : Audit)
    → IsNumbered a
    → IsNumbered (append_all es a) × ((append_all es a).last_seq ≡ a.last_seq + length es)
unfolding append_all append
append_all-IsNumbered [] a numbered = (numbered, omega arith)
append_all-IsNumbered ((now, e) ∷ es) a numbered =
    let (n, last) =
      append_all-IsNumbered es (append now e a) (append-IsNumbered now e a numbered) in
    (n, omega (arith, last))

-- The rows that a limit asks for: at least 1 and at most 500.
abbrev pub window : ℤ → ℕ
window (negsuc n) = 1
window (pos zero) = 1
window (pos (suc n)) = if leb (suc n) 500 then suc n else 500

clamp_limit-window : (limit : ℤ) → clamp_limit limit ≡ window limit
unfolding clamp_limit
clamp_limit-window (negsuc n) = refl
clamp_limit-window (pos zero) = ground arith
clamp_limit-window (pos (suc n)) = ground arith

-- A row tells of an entry and its time, in every column that is given but the argument keys.
abbrev pub Tells : ℕ × Entry → AuditRow → Type 0
Tells (now, e) r =
    (r.timestamp ≡ now)
    × (r.call_id ≡ e.call_id)
    × (r.principal ≡ e.principal)
    × (r.server ≡ e.server)
    × (r.tool ≡ e.tool)
    × (r.classification ≡ e.classification)
    × (r.outcome ≡ e.outcome)
    × (r.duration_ms ≡ e.duration_ms)
    × (r.error_code ≡ e.error_code)
    × (r.replayed ≡ e.replayed)
    × (r.arguments_sha256 ≡ e.arguments_sha256)

abbrev pub AllTell : List (ℕ × Entry) → List AuditRow → Type 0
AllTell [] [] = Unit {0}
AllTell (x ∷ xs) (r ∷ rs) = Tells x r × AllTell xs rs
AllTell _ _ = ⊥

AllTell-take :
    (n : ℕ) (xs : List (ℕ × Entry)) (rs : List AuditRow)
    → AllTell xs rs
    → AllTell (take n xs) (take n rs)
AllTell-take zero xs rs w = tt
AllTell-take (suc n) [] [] w = tt
AllTell-take (suc n) (x ∷ xs) (r ∷ rs) w = (w.0, AllTell-take n xs rs w.1)
AllTell-take (suc n) [] (r ∷ rs) w = absurd w
AllTell-take (suc n) (x ∷ xs) [] w = absurd w

append_all-AllTell :
    (es before : List (ℕ × Entry)) (a : Audit)
    → AllTell before (reverse a.rows)
    → AllTell (reverse_aux es before) (reverse (append_all es a).rows)
unfolding append_all append
append_all-AllTell [] before a w = w
append_all-AllTell ((now, e) ∷ es) before a w =
    append_all-AllTell es ((now, e) ∷ before) (append now e a) (
      rw (reverse_aux-snoc _ a.rows [])
        ((refl, refl, refl, refl, refl, refl, refl, refl, refl, refl, refl), w))

-- After any entries into a new log, a reading of the recent rows gives the last ones, newest first
-- and numbered without a gap, as many as the limit asks for, but at least 1 and at most 500; each
-- row has the time of its entry and what the entry says, the argument keys apart.
pub recent-newest :
    (es : List (ℕ × Entry)) (limit : ℤ)
    → let rows = recent limit (append_all es empty) in
      (seqs rows ≡ take (window limit) (down_from (length es)))
      × AllTell (take (window limit) (reverse es)) rows
unfolding recent
recent-newest es limit =
    let (numbered, last) = append_all-IsNumbered es empty refl in
    let counted : (append_all es empty).last_seq ≡ length es = omega (arith, last) in
    rw (clamp_limit-window limit) (
      seqs-take (window limit) (reverse (append_all es empty).rows) ∙ rw (numbered, counted) refl,
      AllTell-take (window limit) (reverse es) _ (append_all-AllTell es [] empty tt),
    )
