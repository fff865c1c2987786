-- ===== src/Mcp/Lookup.antt =====
-- What is found at an id of the table of requests, after a change of the table.
use openagent_host_tools.Base.{
  ℕ, ◌≡◌, refl, sym, ◌∙◌, true, false, none, some, List, [], ◌∷◌, map, arith, if◌then◌else◌, nat_eq,
  Bool-cases, inl, inr,
}
use openagent_host_tools.Mcp.{Pending, pop_request}
use openagent_host_tools.Mcp.Reader.{pending_at}

-- Where an id is found.
pub here :
    (id : ℕ) (s : Pending) (rs : List Pending)
    → nat_eq s.id id ≡ true
    → pending_at id (s ∷ rs) ≡ some s
unfolding pending_at
here id s rs e = rw e refl

pub there :
    (id : ℕ) (s : Pending) (rs : List Pending)
    → nat_eq s.id id ≡ false
    → pending_at id (s ∷ rs) ≡ pending_at id rs
unfolding pending_at
there id s rs e = rw e refl

pub pending_at-id :
    (id : ℕ) (rs : List Pending) (r : Pending) → pending_at id rs ≡ some r → r.id ≡ id
unfolding pending_at
pending_at-id id [] r h = cc
pending_at-id id (s ∷ rs) r h = elim (Bool-cases (nat_eq s.id id)) [
  | inl e ↦ ground (arith, here id s rs e, h, e)
  | inr e ↦ pending_at-id id rs r (sym (there id s rs e) ∙ h)
]

-- A change of the entries that keeps their ids changes what is found.
pub pending_at-map :
    (f : Pending → Pending) (id : ℕ) (rs : List Pending) (r r' : Pending)
    → ((s : Pending) → (f s).id ≡ s.id)
    → pending_at id rs ≡ some r
    → pending_at id (map f rs) ≡ some r'
    → r' ≡ f r
unfolding pending_at
pending_at-map f id [] r r' k h g = cc
pending_at-map f id (s ∷ rs) r r' k h g = elim (Bool-cases (nat_eq s.id id)) [
  | inl e ↦
      let first : some (f s) ≡ some r' = sym (here id (f s) (map f rs) (rw (k s) e)) ∙ g in
      let old : some s ≡ some r = sym (here id s rs e) ∙ h in cc (first, old)
  | inr e ↦
      pending_at-map f id rs r r' k (sym (there id s rs e) ∙ h)
        (sym (there id (f s) (map f rs) (rw (k s) e)) ∙ g)
]

pub pending_at-pop :
    (j id : ℕ) (rs : List Pending)
    → pending_at id (pop_request j rs) ≡ (if nat_eq j id then none else pending_at id rs)
unfolding pending_at pop_request
pending_at-pop j id [] = ground arith
pending_at-pop j id (s ∷ rs) = ground (arith, pending_at-pop j id rs)
