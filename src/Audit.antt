-- ===== src/Audit.antt =====
-- `AuditLedger` of src/openagent_host_tools/audit.py: the append-only record of calls.
pub mod Order
mod Tests
use Prim.Native.Nat.{Ordering, min}
use Prim.Native.String.{compare}
use openagent_host_tools.Base.{
  ℕ, suc, ◌+◌, max, String, Bool, true, false, Option, none, some, List, [], ◌∷◌, ◌++◌, take,
  if◌then◌else◌, ℤ, pos, negsuc,
}
use mathlib.Core.List.{reverse}

-- A row of the table `audit`. `timestamp` is in microseconds; `classification` is the value of the
-- enumeration; `argument_keys` is kept as the list that its JSON text holds.
pub record AuditRow : Type 0 where
  pub seq : ℕ
  pub timestamp : ℕ
  pub call_id : String
  pub principal : String
  pub server : String
  pub tool : String
  pub classification : Option String
  pub outcome : String
  pub duration_ms : Option ℕ
  pub argument_keys : List String
  pub error_code : Option String
  pub replayed : Bool
  pub arguments_sha256 : Option String
  pub target : String

-- The columns that a caller gives.
pub record Entry : Type 0 where
  pub call_id : String
  pub principal : String
  pub server : String
  pub tool : String
  pub classification : Option String
  pub outcome : String
  pub argument_keys : List String
  pub duration_ms : Option ℕ
  pub error_code : Option String
  pub replayed : Bool
  pub arguments_sha256 : Option String

-- The rows, and the number that AUTOINCREMENT gave last.
pub record Audit : Type 0 where
  pub rows : List AuditRow
  pub last_seq : ℕ

abbrev pub empty : Audit
empty = record { rows = []; last_seq = 0 }

abbrev text_le : String → String → Bool
text_le s t = elim (compare s t) [ Ordering.gt ↦ false | _ ↦ true ]

insert_text : String → List String → List String
insert_text s [] = s ∷ []
insert_text s (t ∷ ts) = if text_le s t then s ∷ t ∷ ts else t ∷ insert_text s ts

-- `sorted(argument_keys)`
unfoldable pub sorted : List String → List String
unfolding insert_text
sorted [] = []
sorted (s ∷ ss) = insert_text s (sorted ss)

unfoldable pub append : ℕ → Entry → Audit → Audit
unfolding sorted
append now e a = record {
  rows =
      a.rows
      ++ record {
        seq = suc a.last_seq;
        timestamp = now;
        call_id = e.call_id;
        principal = e.principal;
        server = e.server;
        tool = e.tool;
        classification = e.classification;
        outcome = e.outcome;
        duration_ms = e.duration_ms;
        argument_keys = sorted e.argument_keys;
        error_code = e.error_code;
        replayed = e.replayed;
        arguments_sha256 = e.arguments_sha256;
        target = "client";
      }
        ∷ [];
  last_seq = suc a.last_seq;
}

-- `max(1, min(int(limit), 500))`
unfoldable pub clamp_limit : ℤ → ℕ
clamp_limit (pos n) = max 1 (min n 500)
clamp_limit (negsuc n) = 1

-- `ORDER BY seq DESC`: the rows stand in the order of their numbers.
unfoldable pub recent : ℤ → Audit → List AuditRow
unfolding clamp_limit
recent limit a = take (clamp_limit limit) (reverse a.rows)
