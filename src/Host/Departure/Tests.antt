-- ===== src/Host/Departure/Tests.antt =====
-- A host with one command in flight: it is cancelled, its principal leaves, the host closes.
use openagent_host_tools.Base.{
  ◌==◌, ◌≡◌, refl, true, false, some, String, List, [], ◌∷◌, All, member,
}
use openagent_host_tools.Audit
use openagent_host_tools.Events
use openagent_host_tools.Events.{is_of}
use openagent_host_tools.Lease
use openagent_host_tools.Lease.Lock.{Hold, held, store}
use openagent_host_tools.Host.{Host, running}
use openagent_host_tools.Host.Lifecycle.{
  begin_principal_release, cancel_all, release_principal, release_lease, close,
}
use openagent_host_tools.Host.Departure.{release_principal-drops, close-frees_lease}

abbrev hold : Hold
hold = record {
  principal = "ann";
  call_id = "c1";
  tool = "notes.write";
  acquired = 10;
  started = 10;
  expires = 15000010;
}

-- The effect of a mutation by ann is unknown, so that she keeps the lease.
abbrev busy : Host
busy = record {
  ledger_rows = [];
  lease_db = store (held hold);
  audit = Audit.empty;
  started = true;
  servers = [];
  health = [];
  external_names = "notes" ∷ [];
  active = ("c2", running) ∷ [];
  active_principals = ("c2", "ann") ∷ [];
  active_mutating = "c2" ∷ [];
  uncancellable_active = [];
  retained_lease_principals = "ann" ∷ [];
  principals = "ann" ∷ [];
  recording_owner = some "ann";
  events = Events.init;
}

-- The call ends while the release waits for it.
abbrev wait : List String → Host → Host
wait calls h = record h { active = []; active_principals = []; active_mutating = [] }

abbrev begun : Host
begun = (begin_principal_release "ann" busy).0

abbrev left : Host
left = release_principal wait (λ h. h) "ann" busy

release_principal-drops_example :
    (member "ann" left.principals ≡ false)
    × ((left.recording_owner ≡ some "ann") → ⊥)
    × ((q : String)
        → (q == "ann") ≡ false
        → (release_lease "ann" (wait ("c2" ∷ []) begun)).recording_owner ≡ some q
        → left.recording_owner ≡ some q)
    × All (λ entry. is_of "ann" entry.1 ≡ false) left.events.terminal
    × ((release_lease "ann" (wait ("c2" ∷ []) begun)).lease_db ≡ store (held hold))
unfolding begin_principal_release
release_principal-drops_example = release_principal-drops wait (λ h. h) "ann" busy (held hold) refl

close-frees_lease_example : (close (λ h. h) busy).lease_db ≡ Lease.empty
unfolding cancel_all
close-frees_lease_example = close-frees_lease (λ h. h) busy hold refl refl
