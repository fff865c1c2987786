-- ===== src/Events/Tests.antt =====
-- Runs of the events.
use openagent_host_tools.Base.{◌≡◌, refl, some, true, false, List, [], ◌∷◌, end}
use openagent_host_tools.Events.{Event, init, emit, subscribe, unsubscribe, forget, ack}
use openagent_host_tools.Events.Kept.{
  Step, emitted, subscribed, unsubscribed, acknowledged, forgotten, run, Delivered,
  terminal_event-kept,
}

abbrev completed : Event
completed = record { kind = "shell_completed"; principal = some "ann"; shell_id = "s1"; rest = end }

abbrev other : Event
other = record { kind = "shell_completed"; principal = some "bob"; shell_id = "s1"; rest = end }

abbrev meanwhile : List Step
meanwhile =
    subscribed "desktop"
    ∷ emitted other
    ∷ acknowledged "bob" "s1"
    ∷ unsubscribed "desktop"
    ∷ forgotten "bob"
    ∷ []

late_subscriber :
    (subscribe "cli" (run meanwhile (emit completed init).0)).1 ≡ ("cli", completed) ∷ []
unfolding subscribe run emit ack forget unsubscribe
late_subscriber = refl

terminal_event-kept_example :
    Delivered "cli" completed (subscribe "cli" (run meanwhile (emit completed init).0)).1
    × ((ack "ann" "s1" (run meanwhile (emit completed init).0)).1 ≡ true)
    × ((ack "ann" "s1" (ack "ann" "s1" (run meanwhile (emit completed init).0)).0).1 ≡ false)
terminal_event-kept_example =
    terminal_event-kept completed meanwhile init "cli" refl (tt, (refl, (refl, (tt, (refl, tt)))))
