-- ===== src/Mcp/Tests.antt =====
-- Histories of an adapter that starts a server, asks it, and loses it.
use openagent_host_tools.Base.{
  String, ◌≡◌, refl, true, false, some, List, [], ◌∷◌, arith, has, Value, str, int, obj, Fields,
  end, field, pos, ok, raise, HostError, float, infinity,
}
use openagent_host_tools.Mcp.{Adapter, waiting, result, init, register, request}
use openagent_host_tools.Mcp.Reader.{Frame, message, read_frame, read_line, dies, pending_at}
use openagent_host_tools.Mcp.Steps.{
  Event, launches, requests, listed, exits, watched, line, step, run,
}
use openagent_host_tools.Mcp.Watched.{Settled}
use openagent_host_tools.Mcp.Answers.{gone-Settled, Answered, step-Answered}
use openagent_host_tools.Mcp.Stranded.{abandoned, read_line-stranded}
use openagent_host_tools.Mcp.Restart.{Others, AreCalm, restart_loop}
use openagent_host_tools.Mcp.Rounds.{Returns, restart_loop-Returns}

abbrev shown_text : Value → String
shown_text (str s) = s
shown_text v = "?"

-- A server is started and asked.
abbrev asking : List Event
asking = launches ∷ listed 0 ∷ requests ∷ []

abbrev asked : Adapter
asked = record (init "'files'" 5 false) {
  process = some 0;
  launches = 1;
  tasks = some 0;
  reading = 0 ∷ [];
  watching = 0 ∷ [];
  ready_processes = 0 ∷ [];
  available = true;
  next_id = 1;
  pending = (record { id = 1; process = 0; future = waiting }) ∷ [];
}

run-asking : run shown_text asking (init "'files'" 5 false) ≡ asked
unfolding run
run-asking = refl

abbrev granted : Fields
granted = field "id" (int (pos 1)) (field "result" (obj end) end)

-- It answers.
step-line :
    (step shown_text (line 0 (message (obj granted))) asked).pending
    ≡ (record { id = 1; process = 0; future = result end }) ∷ []
unfolding step
step-line = refl

-- It dies, and its watcher sees it.
abbrev losing : List Event
losing = launches ∷ listed 0 ∷ requests ∷ exits 0 ∷ watched 0 "1" ∷ []

lost_lem : has 0 (run shown_text losing (init "'files'" 5 false)).watching ≡ false
unfolding run
lost_lem = refl

gone-Settled_example : Settled 0 (run shown_text losing (init "'files'" 5 false)).pending
gone-Settled_example = gone-Settled shown_text "'files'" 5 false losing 0 lost_lem

answer_lem :
    pending_at 1 (step shown_text (line 0 (message (obj granted))) asked).pending
    ≡ some (record { id = 1; process = 0; future = result end })
unfolding pending_at step
answer_lem = refl

asked_lem : pending_at 1 asked.pending ≡ some (record { id = 1; process = 0; future = waiting })
unfolding pending_at
asked_lem = refl

step-Answered_example :
    Answered shown_text
      (line 0 (message (obj granted)))
      (record { id = 1; process = 0; future = waiting })
      (record { id = 1; process = 0; future = result end })
step-Answered_example =
    step-Answered shown_text (line 0 (message (obj granted))) asked 1
      (record { id = 1; process = 0; future = waiting })
      (record { id = 1; process = 0; future = result end }) (omega arith) asked_lem answer_lem

-- A result that is no object, and an id that no integer is.
abbrev odd_result : Fields
odd_result = field "id" (int (pos 1)) (field "result" (int (pos 5)) end)

abbrev odd_id : Fields
odd_id = field "id" (float (infinity false)) end

odd_result_lem : (read_frame shown_text 0 (message (obj odd_result)) asked).1 ≡ dies "TypeError"
unfolding read_frame
odd_result_lem = refl

odd_id_lem : (read_frame shown_text 0 (message (obj odd_id)) asked).1 ≡ dies "OverflowError"
unfolding read_frame
odd_id_lem = refl

read_line-stranded_example :
    (read_line shown_text 0 (message (obj odd_result)) asked ≡ abandoned shown_text 0 asked)
    × (request (abandoned shown_text 0 asked) ≡ (register 0 (abandoned shown_text 0 asked), ok 2))
    × ((g : Frame)
        → step shown_text (line 0 g) (register 0 (abandoned shown_text 0 asked))
          ≡ register 0 (abandoned shown_text 0 asked))
read_line-stranded_example =
    read_line-stranded shown_text 0 asked (message (obj odd_result)) "TypeError" odd_result_lem refl
      refl

-- Every launch fails: two attempts, after 250 and 500 milliseconds.
abbrev refused : HostError
refused = record { code = "plugin_unavailable"; message = "cannot start"; details = end }

abbrev others : Others
others = record {
  sleep = λ d a. a;
  acquire = λ a. a;
  notify = λ a. a;
  tick = λ a. a;
  launch = λ a. (a, raise refused);
  failure = λ a t. t;
}

others-AreCalm : AreCalm others
others-AreCalm = record {
  sleep = λ d. record { limit = λ a. refl; attempts = λ a. omega arith };
  acquire = record { limit = λ a. refl; attempts = λ a. omega arith };
  notify = record { limit = λ a. refl; attempts = λ a. omega arith };
  tick = record { limit = λ a. refl; attempts = λ a. omega arith };
  launch = record { limit = λ a. refl; attempts = λ a. omega arith };
}

restart_loop_lem :
    restart_loop 250 5000 others 3 (init "'files'" 2 false)
    ≡ some (
      record (init "'files'" 2 false) {
        restart_attempts = 2;
        unavailable_reason = some "cannot start";
      },
      250 ∷ 500 ∷ [],
    )
unfolding restart_loop
restart_loop_lem = refl

restart_loop-Returns_example :
    Returns 5000 2 (restart_loop 250 5000 others 3 (init "'files'" 2 false))
restart_loop-Returns_example =
    restart_loop-Returns 250 5000 others others-AreCalm 3 (init "'files'" 2 false) (omega arith)
