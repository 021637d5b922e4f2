-- ===== src/Supervisor/Tests.antt =====
-- The supervisor process at concrete requests.
use loopstorm_guard.Common.{◌≡◌, refl, String, none, some, List, [], ◌∷◌, length}
use loopstorm_guard.Supervisor.{
  QueuedTrigger, Happening, post, finish, Log, happen_all, idle, handle_trigger, accepted,
  unauthorized,
}
use loopstorm_guard.Supervisor.Bounded.{IsSound, happen_all-IsSound}
use loopstorm_guard.Supervisor.Live.{sessions_end, sessions_end-started}

abbrev trigger_of : String → QueuedTrigger
trigger_of id = record {
  trigger = "deny_decisions";
  trigger_run_id = id;
  tenant_id = "t1";
  priority = 3;
}

abbrev ask : String → Happening
ask id = post (some "Bearer key") (some (trigger_of id))

-- The sixth trigger waits, the seventh request is not authorized, and one session ends.
abbrev busy : List Happening
busy =
    ask "a"
    ∷ ask "b"
    ∷ ask "c"
    ∷ ask "d"
    ∷ ask "e"
    ∷ ask "f"
    ∷ ask "g"
    ∷ post none (some (trigger_of "h"))
    ∷ finish
    ∷ []

busy_test : (happen_all (some "key") busy idle).supervisor.pending_queue ≡ trigger_of "g" ∷ []
unfolding happen_all loopstorm_guard.Supervisor.happen loopstorm_guard.Supervisor.finish_session
    handle_trigger
busy_test = refl

happen_all-IsSound_example : IsSound (happen_all (some "key") busy idle)
happen_all-IsSound_example = happen_all-IsSound (some "key") busy

sessions_end-started_example :
    ((sessions_end
        (length (happen_all (some "key") busy idle).supervisor.pending_queue)
        (some "key")
        (happen_all (some "key") busy idle)).supervisor.pending_queue
      ≡ [])
    × ((sessions_end
          (length (happen_all (some "key") busy idle).supervisor.pending_queue)
          (some "key")
          (happen_all (some "key") busy idle)).supervisor.started
        ≡ (happen_all (some "key") busy idle).taken)
sessions_end-started_example =
    sessions_end-started (some "key") (happen_all (some "key") busy idle)
      (happen_all-IsSound (some "key") busy)
