-- ===== src/Tests/Hubs.antt =====
-- Tests of the hub.
use open_agent_showcase.Common.{
  ◌+◌, ◌≤◌, arith, ℕ, ◌==◌, if◌then◌else◌, none, some, List, [], ◌∷◌, true, false, length, ◌≡◌,
  refl,
}
use open_agent_showcase.Hub.{
  org, Event, Client, Step, registering, unregistering, broadcasting, receiving, joining, leaving,
  writing, Setting, members_of, other_rooms, join, leave_all, leave_one, is_duplicate, put, deliver,
  send_all, register, unregister, broadcast, begin_local, end_local, broadcast_local, join_channel,
  leave_channel, write, step, run, new_hub,
}
use open_agent_showcase.Hub.Isolated.{BoxesFit, run-BoxesFit}
use open_agent_showcase.Hub.Closed.{register-unregister, end_local-unregister}
use open_agent_showcase.Hub.Orderly.{run-calm}
use open_agent_showcase.Hub.Counts.{count_id}
use open_agent_showcase.Hub.Once.{run-count_id}

abbrev setting : Setting
setting = record { now = 10; fresh = 99; capacity = 64; has_redis = true }

abbrev ann : Client
ann = record { id = 1; org = 7 }

abbrev bob : Client
bob = record { id = 2; org = 8 }

abbrev greeting : Event
greeting = record { id = some 5; content = 0; room = org 7 }

abbrev steps : List Step
steps =
    registering ann
    ∷ registering bob
    ∷ joining bob 3
    ∷ broadcasting setting greeting
    ∷ receiving setting greeting
    ∷ leaving bob 3
    ∷ writing 1
    ∷ unregistering bob
    ∷ []

abbrev organization : ℕ → ℕ
organization id = if id == 1 then 7 else 8

-- The event comes back from Redis and is dropped.
run_test : ((run steps new_hub).boxes 1).delivered ≡ greeting ∷ []
unfolding run step register unregister broadcast broadcast_local begin_local end_local join_channel
    leave_channel write join leave_all leave_one members_of other_rooms is_duplicate send_all
    deliver put
run_test = refl

abbrev nameless : Event
nameless = record greeting { id = none }

-- An event that the hub has named comes back from Redis and is delivered again.
run_test_again :
    length
      ((run
          (registering ann
            ∷ broadcasting setting nameless
            ∷ receiving setting (record nameless { id = some 99 })
            ∷ [])
          new_hub).boxes
        1).delivered
    ≡ 2
unfolding run step register broadcast broadcast_local begin_local end_local join members_of
    other_rooms is_duplicate send_all deliver put
run_test_again = refl

run-BoxesFit_example : BoxesFit organization (run steps new_hub).boxes
run-BoxesFit_example = run-BoxesFit organization steps (refl, (refl, tt))

run-count_id_example :
    count_id 5 ((run steps (run steps new_hub)).boxes 1).delivered
    ≤ count_id 5 ((run steps new_hub).boxes 1).delivered + 1
run-count_id_example =
    run-count_id 10 steps steps 5 1
      ((omega arith, omega arith), (refl, ((omega arith, omega arith), tt)))

run-calm_example : (run steps new_hub).panicked ≡ false
run-calm_example = run-calm steps refl

register-unregister_example :
    (broadcast setting greeting (register ann (unregister ann new_hub))).panicked ≡ true
unfolding is_duplicate
register-unregister_example = register-unregister setting ann greeting new_hub refl refl

end_local-unregister_example :
    (end_local setting
      (some (greeting, ann ∷ []))
      (unregister ann (begin_local setting greeting (register ann new_hub)).0)).panicked
    ≡ true
unfolding is_duplicate begin_local register join members_of
end_local-unregister_example =
    end_local-unregister setting ann greeting (register ann new_hub) refl refl
