-- ===== src/Tests/Triggers.antt =====
-- Tests of the triggers.
use open_agent_showcase.Common.{
  ◌+◌, ◌*◌, ◌%◌, ◌≤◌, ◌<◌, none, some, [], ◌∷◌, true, false, any, err, ◌≡◌, refl, inr, arith,
}
use open_agent_showcase.Scheduler.{
  Trigger, Store, Setting, day, weekday, days_until_monday, next_weekly, create_trigger, is_due,
  claim, process_trigger, process_all, process_due_triggers,
}
use open_agent_showcase.Scheduler.Weekly.{next_weekly-monday}
use open_agent_showcase.Scheduler.Again.{process_trigger_again}
use open_agent_showcase.Scheduler.Settled.{process_due_triggers-is_due}

abbrev weekly : Trigger
weekly = record {
  id = 1;
  org = 7;
  name = "report";
  kind = "schedule";
  config = record {
    title = "";
    description = "";
    scheduled_at = none;
    cron = "0 9 * * 1";
    ahead = 3600;
  };
  enabled = true;
  agent = some 5;
  team = none;
  project = some 2;
  created_by = 4;
  last_triggered = none;
  next_run = some 28800;
}

abbrev store : Store
store = record { triggers = weekly ∷ []; scheduled = []; tasks = []; jobs = [] }

abbrev setting : Setting
setting = record {
  now = 30000;
  task_id = 50;
  has_worker = true;
  scheduling_fails = false;
  task_fails = false;
}

-- On Monday at nine, an hour ahead of UTC, a week later.
next_weekly_test : next_weekly "0 9 * * 1" 3600 28800 ≡ 28800 + 7 * day
unfolding next_weekly days_until_monday
next_weekly_test = refl

-- Another cron text is every minute.
next_weekly_other : next_weekly "0 0 1 1 *" 0 1000 ≡ 1060
unfolding next_weekly
next_weekly_other = refl

create_trigger_test :
    (create_trigger 0 (record weekly { kind = "cron" }) store).1 ≡ err "invalid trigger_type"
unfolding create_trigger
create_trigger_test = refl

process_due_triggers_test : (process_due_triggers setting store).0.jobs ≡ (5, 50) ∷ []
unfolding process_due_triggers process_all process_trigger
process_due_triggers_test = refl

-- A refused task is counted, and the trigger is due for ever.
process_due_triggers_refused :
    process_due_triggers (record setting { task_fails = true }) store ≡ (store, 1)
unfolding process_due_triggers process_all process_trigger
process_due_triggers_refused = refl

next_weekly-monday_example :
    ((weekday (next_weekly "0 9 * * 1" 3600 100 + 3600) ≡ 0)
      × ((next_weekly "0 9 * * 1" 3600 100 + 3600) % day ≡ 9 * 3600))
    × ((100 < next_weekly "0 9 * * 1" 3600 100)
        × (next_weekly "0 9 * * 1" 3600 100 ≤ 100 + 7 * day))
next_weekly-monday_example = next_weekly-monday "0 9 * * 1" 3600 100 refl

-- A second worker, an hour later.
abbrev later_setting : Setting
later_setting = record setting { now = setting.now + 3600; task_fails = true }

process_trigger_again_example :
    process_trigger later_setting weekly (process_trigger setting weekly store).0
    ≡ ((process_trigger setting weekly store).0, false)
unfolding process_trigger claim next_weekly days_until_monday
process_trigger_again_example =
    process_trigger_again setting later_setting weekly weekly store refl refl refl
      (inr (omega arith))

process_due_triggers-is_due_example :
    any (is_due 30000) (process_due_triggers setting store).0.triggers ≡ false
process_due_triggers-is_due_example = process_due_triggers-is_due setting store refl refl
