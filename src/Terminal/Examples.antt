-- ===== src/Terminal/Examples.antt =====
-- Witnesses and tests of the conference connector.
use video_meeting_recorder.Common.{
  ℕ, ◌≡◌, ◌≢◌, refl, true, false, Option, none, some, List, [], ◌∷◌, codes, text_eq, arith,
}
use video_meeting_recorder.Common.Maps.{lookup}
use video_meeting_recorder.Errors.{ok, err, external, panic}
use video_meeting_recorder.Task.{Status, failed}
use video_meeting_recorder.InputConfig.{InputConfig, validate, is_foreign}
use video_meeting_recorder.Terminal.{Connect, get_config_id, check_idle, connect_to_conference}
use video_meeting_recorder.Terminal.Exclusive.{connect_foreign}
use video_meeting_recorder.Terminal.Consistent.{
  Table, has_holder, Call, connects, disconnects, clears, asks, step, run, run-step-ne-panic,
}
use video_meeting_recorder.Fixtures.{room, call}

abbrev answers : Connect
answers = record {
  now = 500;
  read = true;
  status = some (codes "idle");
  saved = true;
  first_call = false;
  second_call = true;
  confirmed = true;
  unlock_read = true;
  unlock_saved = true;
}

-- The room, held by task 4.
abbrev taken : InputConfig
taken = record room { is_locked = true; locked_by = some 4; locked_at = some 100 }

connect_foreign_example :
    connect_to_conference answers call ((3, taken) ∷ []) ≡ (err external, (3, taken) ∷ [])
unfolding get_config_id lookup
connect_foreign_example =
    connect_foreign answers call ((3, taken) ∷ []) 3 taken 4 refl refl refl refl
      (λ h. omega (arith, h))

connected : (connect_to_conference answers call ((3, room) ∷ [])).0 ≡ ok tt
unfolding connect_to_conference get_config_id lookup validate check_idle is_foreign text_eq
connected = refl

abbrev ended : ℕ → Option Status
ended k = some failed

abbrev calls : List Call
calls = connects answers call ∷ disconnects true true true call ∷ clears true ended (λ k. true) ∷ []

taken-Table : Table ((3, taken) ∷ [])
unfolding has_holder
taken-Table = ((refl, refl), tt)

run-step-ne-panic_example :
    Table (run calls ((3, taken) ∷ []))
    × ((step (asks true none 3) (run calls ((3, taken) ∷ []))).0 ≢ err panic)
run-step-ne-panic_example = run-step-ne-panic calls (asks true none 3) ((3, taken) ∷ []) taken-Table

-- A lock of a task that records stays.
abbrev busy : ℕ → Option Status
busy k = some Status.recording
