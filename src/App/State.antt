-- ===== src/App/State.antt =====
-- The module-level state of typescript/src/app/handlers.ts and streamHandlers.ts.
use flare_stealthwage.Prelude.{ℕ, [], Text, text, decimal}
use flare_stealthwage.Json.Value.{Json, num, str, obj, Fields, end, field}

pub record State : Type 0 where
  pub greeting_count : ℕ
  pub last_greeting : Text
  pub farewell_count : ℕ
  pub last_farewell : Text
  pub auth_count : ℕ

abbrev pub initial : State
initial = record {
  greeting_count = 0;
  last_greeting = [];
  farewell_count = 0;
  last_farewell = [];
  auth_count = 0;
}

-- `resetState`
unfoldable pub reset_state : State → State
reset_state s = record s {
  greeting_count = 0;
  last_greeting = [];
  farewell_count = 0;
  last_farewell = [];
}

-- `resetStreamState`
unfoldable pub reset_stream_state : State → State
reset_stream_state s = record s { auth_count = 0 }

-- `reportStreamState`, as the properties that it adds.
abbrev pub report_stream_state : State → Fields
report_stream_state s = field (text "authCount") (num (decimal s.auth_count)) end

-- `reportState`
unfoldable pub report_state : State → Json
report_state s = obj (
    field (text "greetingCount") (num (decimal s.greeting_count)) (
      field (text "lastGreeting") (str s.last_greeting) (
        field (text "farewellCount") (num (decimal s.farewell_count))
          (field (text "lastFarewell") (str s.last_farewell) (report_stream_state s)))))
