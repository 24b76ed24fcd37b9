-- ===== src/Tests/GateTests.antt =====
-- Runs of the rate gates.
use authorization_document.Files.Gate.{
  enter, GateEvent, admitted, leave, entering, upload_limits, leaving, admitted-le-max_attempts,
}
use authorization_document.Base.{refl, some, [], ◌∷◌, List, ◌≡◌, ◌+◌, ◌≤◌, arith}

runs : Unit {0}
unfolding enter leave admitted
runs = tt

-- With one entry of twelve left, the second one waits for the next window.
abbrev busy_window : List GateEvent
busy_window = entering 1500 ∷ leaving 1000 ∷ entering 1600 ∷ []

admitted_run :
    admitted upload_limits
      (some (record { started_at = 1000; attempts = 11; active = 0 }))
      busy_window
    ≡ 1
unfolding runs
admitted_run = refl

admitted-le-max_attempts_example :
    admitted upload_limits
        (some (record { started_at = 1000; attempts = 11; active = 0 }))
        busy_window
      + 11
    ≤ 12
unfolding runs
admitted-le-max_attempts_example =
    admitted-le-max_attempts upload_limits (record { started_at = 1000; attempts = 11; active = 0 })
      busy_window (omega arith) (omega arith, (tt, (omega arith, tt)))
