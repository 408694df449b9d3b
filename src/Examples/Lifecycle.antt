-- ===== src/Examples/Lifecycle.antt =====
-- Runs of the lifecycle's and the store's theorems on the demo service.

use stattii.Base.{[], false, some, ◌≡◌}
use stattii.Examples.Fixtures.{called_off, demo, demo-NamedTxns, failing, meeting}
use stattii.Lifecycle.{fan_out_locked, move_locked, reinstate_event}
use stattii.Lifecycle.Answers.{EventCall, answer, answer-Acknowledged}
use stattii.Lifecycle.Branches.{MoveOutcome, move_locked-outcome}
use stattii.Lifecycle.Propagation.{Announced, fan_out_lem}
use stattii.Lifecycle.Reinstatement.{ReinstateOutcome, reinstate_event-outcome}
use stattii.Model.{Via, cancellation}
use stattii.Service.{audit_fuel, audit_locked}
use stattii.Service.Health.Acknowledged.{Acknowledged}
use stattii.Service.Health.Fuel.{audit_fuel_enough}

move_locked-outcome_example :
    MoveOutcome false false
      (some meeting)
      2000
      0
      "rain"
      demo
      (move_locked "ev1" 2000 0 "rain" "admin" demo)
move_locked-outcome_example = move_locked-outcome "ev1" 2000 0 "rain" "admin" demo demo-NamedTxns

reinstate_event-outcome_example :
    ReinstateOutcome (some called_off) demo (reinstate_event "ev2" "admin" demo)
reinstate_event-outcome_example = reinstate_event-outcome "ev2" "admin" demo demo-NamedTxns

fan_out_lem_example :
    Announced meeting cancellation "off" "it is off" demo
      (fan_out_locked meeting cancellation "off" "it is off" demo)
fan_out_lem_example =
    fan_out_lem meeting cancellation "off" "it is off" demo (demo-NamedTxns demo.drawn)

answer-Acknowledged_example :
    Acknowledged failing (answer (EventCall.cancel "ev1" "p1" "ill" Via.portal) failing)
answer-Acknowledged_example =
    answer-Acknowledged (EventCall.cancel "ev1" "p1" "ill" Via.portal) failing

audit_fuel_enough_example : audit_fuel 4 "response" [] failing ≡ audit_locked "response" [] failing
audit_fuel_enough_example = audit_fuel_enough 2 "response" [] failing
