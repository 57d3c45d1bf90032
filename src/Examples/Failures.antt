-- ===== src/Examples/Failures.antt =====
-- A place (sendPlace of execution/coordinator.ts) whose intent the journal cannot write.
use multi_venue_grid_engine.Base.{◌≡◌, refl, false, [], ok}
use multi_venue_grid_engine.Execution.Registry.{perform, prepare}
use multi_venue_grid_engine.Execution.Steps.{Deps}
use multi_venue_grid_engine.Execution.Submission.{send_place}
use multi_venue_grid_engine.Execution.Sends.Unwritten.{unwritten, IsWithheld, send_place-IsWithheld}
use multi_venue_grid_engine.Examples.Cents.{cents}
use multi_venue_grid_engine.Examples.Sequences.{
  one_hash, print_of, entry, empty_state, entry_state, prepared_first,
}
use multi_venue_grid_engine.Examples.Session.{at_once, calm, calm_ports, machine_on}

abbrev full_disk : Deps (Unit {0})
full_disk = record calm { ports = record calm_ports { persist_journal = λ s. at_once false } }

entry_prepares : prepare cents one_hash print_of empty_state entry ≡ ok entry_state
unfolding perform
entry_prepares = prepared_first

send_place-IsWithheld_example :
    ((send_place full_disk entry (machine_on empty_state)).0 ≡ ok unwritten)
    × IsWithheld entry entry_state [] (send_place full_disk entry (machine_on empty_state)).1
send_place-IsWithheld_example =
    send_place-IsWithheld full_disk entry entry_state (machine_on empty_state) entry_prepares refl
