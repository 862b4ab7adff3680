-- ===== src/Tests/Processes.antt =====
-- The end of a service, in a concrete run.
use integration_suricata_n_d.Base.{◌≤◌, true, false, Option, none, some, refl, codes}
use integration_suricata_n_d.Sys.{Error, is_kind, outer, canceled}
use integration_suricata_n_d.Lifecycle.{
  returned, ended, came_back, launched, State, finish, signal, take_signal, stop_returns, take_end,
  after_stop, Branch,
}
use integration_suricata_n_d.Lifecycle.Returns.{
  Run, start, happens, takes, Rests, Run-Rests, Explains, Run-Explains,
}

-- A signal comes, Stop gives no error, and then Start ends with the context's.
abbrev canceled_error : Option Error
canceled_error = some (outer canceled (codes "context canceled"))

abbrev last : State
last = record {
  phase = returned none;
  service = ended canceled_error;
  stop_call = came_back none;
  signalled = true;
  expired = false;
}

stopped : Run launched 2 last
unfolding after_stop is_kind
stopped =
    takes
      (happens
        (happens (takes (happens start (signal launched refl)) (take_signal _ refl refl))
          (stop_returns _ none refl))
        (finish _ canceled_error refl))
      (take_end _ none canceled_error refl refl)

Run-Rests_example : (2 ≤ 2) × (((u : State) → Branch last u → ⊥) → Rests last)
Run-Rests_example = Run-Rests stopped

Run-Explains_example : Explains last.service last.stop_call last.signalled last.expired none
Run-Explains_example = Run-Explains none stopped refl
