-- ===== src/Lifecycle.antt =====
-- internal/app/run.go: `RunWithSignals`, which starts a service, and stops it on a signal.
pub mod Returns
use integration_suricata_n_d.Base.{
  Bool, true, false, Option, none, some, [], ◌++◌, if◌then◌else◌, codes, Duration, le_zero, seconds,
  ◌≡◌,
}
use integration_suricata_n_d.Sys.{canceled, Error, is_kind, report}

-- Where the function is: at its first select, in `svc.Stop`, at its second select with `stopErr`, or returned.
pub data Phase : Type 0 where
  waiting : Phase
  stopping : Phase
  draining : Option Error → Phase
  returned : Option Error → Phase

-- The goroutine of `svc.Start`: what it has sent to `errCh`, which has room for it.
pub data Service : Type 0 where
  running : Service
  ended : Option Error → Service

-- `svc.Stop`: not called, called, or come back with an error or none.
pub data Stop : Type 0 where
  not_called : Stop
  called : Stop
  came_back : Option Error → Stop

-- `signalled` is `ctx.Done()`, `expired` is `stopCtx.Done()`.
pub record State : Type 0 where
  pub phase : Phase
  pub service : Service
  pub stop_call : Stop
  pub signalled : Bool
  pub expired : Bool

abbrev pub launched : State
launched = record {
  phase = waiting;
  service = running;
  stop_call = not_called;
  signalled = false;
  expired = false;
}

abbrev pub shutdown_timeout : Duration → Duration
shutdown_timeout t = if le_zero t then seconds 10 else t

abbrev pub timed_out : Error
timed_out = report (codes "shutdown timed out after %s") []

-- The result at the second select, of the errors of Start and of Stop.
unfoldable pub after_stop : Option Error → Option Error → Option Error
after_stop none stop_error = stop_error
after_stop (some e) stop_error = if is_kind canceled e then stop_error else some e

-- What happens outside of the function: Start ends, a signal comes, Stop comes back, the time for it runs out.
pub data Occurrence : State → State → Type 0 where
  finish :
      (s : State) (e : Option Error)
      → s.service ≡ running
      → Occurrence s (record s { service = ended e })
  signal : (s : State) → s.signalled ≡ false → Occurrence s (record s { signalled = true })
  stop_returns :
      (s : State) (e : Option Error)
      → s.phase ≡ stopping
      → Occurrence s (record s { phase = draining e; stop_call = came_back e })
  expire_stopping :
      (s : State)
      → s.phase ≡ stopping
      → s.expired ≡ false
      → Occurrence s (record s { expired = true })
  expire_draining :
      (s : State) (x : Option Error)
      → s.phase ≡ draining x
      → s.expired ≡ false
      → Occurrence s (record s { expired = true })

-- The branches of the function's two selects; one with two cases that are ready takes any of them.
pub data Branch : State → State → Type 0 where
  take_result :
      (s : State) (e : Option Error)
      → s.phase ≡ waiting
      → s.service ≡ ended e
      → Branch s (record s { phase = returned e })
  take_signal :
      (s : State)
      → s.phase ≡ waiting
      → s.signalled ≡ true
      → Branch s (record s { phase = stopping; stop_call = called })
  take_end :
      (s : State) (x e : Option Error)
      → s.phase ≡ draining x
      → s.service ≡ ended e
      → Branch s (record s { phase = returned (after_stop e x) })
  take_expiry :
      (s : State) (x : Option Error)
      → s.phase ≡ draining x
      → s.expired ≡ true
      → Branch s (record s { phase = returned (some timed_out) })
