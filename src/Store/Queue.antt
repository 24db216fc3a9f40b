-- ===== src/Store/Queue.antt =====
-- The jobs of the queues, as their processors leave them.
use trading_backend.Base.{if◌then◌else◌, String, Bool, ◌∷◌}
use trading_backend.Store.Events.{job_completed, job_failed}
use trading_backend.Store.Text.{Text, Exception, message}
use trading_backend.Store.World.{World, Result, ok, err}

-- A job that is ignored, done, to be tried again, or never again.
pub data JobOutcome (W A : Type 0) : Type 0 where
  ignored : JobOutcome W A
  done : A → JobOutcome W A
  retried : Exception W → JobOutcome W A
  unrecoverable : Text W → JobOutcome W A

module _ {W A : Type 0} where
  -- the `try` and its `catch`, from what the job's service has given
  abbrev pub finish_job :
      String → Text W → (Exception W → Bool) → Result W A → World W → JobOutcome W A × World W
  finish_job queue completed retries (ok out) w =
      (JobOutcome.done out, record w { events = job_completed queue completed ∷ w.events })
  finish_job queue completed retries (err e) w = (
    (if retries e then JobOutcome.retried e else JobOutcome.unrecoverable (message e)),
    record w { events = job_failed queue (message e) ∷ w.events },
  )
