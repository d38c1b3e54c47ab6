-- ===== src/Session/Process.antt =====
-- `main` of session_manager.c: the loop that connects, and the registrations behind it. The time that
-- passes in sleep(10) is a parameter. The loop takes the number of its attempts, since the router may
-- never accept. What follows pause() closes the connection.
use rbuscore.Base.{ℕ, zero, suc, Bool, true, false, some, ◌==◌, if◌then◌else◌}
use rbuscore.Rt.Vector.{Vector}
use rbuscore.Core.Types.{success}
use rbuscore.Core.State.{Action, return, ◌>>=◌}
use rbuscore.Core.Env.{Env}
use rbuscore.Lifecycle.Open.{open_broker_connection, close_broker_connection}
use rbuscore.Session.Manager.{destination_name, register_manager}

module _ (v : Vector) (env : Env) (sleep : env.World → env.World) where
  -- The loop around rbus_openBrokerConnection; true where it ends with a connection.
  unfoldable pub connect : ℕ → Action env.World Bool
  connect zero s = (false, s)
  connect (suc attempts) s =
      let (err, s') = open_broker_connection v env (some destination_name) s in
      let later = connect attempts (record s' { world = sleep s'.world }) in
      if err == success then (true, s') else later

  -- `main` up to pause().
  unfoldable pub start_manager : ℕ → Action env.World Bool
  start_manager attempts = do
    connected ← connect attempts
    if connected then (do ret ← register_manager v env; return true) else return false

  -- `main` with what happens to the bus while the process is paused.
  unfoldable pub run_manager : Action env.World (Unit {0}) → ℕ → Action env.World Bool
  run_manager paused attempts = do
    connected ← start_manager attempts
    if connected
        then (do woken ← paused; err ← close_broker_connection v env; return true)
        else return false
