-- ===== src/Session/StartupTests.antt =====
-- The session manager's start with a router that refuses two connections, and a table at a concrete bus.
use rbuscore.Base.{
  ℕ, ◌-◌, ◌≡◌, refl, true, none, [], ◌∷◌, Bool-cases, inl, inr, arith, if◌then◌else◌, leb, length,
  strcmp_eq,
}
use rbuscore.Rt.Vector.{list_vector, list_vector-IsVector}
use rbuscore.Core.Types.{RtError}
use rbuscore.Core.State.{Bus}
use rbuscore.Core.Env.{Env}
use rbuscore.Core.Example.{World, example_env, bus_with}
use rbuscore.Server.Methods.{register_method_table}
use rbuscore.Server.MethodTableLaws.{Registered, method_of-register_method_table}
use rbuscore.Session.Manager.{destination_name, table}
use rbuscore.Session.Process.{start_manager}
use rbuscore.Session.Startup.{
  Accepting, Serving, manager, manager-ValidRegistry, table-TableFits, start_manager-Serving,
}

-- The router accepts once two naps have been taken.
abbrev late_env : Env
late_env = record example_env {
  create = λ name address w.
      if leb 2 (length w.sent) then ((RtError.ok, 1), w) else ((RtError.timeout, 0), w);
}

abbrev nap : World → World
nap w = record w { sent = ([], []) ∷ w.sent }

abbrev left : World → ℕ
left w = 2 - length w.sent

late_env-Accepting : Accepting late_env nap left
late_env-Accepting name address w = elim (Bool-cases (leb 2 (length w.sent))) [
  | inl awake ↦ inl (rw awake refl)
  | inr asleep ↦ inr (rw asleep (ground arith))
]

abbrev unconnected : Bus World
unconnected = record (bus_with [] []) { connection = none }

start_manager-Serving_example :
    let (connected, s') = start_manager list_vector late_env nap 3 unconnected in
    (connected ≡ true) × Serving late_env s'.server_objects
start_manager-Serving_example =
    start_manager-Serving list_vector late_env nap left 3 unconnected list_vector-IsVector
      late_env-Accepting (λ c name l w. refl) (omega arith) refl (omega arith)

abbrev bare : Bus World
bare = bus_with (manager ∷ []) []

method_of-register_method_table_example :
    let (ret, s') = register_method_table list_vector example_env destination_name table bare in
    Registered example_env destination_name table ret bare.server_objects s'.server_objects
unfolding strcmp_eq
method_of-register_method_table_example =
    method_of-register_method_table list_vector example_env destination_name table manager bare
      list_vector-IsVector (manager-ValidRegistry example_env (omega arith)) refl table-TableFits
