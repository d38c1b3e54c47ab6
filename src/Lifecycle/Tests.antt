-- ===== src/Lifecycle/Tests.antt =====
-- The theorems on the connection at a concrete bus.
use rbuscore.Base.{◌≡◌, refl, none, some, [], ◌∷◌, codes, c_string}
use rbuscore.Rt.Vector.{list_vector, list_vector-IsVector}
use rbuscore.Core.Types.{success}
use rbuscore.Core.Example.{example_env, lamp_bus}
use rbuscore.Lifecycle.Config.{configure_router_address}
use rbuscore.Lifecycle.Open.{
  close_broker_connection, destroy_connection, open_broker_connection2, choose_address,
}
use rbuscore.Lifecycle.Laws.{
  Closed, Connected, close_broker_connection-Closed,
  open_broker_connection2-close_broker_connection,
}
use rbuscore.Lifecycle.Words.{words_behind, configure_router_address-words}

close_broker_connection-Closed_example :
    Closed lamp_bus (close_broker_connection list_vector example_env lamp_bus)
close_broker_connection-Closed_example =
    close_broker_connection-Closed list_vector example_env lamp_bus

open_broker_connection2-close_broker_connection_example :
    let closed = (close_broker_connection list_vector example_env lamp_bus).1 in
    let (ret, s') =
      open_broker_connection2 list_vector example_env (some (codes "panel")) none closed in
    (ret ≡ success)
    × Connected example_env
        (codes "panel")
        (choose_address list_vector example_env none closed).0
        closed
        s'
unfolding close_broker_connection destroy_connection
open_broker_connection2-close_broker_connection_example =
    open_broker_connection2-close_broker_connection list_vector example_env (codes "panel") none
      lamp_bus list_vector-IsVector (λ name address w. refl) refl

configure_router_address-words_example :
    configure_router_address
      (some (codes "  " ∷ codes " tcp://10.0.0.1 # router" ∷ []))
      (codes "unix")
    ≡ codes "tcp://10.0.0.1"
unfolding words_behind c_string
configure_router_address-words_example =
    configure_router_address-words (some (codes "  " ∷ codes " tcp://10.0.0.1 # router" ∷ []))
      (codes "unix")
