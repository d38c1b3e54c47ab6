-- ===== src/Lifecycle/Laws.antt =====
-- What opening and closing the connection leave behind.
use rbuscore.Base.{
  Name, codes, ◌++◌, ℕ, ◌≡◌, ◌≢◌, ◌⊎◌, refl, inl, inr, true, false, Bool-cases, Option-cases,
  Option, none, some, List, [], ◌∷◌, arith, Name,
}
use rbuscore.Rt.Vector.{Vector, IsVector, vector-eq}
use rbuscore.Core.Types.{
  RbusError, is_ok, success, error_general, error_invalid_state, ClientEvent, ClientSubscription,
}
use rbuscore.Core.State.{Bus, ◌>>=◌}
use rbuscore.Core.Env.{Env}
use rbuscore.Client.RequestCases.{send_cases}
use rbuscore.Lifecycle.Open.{
  cancel_events, cancel_subscriptions, perform_cleanup, perform_init, choose_address,
  create_connection, open_broker_connection2, destroy_connection, close_broker_connection,
}

module _ (env : Env) where
  cancel_events_cases {κ} :
      (P : Bus env.World → Type κ) (object_name : Name) (es : List ClientEvent) (s : Bus env.World)
      → ((w : env.World) → P (record s { world = w }))
      → P (cancel_events env object_name es s).1
  unfolding cancel_events
  cancel_events_cases P o [] s k = k s.world
  cancel_events_cases P o (e ∷ es) s k =
      send_cases env (λ r s'. P (cancel_events env o es s').1) o e.name false none 0 s
        λ r w. cancel_events_cases P o es (record s { world = w }) k

  cancel_subscriptions_cases {κ} :
      (P : Bus env.World → Type κ) (subs : List ClientSubscription) (s : Bus env.World)
      → ((w : env.World) → P (record s { world = w }))
      → P (cancel_subscriptions env subs s).1
  unfolding cancel_subscriptions
  cancel_subscriptions_cases P [] s k = k s.world
  cancel_subscriptions_cases P (sub ∷ subs) s k =
      cancel_events_cases (λ s'. P (cancel_subscriptions env subs s').1) sub.object sub.events s
        λ w. cancel_subscriptions_cases P subs (record s { world = w }) k

  -- perform_cleanup empties both tables and leaves the mutex free.
  perform_cleanup_cases {κ} :
      (v : Vector) (P : Bus env.World → Type κ) (s : Bus env.World)
      → ((w : env.World)
          → P (record s {
            world = w;
            locked = false;
            server_objects = [];
            event_subscriptions = [];
          }))
      → P (perform_cleanup v env s).1
  unfolding perform_cleanup
  perform_cleanup_cases v P s k =
      cancel_subscriptions_cases (λ s'. P (record s' { locked = false; event_subscriptions = [] }))
        s.event_subscriptions (record s { locked = false; server_objects = [] }) k

-- Nothing is registered and nothing is subscribed to.
abbrev pub IsEmpty : {W : Type 0} → Bus W → Type 0
IsEmpty s = (s.server_objects ≡ []) × (s.event_subscriptions ≡ [])

-- What can be said of the result and the state after rbus_closeBrokerConnection.
abbrev pub Closed : {W : Type 0} → Bus W → RbusError × Bus W → Type 0
Closed s (ret, s') =
    ((ret ≡ success)
      × (s'.connection ≡ none)
      × IsEmpty s'
      × (s'.locked ≡ false)
      × (s'.mutex_init ≡ false))
    ⊎ (((ret ≡ error_invalid_state) × (s.connection ≡ none) × (s' ≡ record s { locked = true }))
        ⊎ ((ret ≡ error_general)
            × (s.connection ≢ none)
            × (s'.connection ≡ s.connection)
            × IsEmpty s'
            × (s'.locked ≡ false)))

destroy_connection-Closed :
    (env : Env) (s : Bus env.World) (c : ℕ) (w : env.World)
    → s.connection ≡ some c
    → Closed s (
        destroy_connection env c
          (record s { world = w; locked = false; server_objects = []; event_subscriptions = [] }))
unfolding destroy_connection
destroy_connection-Closed env s c w connected =
    elim (Bool-cases (is_ok (env.destroy (some c) w).0)) [
      | inl fine ↦ rw (fine, destroy_connection, ◌>>=◌) (inl (refl, refl, (refl, refl), refl, refl))
      | inr bad ↦
          rw (bad, destroy_connection, ◌>>=◌)
            (inr (inr (refl, (λ e. cc), refl, (refl, refl), refl)))
    ]

-- How rbus_closeBrokerConnection can end: it succeeds, and then there is no connection, nothing is
-- registered or subscribed to, and the mutex is free and marked as destroyed; or there was no
-- connection, and then the mutex is left held and the tables are as before; or the connection could
-- not be destroyed, and then it is still there, with the tables emptied and the mutex free.
pub close_broker_connection-Closed :
    (v : Vector) (env : Env) (s : Bus env.World) → Closed s (close_broker_connection v env s)
unfolding close_broker_connection
close_broker_connection-Closed v env s = elim (Option-cases s.connection) [
  | inl closed ↦
      inr (inl (rw (closed, close_broker_connection), closed, rw (closed, close_broker_connection)))
  | inr (c, connected) ↦
      let through : close_broker_connection v env s
          ≡ destroy_connection env c (perform_cleanup v env (record s { locked = true })).1 =
        rw (connected, close_broker_connection) refl in
      rw through (
        perform_cleanup_cases env v (λ t. Closed s (destroy_connection env c t))
          (record s { locked = true }) λ w. destroy_connection-Closed env s c w connected)
]

-- The bus after a connection was created for a component: it holds the handle that the router's
-- library gave, the world is as that left it, nothing is registered or subscribed to, and the mutex is
-- free.
abbrev pub Connected : (env : Env) → Name → Name → Bus env.World → Bus env.World → Type 0
Connected env component_name address before s =
    let ((err, handle), w) = env.create (codes "rbus." ++ component_name) address before.world in
    (s.connection ≡ some handle)
    × (s.world ≡ w)
    × IsEmpty s
    × (s.locked ≡ false)
    × (s.mutex_init ≡ true)

-- rbus_openBrokerConnection2 where there is no connection and the broker accepts.
opened_lem :
    (v : Vector) (env : Env) (component_name : Name) (broker_address : Option Name)
    (s : Bus env.World)
    → IsVector v
    → ((name address : Name) (w : env.World) → is_ok (env.create name address w).0.0 ≡ true)
    → s.connection ≡ none
    → let (ret, s') = open_broker_connection2 v env (some component_name) broker_address s in
      (ret ≡ success) × Connected env component_name (choose_address v env broker_address s).0 s s'
unfolding open_broker_connection2 create_connection choose_address perform_init
opened_lem v env name none s iv accepts closed =
    rw (closed, vector-eq v iv, open_broker_connection2, ◌>>=◌)
      (rw accepts (refl, (refl, refl, (refl, refl), refl, refl)))
opened_lem v env name (some address) s iv accepts closed =
    rw (closed, vector-eq v iv, open_broker_connection2, ◌>>=◌)
      (rw accepts (refl, (refl, refl, (refl, refl), refl, refl)))

-- A client that has closed its connection can open it again, if the broker accepts: the call
-- succeeds, with the connection that the router's library creates then, for the component's name with
-- "rbus." before it and the address that is given or else configured, and with nothing registered or
-- subscribed to, and the mutex free.
pub open_broker_connection2-close_broker_connection :
    (v : Vector) (env : Env) (component_name : Name) (broker_address : Option Name)
    (s : Bus env.World)
    → IsVector v
    → ((name address : Name) (w : env.World) → is_ok (env.create name address w).0.0 ≡ true)
    → (close_broker_connection v env s).0 ≡ success
    → let closed = (close_broker_connection v env s).1 in
      let (ret, s') = open_broker_connection2 v env (some component_name) broker_address closed in
      (ret ≡ success)
      × Connected env component_name (choose_address v env broker_address closed).0 closed s'
open_broker_connection2-close_broker_connection v env name address s iv accepts closed =
    opened_lem v env name address (close_broker_connection v env s).1 iv accepts
      (elim (close_broker_connection-Closed v env s) [
        | inl fine ↦ fine.1
        | inr (inl early) ↦ absurd (omega (arith, closed, early.0))
        | inr (inr late) ↦ absurd (omega (arith, closed, late.0))
      ])
