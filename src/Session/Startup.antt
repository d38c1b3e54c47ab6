-- ===== src/Session/Startup.antt =====
-- The session manager's process comes to the point where its methods can be called.
use rbuscore.Base.{
  ℕ, zero, suc, ◌<◌, ◌≡◌, ◌≢◌, refl, ◌⊎◌, inl, inr, true, false, Bool-cases, none, some, List, [],
  ◌∷◌, ◌++◌, All, arith, Name, codes, strlen, leb, ◌==◌, strcmp_eq, Option,
}
use rbuscore.Rt.Vector.{Vector, IsVector, list_vector, list_vector-IsVector, vector-eq}
use rbuscore.Core.Types.{is_ok, success, Listener, Object}
use rbuscore.Core.State.{Bus, ◌>>=◌, ◌>>◌}
use rbuscore.Core.Env.{Env}
use rbuscore.Lifecycle.Config.{configure_router_address}
use rbuscore.Lifecycle.Open.{
  open_broker_connection, open_broker_connection2, create_connection, choose_address, perform_init,
  perform_cleanup, cancel_subscriptions,
}
use rbuscore.Server.Objects.{
  register_obj, register_new_obj, get_object, name_is_bad, server_object_create,
}
use rbuscore.Server.ObjectCases.{new_object, new-ValidObject}
use rbuscore.Server.MethodTableLaws.{TableFits, entry, method_of-register_method_table}
use rbuscore.Server.Valid.{ValidRegistry, method_of}
use rbuscore.Session.Manager.{destination_name, table, register_manager}
use rbuscore.Session.Process.{connect, start_manager}

module _ (env : Env) (sleep : env.World → env.World) (wait : env.World → ℕ) where
  -- The router accepts after some attempts: each one that it refuses brings the time nearer.
  abbrev pub Accepting : Type 0
  Accepting =
      (name address : Name) (w : env.World)
      → (is_ok (env.create name address w).0.0 ≡ true)
        ⊎ (wait (sleep (env.create name address w).1) < wait w)

  -- One attempt: there is a connection and nothing is registered, or the time is nearer.
  attempt_lem :
      (s : Bus env.World)
      → Accepting
      → s.connection ≡ none
      → let (ret, s') = open_broker_connection list_vector env (some destination_name) s in
        ((ret ≡ success) × ((c : ℕ) × (s'.connection ≡ some c)) × (s'.server_objects ≡ []))
        ⊎ ((ret ≢ success) × (s'.connection ≡ none) × (wait (sleep s'.world) < wait s.world))
  unfolding open_broker_connection open_broker_connection2 create_connection choose_address
      perform_init perform_cleanup cancel_subscriptions
  attempt_lem s accepting closed =
      let address = configure_router_address (env.read_config s.world) s.daemon_address in
      let made = env.create (codes "rbus." ++ destination_name) address s.world in
      rw (closed, open_broker_connection, open_broker_connection2, ◌>>=◌, ◌>>◌)
        (elim (Bool-cases (is_ok made.0.0)) [
          | inl fine ↦ rw fine (inl (refl, (_, refl), refl))
          | inr bad ↦ rw bad (
              inr (
                (λ e. omega arith),
                refl,
                elim (accepting (codes "rbus." ++ destination_name) address s.world) [
                  | inl fine ↦ absurd (cc)
                  | inr nearer ↦ nearer
                ],
              ))
        ])

  -- The loop ends with a connection within the time that the router takes.
  connect_lem :
      (attempts : ℕ) (s : Bus env.World)
      → Accepting
      → s.connection ≡ none
      → wait s.world < attempts
      → let (connected, s') = connect list_vector env sleep attempts s in
        (connected ≡ true) × ((c : ℕ) × (s'.connection ≡ some c)) × (s'.server_objects ≡ [])
  unfolding connect
  connect_lem zero s accepting closed enough = absurd (omega (arith, enough))
  connect_lem (suc attempts) s accepting closed enough = elim (attempt_lem s accepting closed) [
    | inl (fine, open_, empty) ↦ rw (fine, connect) (refl, open_, empty)
    | inr (bad, still, nearer) ↦
        let s' = (open_broker_connection list_vector env (some destination_name) s).1 in
        let again : ((open_broker_connection list_vector env (some destination_name) s).0
              == success)
            ≡ false =
          ground arith in
        rw (again, connect)
          (connect_lem attempts (record s' { world = sleep s'.world }) accepting still
            (omega (arith, nearer, enough)))
  ]

-- The manager as an object, before it has methods.
abbrev pub manager : Object
manager = new_object destination_name 0 0

pub table-TableFits : TableFits table manager
unfolding strcmp_eq
table-TableFits = record {
  names_short = (omega arith, (omega arith, (omega arith, tt)));
  names_distinct = ((refl, (refl, tt)), ((refl, tt), (tt, tt)));
  names_new = (refl, (refl, (refl, tt)));
  room = omega arith;
}

module _ (env : Env) where
  -- The router takes every listener.
  abbrev pub TakesListeners : Type 0
  TakesListeners =
      (c : Option ℕ) (name : Name) (l : Listener) (w : env.World)
      → is_ok (env.add_listener c name l w).0 ≡ true

  registered_lem :
      (c : ℕ) (s : Bus env.World)
      → TakesListeners
      → strlen destination_name < env.max_object_name_length
      → s.connection ≡ some c
      → s.server_objects ≡ []
      → (register_obj list_vector env (some destination_name) 0 0 s).1.server_objects ≡ manager ∷ []
  unfolding register_obj register_new_obj get_object name_is_bad server_object_create
  registered_lem c s takes short connected empty =
      let fits : leb env.max_object_name_length (strlen destination_name) ≡ false = ground arith in
      rw (connected, fits, register_obj, ◌>>=◌, empty) (rw takes refl)

  pub manager-ValidRegistry :
      strlen destination_name < env.max_object_name_length → ValidRegistry env (manager ∷ [])
  manager-ValidRegistry short = record {
    objects_valid = (new-ValidObject env destination_name 0 0 short, tt);
    objects_short = (short, tt);
    objects_distinct = (tt, tt);
  }

  -- A request for a method of the table reaches its handler.
  abbrev pub Serving : List Object → Type 0
  Serving os = All (λ e. method_of destination_name e.method os ≡ some (entry e)) table

  register_manager-Serving :
      (c : ℕ) (s : Bus env.World)
      → TakesListeners
      → strlen destination_name < env.max_object_name_length
      → s.connection ≡ some c
      → s.server_objects ≡ []
      → Serving (register_manager list_vector env s).1.server_objects
  unfolding register_manager strcmp_eq
  register_manager-Serving c s takes short connected empty =
      let s1 = (register_obj list_vector env (some destination_name) 0 0 s).1 in
      let now = registered_lem c s takes short connected empty in
      let (good, reached) =
        method_of-register_method_table list_vector env destination_name table manager s1
          list_vector-IsVector (rw now (manager-ValidRegistry short)) (rw now refl)
          table-TableFits in
      (
        reached destination_name (codes "get_curr_s"),
        (
          reached destination_name (codes "req_new_s"),
          (reached destination_name (codes "end_of_s"), tt),
        ),
      )

-- The session manager's process gets to serve its methods: started without a connection, it connects
-- and a request for each of its three methods then reaches the handler of that method. The router may
-- refuse any number of connections, but accepts one after some time that passes in the attempts and
-- between them; the number of the loop's rounds is above that time. The router takes listeners, and the
-- manager's name is not too long.
pub start_manager-Serving :
    (v : Vector) (env : Env) (sleep : env.World → env.World) (wait : env.World → ℕ) (attempts : ℕ)
    (s : Bus env.World)
    → IsVector v
    → Accepting env sleep wait
    → TakesListeners env
    → strlen destination_name < env.max_object_name_length
    → s.connection ≡ none
    → wait s.world < attempts
    → let (connected, s') = start_manager v env sleep attempts s in
      (connected ≡ true) × Serving env s'.server_objects
unfolding start_manager
start_manager-Serving v env sleep wait attempts s iv accepting takes short closed enough =
    rw (vector-eq v iv) (
      let (fine, (c, open_), empty) =
        connect_lem env sleep wait attempts s accepting closed enough in
      rw (start_manager, ◌>>=◌, fine)
        (
          refl,
          register_manager-Serving env c (connect list_vector env sleep attempts s).1 takes short
              open_ empty,
        ))
