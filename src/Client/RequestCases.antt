-- ===== src/Client/RequestCases.antt =====
-- The ends of a subscription behind the checks of its arguments: found, entered, or undone.
use rbuscore.Base.{
  ℕ, ◌<◌, ◌≡◌, refl, Bool, true, false, Bool-cases, Option-cases, inl, inr, Option, none, some,
  List, arith, if◌then◌else◌, ◌==◌, leb, Name, strlen, strnlen,
}
use rbuscore.Rt.Vector.{list_vector}
use rbuscore.Message.{Message}
use rbuscore.Core.Types.{
  RbusError, success, error_invalid_param, error_invalid_state, ClientEvent, ClientSubscription,
}
use rbuscore.Core.State.{Bus, Action, return, gets, modify, lock, unlock, ◌>>=◌, ◌>>◌}
use rbuscore.Core.Env.{Env}
use rbuscore.Remote.{invoke_remote_method, send_request}
use rbuscore.Client.Request.{send_subscription_request, timeout_or_default, read_answer}
use rbuscore.Client.Table.{insert_event, remove_event, subscribed, remove_subscription_callback}
use rbuscore.Client.Valid.{ValidTable, event_of, subscribed_lem}
use rbuscore.Client.UndoLaws.{remove_event-insert_event}
use rbuscore.Client.Subscribe.{is_none, start_dispatch, request_or_undo, subscribe_checked}

-- A call of the remote end changes the world and nothing of the library's state.
pub invoke_cases {κ} :
    (env : Env) (P : RbusError × Option Message → Bus env.World → Type κ)
    (object_name method : Name) (out : Option Message) (timeout : ℕ) (s : Bus env.World)
    → ((r : RbusError × Option Message) (w : env.World) → P r (record s { world = w }))
    → let (r, s') = invoke_remote_method env object_name method out timeout s in P r s'
unfolding invoke_remote_method send_request
invoke_cases env P o m out t s k = elim (Option-cases s.connection) [
  | inl closed ↦ rw (closed, invoke_remote_method) (k (error_invalid_state, none) s.world)
  | inr (c, connected) ↦
      rw (connected, invoke_remote_method)
        (elim (Bool-cases (leb env.max_object_name_length (strnlen o env.max_object_name_length))) [
          | inl long ↦ rw long (k (error_invalid_param, none) s.world)
          | inr short ↦ rw short (k _ _)
        ])
]

module _ (env : Env) where
  pub send_cases {κ} :
      (P : RbusError × Option ℕ → Bus env.World → Type κ) (object_name event_name : Name)
      (activate : Bool) (payload : Option Message) (timeout : ℕ) (s : Bus env.World)
      → ((r : RbusError × Option ℕ) (w : env.World) → P r (record s { world = w }))
      → let (r, s') =
          send_subscription_request env object_name event_name activate payload timeout s in
        P r s'
  unfolding send_subscription_request
  send_cases P o e activate payload t s k =
      invoke_cases env (λ r s'. P (read_answer env.msgpack r.0 r.1) s') o _ _ (timeout_or_default t)
        s (λ r w. k (read_answer env.msgpack r.0 r.1) w)

  -- The answer reports success.
  abbrev pub Succeeds : RbusError × Option ℕ → Type 0
  Succeeds r = r.0 ≡ success

  -- What follows the request.
  abbrev after_request :
      Name → Name → RbusError × Option ℕ → Action env.World (RbusError × Option ℕ)
  after_request object_name event_name r = do
    no_master ← gets (λ s. is_none s.master_event_callback)
    if r.0 == success
        then return r
        else if no_master
        then (do
          lock
          remove_subscription_callback list_vector env object_name event_name
          unlock
          return r)
        else return r

  -- The request behind the entry of an event: if it fails the event is taken out again.
  undo_cases {κ} :
      (P : RbusError × Option ℕ → List ClientSubscription → Type κ) (object_name event_name : Name)
      (payload : Option Message) (timeout : ℕ) (s : Bus env.World)
      → s.master_event_callback ≡ none
      → ((r : RbusError × Option ℕ) → Succeeds r → P r s.event_subscriptions)
      → ((r : RbusError × Option ℕ)
          → ¬ Succeeds r
          → P r (remove_event list_vector env object_name event_name s.event_subscriptions))
      → let (r, s') = request_or_undo list_vector env object_name event_name payload timeout s in
        P r s'.event_subscriptions
  unfolding request_or_undo remove_subscription_callback
  undo_cases P o e payload t s unset kept undone =
      send_cases (λ r s'. let (r', s'') = after_request o e r s' in P r' s''.event_subscriptions) o
        e true payload t s
        (λ r w. elim (Bool-cases (r.0 == success)) [
          | inl fine ↦ rw fine (kept r (ground arith))
          | inr failed ↦ rw (failed, unset) (undone r (λ x. ground arith))
        ])

  dispatch_cases {κ} :
      (P : Bus env.World → Type κ) (s : Bus env.World)
      → ((w : env.World) → P (record s { world = w; run_event_client_dispatch = true }))
      → P (start_dispatch env s).1
  unfolding start_dispatch
  dispatch_cases P s k = elim (Bool-cases s.run_event_client_dispatch) [
    | inl running ↦ rw (running, start_dispatch) (k s.world)
    | inr idle ↦ rw (idle, start_dispatch) (k (env.add_default_listener s.connection s.world).1)
  ]

  -- What follows the installation of the listener.
  abbrev behind_dispatch :
      Name → Name → ℕ → Option Message → ℕ → ℕ → Action env.World (RbusError × Option ℕ)
  behind_dispatch object_name event_name callback payload user_data timeout = do
    no_master ← gets (λ s. is_none s.master_event_callback)
    subs ← gets (λ s. s.event_subscriptions)
    if no_master
        then elim (subscribed list_vector env object_name event_name subs) [
          | some e ↦ do unlock; return (success, none)
          | none ↦ do
            modify (λ s. record s {
              event_subscriptions =
                  insert_event list_vector env object_name
                    (record { name = event_name; callback = callback; user_data = user_data }) subs;
            })
            unlock
            request_or_undo list_vector env object_name event_name payload timeout
        ]
        else (do unlock; request_or_undo list_vector env object_name event_name payload timeout)

  -- The three ends of the part behind the checks, for an event of short names and no master handler.
  behind_cases {κ} :
      (P : RbusError × Option ℕ → List ClientSubscription → Type κ) (object_name event_name : Name)
      (callback : ℕ) (payload : Option Message) (user_data timeout : ℕ) (s : Bus env.World)
      → s.master_event_callback ≡ none
      → ValidTable env s.event_subscriptions
      → strlen object_name < env.max_object_name_length
      → strlen event_name < env.max_object_name_length
      → let e : ClientEvent = record {
        name = event_name;
        callback = callback;
        user_data = user_data;
      } in
        ((r : RbusError × Option ℕ) → ¬ Succeeds r → P r s.event_subscriptions)
        → ((old : ClientEvent)
            → event_of object_name event_name s.event_subscriptions ≡ some old
            → P (success, none) s.event_subscriptions)
        → ((r : RbusError × Option ℕ)
            → Succeeds r
            → event_of object_name event_name s.event_subscriptions ≡ none
            → P r (insert_event list_vector env object_name e s.event_subscriptions))
        → let (r, s') =
            behind_dispatch object_name event_name callback payload user_data timeout s in
          P r s'.event_subscriptions
  behind_cases P o e f payload ud t s unset h so se failed again entered =
      let new : ClientEvent = record { name = e; callback = f; user_data = ud } in
      let looked_up = subscribed_lem env s.event_subscriptions o e h in
      elim (Option-cases (event_of o e s.event_subscriptions)) [
        | inr (old, there) ↦ rw (unset, looked_up, there) (again old there)
        | inl fresh ↦
            rw (unset, looked_up, fresh)
              (undo_cases P o e payload t
                (record s {
                  locked = false;
                  event_subscriptions = insert_event list_vector env o new s.event_subscriptions;
                  master_event_callback = none;
                })
                refl (λ r fine. entered r fine fresh)
                λ r bad.
                  rw (remove_event-insert_event env o new s.event_subscriptions h so se fresh)
                    (failed r bad))
      ]

  -- The same from the lock on, for an event of short names and no master handler.
  pub checked_cases {κ} :
      (P : RbusError × Option ℕ → List ClientSubscription → Type κ) (object_name event_name : Name)
      (callback : ℕ) (payload : Option Message) (user_data timeout : ℕ) (s : Bus env.World)
      → s.master_event_callback ≡ none
      → ValidTable env s.event_subscriptions
      → strlen object_name < env.max_object_name_length
      → strlen event_name < env.max_object_name_length
      → let e : ClientEvent = record {
        name = event_name;
        callback = callback;
        user_data = user_data;
      } in
        ((r : RbusError × Option ℕ) → ¬ Succeeds r → P r s.event_subscriptions)
        → ((old : ClientEvent)
            → event_of object_name event_name s.event_subscriptions ≡ some old
            → P (success, none) s.event_subscriptions)
        → ((r : RbusError × Option ℕ)
            → Succeeds r
            → event_of object_name event_name s.event_subscriptions ≡ none
            → P r (insert_event list_vector env object_name e s.event_subscriptions))
        → let (r, s') =
            subscribe_checked list_vector env object_name event_name callback payload user_data
              timeout s in
          P r s'.event_subscriptions
  unfolding subscribe_checked
  checked_cases P o e f payload ud t s unset h so se failed again entered =
      dispatch_cases
        (λ s'. let (r, s'') = behind_dispatch o e f payload ud t s' in P r s''.event_subscriptions)
        (record s { locked = true })
        λ w.
          behind_cases P o e f payload ud t
            (record s { world = w; locked = true; run_event_client_dispatch = true }) unset h so se
            failed again entered
