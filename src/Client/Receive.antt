-- ===== src/Client/Receive.antt =====
-- Messages to this end that are no requests: master_event_callback, and the advisories of the
-- broker that a client has gone.
use rbuscore.Base.{
  ℕ, Bool, true, false, Option, none, some, List, [], ◌∷◌, leb, ◌==◌, if◌then◌else◌, length, Name,
  strlen, strncmp_eq,
}
use rbuscore.Rt.Msgpack.{Msgpack}
use rbuscore.Rt.Vector.{Vector}
use rbuscore.Message.{
  Message, from_bytes, get_string, get_int32, begin_meta_section_read, end_meta_section_read,
}
use rbuscore.Core.Types.{
  RbusError, is_ok, success, error_general, event_not_handled, ClientEvent, ClientSubscription,
  Header, Listener,
}
use rbuscore.Core.State.{Action, return, gets, modify, lock, unlock, ◌>>=◌, ◌>>◌}
use rbuscore.Core.Env.{Env, outside}
use rbuscore.Remote.{as_name}
use rbuscore.Client.Table.{find_client_event}

-- The last of the three reads decides whether the section is taken for an event's.
abbrev pub flagged : Option Name → Option ℕ → Option (Option Name × ℕ)
flagged event_name none = none
flagged event_name (some flag) = some (event_name, flag)

-- The meta section of an event: the message behind the reading, and the event's name and the rbus
-- flag, unless the last read failed. A name that is missing is NULL.
unfoldable pub get_event_meta : Msgpack → Message → Message × Option (Option Name × ℕ)
get_event_meta mp msg =
    let (m, event_name) = get_string mp (begin_meta_section_read mp msg) in
    let (m', object_name) = get_string mp m in
    let (m'', flag) = get_int32 mp m' in
    (end_meta_section_read mp m'', flagged (as_name event_name) flag)

-- g_master_event_callback's answer: whether it took the event.
abbrev pub taken : ℕ → Bool
taken err = if err == event_not_handled then false else true

module _ (v : Vector) (env : Env) where
  -- `sub->object` is the sender, or the event; `none` if a NULL name is compared.
  unfoldable pub takes_from : Name → Option Name → ClientSubscription → Option Bool
  takes_from sender event_name sub =
      if strncmp_eq env.max_object_name_length sub.object sender
      then some true
      else elim event_name [
        | none ↦ none
        | some event ↦ some (strncmp_eq env.max_object_name_length sub.object event)
      ]

  -- rtVector_Find of the event; a NULL name is compared if there is an event to compare it with.
  unfoldable pub find_named : Option Name → ClientSubscription → Option (Option ClientEvent)
  find_named none sub = elim sub.events [ [] ↦ some none | e ∷ es ↦ none ]
  find_named (some event) sub = some (find_client_event v env event sub)

  -- The loop over the table: the event of the first subscription that takes from the sender or is
  -- named like the event, and that has the event; `none` if a NULL name is compared.
  unfoldable pub find_receiver :
      Name → Option Name → List ClientSubscription → Option (Option ClientEvent)
  find_receiver sender event_name [] = some none
  find_receiver sender event_name (sub ∷ subs) = elim (takes_from sender event_name sub) [
    | none ↦ none
    | some takes ↦ elim takes [
      | false ↦ find_receiver sender event_name subs
      | true ↦ elim (find_named event_name sub) [
        | none ↦ none
        | some found ↦ elim found [
          | some e ↦ some (some e)
          | none ↦ find_receiver sender event_name subs
        ]
      ]
    ]
  ]

  -- `g_master_event_callback`, if it is set and the event is one of rbus 2.0: whether it took it.
  unfoldable pub offer_to_master : Name → Option Name → ℕ → Message → Action env.World Bool
  offer_to_master sender event_name flag msg s =
      if flag == 0 then (false, s) else elim s.master_event_callback [
        | none ↦ (false, s)
        | some f ↦
            let (err, s') = env.call_event f sender event_name msg s.master_event_user_data s in
            (taken err, s')
      ]

  -- The part of master_event_callback behind the reading of the message; the result `none` stands
  -- for a read through NULL.
  unfoldable pub receive_event :
      Name → Option Name → ℕ → Message → Action env.World (Option (Unit {0}))
  receive_event sender event_name flag msg = do
    done ← offer_to_master sender event_name flag msg
    if done then return (some tt) else (do
      lock
      subs ← gets (λ s. s.event_subscriptions)
      elim (find_receiver sender event_name subs) [
        | none ↦ return none
        | some found ↦ do
          unlock
          elim found [
            | none ↦ return (some tt)
            | some e ↦ do
              env.call_event e.callback sender event_name msg e.user_data
              return (some tt)
          ]
      ])

  -- master_event_callback; the result `none` stands for a read through NULL, which a message with a
  -- flag and no event name brings about.
  unfoldable pub master_event_callback : Header → List ℕ → Action env.World (Option (Unit {0}))
  master_event_callback hdr data_bytes =
      if leb env.max_object_name_length (strlen hdr.reply_topic) then return (some tt) else (do
        let (msg, section) =
            get_event_meta env.msgpack (from_bytes env.msgpack data_bytes (length data_bytes))
        elim section [
          | none ↦ return (some tt)
          | some (event_name, flag) ↦ receive_event hdr.reply_topic event_name flag msg
        ])

module _ (env : Env) where
  -- rtrouted_advisory_callback
  unfoldable pub rtrouted_advisory_callback : List ℕ → Action env.World (Unit {0})
  rtrouted_advisory_callback data_bytes s = elim s.client_disconnect_callback [
    | none ↦ (tt, s)
    | some f ↦ elim (env.advisory_event data_bytes) [
      | none ↦ (tt, s)
      | some event ↦
          if event == env.advise_client_disconnect
          then elim (env.advisory_inbox data_bytes) [
            | none ↦ (tt, s)
            | some listener ↦ env.call_disconnect f listener s
          ]
          else (tt, s)
    ]
  ]

  -- rbus_registerClientDisconnectHandler
  unfoldable pub register_client_disconnect_handler : ℕ → Action env.World RbusError
  register_client_disconnect_handler callback = do
    lock
    installed ← gets (λ s. s.advisory_listener_installed)
    if installed then (do unlock; return success) else (do
      connection ← gets (λ s. s.connection)
      err ← outside (env.add_listener connection env.advisory_topic Listener.advisory)
      if is_ok err
          then (do
            modify (λ s. record s {
              advisory_listener_installed = true;
              client_disconnect_callback = some callback;
            })
            unlock
            return success)
          else (do unlock; return error_general))

  -- rbus_unregisterClientDisconnectHandler: the callback itself stays set.
  unfoldable pub unregister_client_disconnect_handler : Action env.World RbusError
  unregister_client_disconnect_handler = do
    lock
    installed ← gets (λ s. s.advisory_listener_installed)
    connection ← gets (λ s. s.connection)
    if installed
        then (do
          outside (env.remove_listener connection env.advisory_topic)
          modify (λ s. record s { advisory_listener_installed = false })
          unlock
          return success)
        else (do unlock; return success)
