-- ===== src/Server/QueueSteps.antt =====
-- The queue of requests stays as it is while a request is handled, if the callbacks do not touch it.
use rbuscore.Base.{
  ℕ, ◌≡◌, refl, ◌∙◌, ◌||◌, ◌==◌, Bool, true, false, Bool-cases, Option-cases, inl, inr, Option,
  none, some, leb, Name, strlen, strncmp_eq, c_string,
}
use rbuscore.Rt.Vector.{list_vector, find_first}
use rbuscore.Message.{Message, get_string}
use rbuscore.Core.Types.{
  success_async, max_method_name_length, method_subscribe, Callback, UserData, Method, Event,
  Object, Header, subscribe_not_handled,
}
use rbuscore.Core.State.{Bus, ◌>>=◌}
use rbuscore.Core.Env.{Env}
use rbuscore.Remote.{get_message_method, send_response}
use rbuscore.Server.Objects.{get_object, modify_object, object_matches}
use rbuscore.Server.Events.{
  find_event, has_listener, modify_event, notify, server_event_add_listener,
  server_event_remove_listener, built_in_handler, handle_subscription,
  server_object_subscription_handler, subscription_handler, get_payload,
}
use rbuscore.Server.Dispatch.{invoke, handler_of, call_default, dispatch_method_call}

-- The application's callbacks leave the vector of queued requests alone.
pub record Undisturbed (env : Env) : Type 1 where
  pub call_method_keeps :
      (f : ℕ) (topic : Name) (method : Option Name) (m : Message) (d : UserData) (hdr : Header)
      (s : Bus env.World)
      → (env.call_method f topic method m d hdr s).1.queued_requests ≡ s.queued_requests
  pub call_subscribe_keeps :
      (f : ℕ) (object event listener : Name) (added : Bool) (payload : Option Message) (d : ℕ)
      (s : Bus env.World)
      → (env.call_subscribe f object event listener added payload d s).1.queued_requests
        ≡ s.queued_requests

module _ (env : Env) (u : Undisturbed env) where
  notify_keeps :
      (e : Event) (listener : Name) (added : Bool) (s : Bus env.World)
      → (notify list_vector env e listener added s).1.queued_requests ≡ s.queued_requests
  unfolding notify
  notify_keeps e l added s = elim (Option-cases e.sub_callback) [
    | inl unset ↦ rw (unset, notify) refl
    | inr (f, set) ↦
        rw (set, notify) (u.call_subscribe_keeps f e.object e.name l added none e.sub_data s)
  ]

  add_keeps :
      (e : Event) (listener : Name) (s : Bus env.World)
      → (server_event_add_listener list_vector env e listener s).1.queued_requests
        ≡ s.queued_requests
  unfolding server_event_add_listener modify_event modify_object
  add_keeps e l s = elim (Bool-cases (has_listener list_vector l e)) [
    | inl there ↦ rw (there, server_event_add_listener) refl
    | inr fresh ↦ rw (fresh, server_event_add_listener) (notify_keeps e l true _)
  ]

  remove_keeps :
      (e : Event) (listener : Name) (s : Bus env.World)
      → (server_event_remove_listener list_vector env e listener s).1.queued_requests
        ≡ s.queued_requests
  unfolding server_event_remove_listener modify_event modify_object
  remove_keeps e l s = elim (Bool-cases (has_listener list_vector l e)) [
    | inl there ↦ rw (there, server_event_remove_listener) (notify_keeps e l false _)
    | inr fresh ↦ rw (fresh, server_event_remove_listener) refl
  ]

  built_in_keeps :
      (obj event subscriber : Name) (added : Bool) (s : Bus env.World)
      → (built_in_handler list_vector env obj event subscriber added s).1.queued_requests
        ≡ s.queued_requests
  unfolding built_in_handler get_object
  built_in_keeps obj event subscriber added s =
      elim (Option-cases (find_first (object_matches env obj) s.server_objects)) [
        | inl missing ↦ rw (built_in_handler, ◌>>=◌, get_object, missing) refl
        | inr (o, found) ↦
            rw (built_in_handler, ◌>>=◌, get_object, found)
              (elim (Option-cases (find_event list_vector env event o)) [
                | inl absent ↦ rw absent refl
                | inr (e, there) ↦ rw there (elim (Bool-cases added) [
                  | inl adding ↦ rw adding (add_keeps e subscriber s)
                  | inr removing ↦ rw removing (remove_keeps e subscriber s)
                ])
              ])
      ]

  handle_keeps :
      (obj event subscriber : Name) (added : Bool) (payload : Option Message) (o : Object)
      (s : Bus env.World)
      → (handle_subscription list_vector env obj event subscriber added payload o
          s).1.queued_requests
        ≡ s.queued_requests
  unfolding handle_subscription
  handle_keeps obj event subscriber added payload o s =
      elim (Option-cases o.subscribe_handler_override) [
        | inl unset ↦ rw (handle_subscription, unset) (built_in_keeps obj event subscriber added s)
        | inr (f, set) ↦
            let kept =
              u.call_subscribe_keeps f o.name event subscriber added payload
                o.subscribe_handler_data s in
            let (ret, s') =
              env.call_subscribe f o.name event subscriber added payload o.subscribe_handler_data
                s in
            rw (handle_subscription, set)
              (elim (Bool-cases (ret == subscribe_not_handled)) [
                | inl passed ↦ rw passed (built_in_keeps obj event subscriber added s' ∙ kept)
                | inr taken ↦ rw taken kept
              ])
      ]

  server_object_keeps :
      (obj event subscriber : Name) (added : Bool) (payload : Option Message) (s : Bus env.World)
      → (server_object_subscription_handler list_vector env obj event subscriber added payload
          s).1.queued_requests
        ≡ s.queued_requests
  unfolding server_object_subscription_handler get_object
  server_object_keeps obj event subscriber added payload s =
      elim (Bool-cases (
        leb env.max_object_name_length (strlen subscriber)
        || leb env.max_object_name_length (strlen event))) [
          | inl long ↦ rw (server_object_subscription_handler, long) refl
          | inr short ↦
              rw (server_object_subscription_handler, short)
                (elim (Option-cases (find_first (object_matches env obj) s.server_objects)) [
                  | inl missing ↦ rw (◌>>=◌, get_object, missing) refl
                  | inr (o, found) ↦
                      rw (◌>>=◌, get_object, found)
                        (handle_keeps obj event subscriber added payload o s)
                ])
        ]

  subscription_keeps :
      (method_name : Name) (request : Message) (obj : Name) (s : Bus env.World)
      → (subscription_handler list_vector env method_name request obj s).1.queued_requests
        ≡ s.queued_requests
  unfolding subscription_handler
  subscription_keeps method_name request obj s =
      let (m, event_name) = get_string env.msgpack request in
      let (m', sender) = get_string env.msgpack m in
      elim (Option-cases event_name) [
        | inl null ↦ rw (subscription_handler, null) refl
        | inr (e, named) ↦
            rw (subscription_handler, named)
              (elim (Option-cases sender) [
                | inl null ↦ rw null refl
                | inr (n, given) ↦ rw given (
                    server_object_keeps obj (c_string e) (c_string n)
                      (strncmp_eq max_method_name_length method_name method_subscribe)
                      (get_payload list_vector env m') s)
              ])
      ]

  send_response_keeps :
      (hdr : Header) (response : Option Message) (s : Bus env.World)
      → (send_response env hdr response s).1.queued_requests ≡ s.queued_requests
  unfolding send_response
  send_response_keeps hdr response s = elim (Bool-cases hdr.is_request) [
    | inl asked ↦ rw (send_response, asked) refl
    | inr told ↦ rw (send_response, told) refl
  ]

  callback_keeps :
      (name : Name) (callback : Callback) (user_data : UserData) (hdr : Header) (method_name : Name)
      (msg : Message) (s : Bus env.World)
      → (invoke list_vector env
          (record { name = name; callback = callback; user_data = user_data })
          hdr
          method_name
          msg
          s).1.queued_requests
        ≡ s.queued_requests
  unfolding invoke
  callback_keeps name (Callback.app f) d hdr n msg s =
      u.call_method_keeps f hdr.topic (some n) msg d hdr s
  callback_keeps name Callback.subscription_handler (UserData.app_data d) hdr n msg s = refl
  callback_keeps name Callback.subscription_handler (UserData.object o) hdr n msg s =
      subscription_keeps n msg o s

  invoke_keeps :
      (m : Method) (hdr : Header) (method_name : Name) (msg : Message) (s : Bus env.World)
      → (invoke list_vector env m hdr method_name msg s).1.queued_requests ≡ s.queued_requests
  invoke_keeps m hdr n msg s = callback_keeps m.name m.callback m.user_data hdr n msg s

  call_default_keeps :
      (msg : Message) (hdr : Header) (method_name : Option Name) (o : Object) (s : Bus env.World)
      → (call_default list_vector env msg hdr method_name o s).1.queued_requests ≡ s.queued_requests
  unfolding call_default
  call_default_keeps msg hdr n o s =
      let kept =
        u.call_method_keeps o.callback hdr.topic n msg (UserData.app_data o.user_data) hdr s in
      let ((ret, response), s') =
        env.call_method o.callback hdr.topic n msg (UserData.app_data o.user_data) hdr s in
      elim (Bool-cases (ret == success_async)) [
        | inl later ↦ rw (call_default, later) kept
        | inr now ↦ rw (call_default, now) (send_response_keeps hdr response s' ∙ kept)
      ]

  pub dispatch_keeps :
      (msg : Message) (hdr : Header) (obj : Name) (s : Bus env.World)
      → (dispatch_method_call list_vector env msg hdr obj s).1.queued_requests ≡ s.queued_requests
  unfolding dispatch_method_call get_object
  dispatch_keeps msg hdr obj s =
      let (msg', method_name) = get_message_method env.msgpack msg in
      elim (Option-cases (find_first (object_matches env obj) s.server_objects)) [
        | inl missing ↦ rw (dispatch_method_call, get_object, missing) refl
        | inr (o, found) ↦
            rw (dispatch_method_call, get_object, found)
              (elim (Option-cases (handler_of list_vector env method_name o)) [
                | inl default ↦ rw default (call_default_keeps msg' hdr method_name o _)
                | inr ((n, m), chosen) ↦
                    rw chosen (send_response_keeps hdr _ _ ∙ invoke_keeps m hdr n msg' _)
              ])
      ]
