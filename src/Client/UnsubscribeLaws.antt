-- ===== src/Client/UnsubscribeLaws.antt =====
-- What rbus_unsubscribeFromEvent does to the table of subscriptions.
use rbuscore.Base.{
  ◌≡◌, refl, false, ◌&&◌, Bool-cases, Option-cases, ◌⊎◌, inl, inr, Option, none, some, List,
  if◌then◌else◌, Name, strcmp_eq, leb, strnlen,
}
use rbuscore.Rt.Vector.{Vector, IsVector, list_vector, vector-eq}
use rbuscore.Message.{Message}
use rbuscore.Core.Types.{RbusError, error_invalid_param, ClientSubscription}
use rbuscore.Core.State.{Bus}
use rbuscore.Core.Env.{Env}
use rbuscore.Server.Events.{or_default}
use rbuscore.Client.Table.{remove_event, remove_subscription_callback}
use rbuscore.Client.Valid.{ValidTable, event_of}
use rbuscore.Client.TableCases.{remove_event-ValidTable}
use rbuscore.Client.TableLaws.{event_of-remove_event}
use rbuscore.Client.RequestCases.{send_cases}
use rbuscore.Client.Subscribe.{or_event, unsubscribe_checked, unsubscribe_from_event}

module _ (env : Env) where
  -- The arguments are refused, or the event is taken out whatever the provider answers.
  unsubscribe_cases {κ} :
      (P : RbusError → List ClientSubscription → Type κ) (object_name event_name : Option Name)
      (payload : Option Message) (s : Bus env.World)
      → s.master_event_callback ≡ none
      → P error_invalid_param s.event_subscriptions
      → ((object : Name) (ret : RbusError)
          → or_event object_name event_name ≡ some object
          → P ret
              (remove_event list_vector env object (or_default event_name) s.event_subscriptions))
      → let (ret, s') = unsubscribe_from_event list_vector env object_name event_name payload s in
        P ret s'.event_subscriptions
  unfolding unsubscribe_from_event unsubscribe_checked remove_subscription_callback
  unsubscribe_cases P on en payload s unset refused removed = elim (Option-cases (or_event on en)) [
    | inl nobody ↦ rw (unsubscribe_from_event, nobody) refused
    | inr (o, called) ↦
        rw (unsubscribe_from_event, called)
          (elim (Bool-cases
            (leb env.max_object_name_length (strnlen o env.max_object_name_length))) [
              | inl long ↦ rw long refused
              | inr short ↦
                  rw (short, unset)
                    (send_cases env (λ r s'. P r.0 s'.event_subscriptions) o (or_default en) false
                      payload 0 _ (λ r w. removed o r.0 called))
            ])
  ]

-- What rbus_unsubscribeFromEvent does to a well-formed table of subscriptions, which it keeps
-- well-formed: where its arguments are refused the table is as it was; otherwise the event no longer
-- shows, whatever the provider answers, and all other events are as they were. No master handler is
-- set, and the vectors are as documented.
pub event_of-unsubscribe_from_event :
    (v : Vector) (env : Env) (object_name event_name : Option Name) (payload : Option Message)
    (s : Bus env.World) (object event : Name)
    → IsVector v
    → s.master_event_callback ≡ none
    → ValidTable env s.event_subscriptions
    → let (ret, s') = unsubscribe_from_event v env object_name event_name payload s in
      ValidTable env s'.event_subscriptions
      × (((ret ≡ error_invalid_param) × (s'.event_subscriptions ≡ s.event_subscriptions))
          ⊎ ((o : Name) × (or_event object_name event_name ≡ some o)
              × (event_of object event s'.event_subscriptions ≡ (
                  if strcmp_eq o object && strcmp_eq (or_default event_name) event
                  then none
                  else event_of object event s.event_subscriptions))))
event_of-unsubscribe_from_event v env on en payload s object event iv unset h =
    rw (vector-eq v iv) (
      unsubscribe_cases env
        (λ ret subs.
          ValidTable env subs
          × (((ret ≡ error_invalid_param) × (subs ≡ s.event_subscriptions))
              ⊎ ((o : Name) × (or_event on en ≡ some o)
                  × (event_of object event subs ≡ (
                      if strcmp_eq o object && strcmp_eq (or_default en) event
                      then none
                      else event_of object event s.event_subscriptions)))))
        on en payload s unset (h, inl (refl, refl))
        λ o ret called. (
          remove_event-ValidTable env o (or_default en) s.event_subscriptions h,
          inr (
            o,
            called,
            event_of-remove_event env o (or_default en) s.event_subscriptions object event h,
          ),
        ))
