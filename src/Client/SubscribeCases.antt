-- ===== src/Client/SubscribeCases.antt =====
-- The ends of rbus_subscribeToEventTimeout, by the answer and the table of subscriptions after.
use rbuscore.Base.{
  ℕ, ◌<◌, ◌≡◌, ◌≢◌, ap, ◌∙◌, false, Bool-cases, Option-cases, inl, inr, Option, none, some, List,
  arith, leb, Name, strlen, strnlen, strnlen_limit,
}
use mathlib.Core.Option.{some-injective}
use rbuscore.Rt.Vector.{list_vector}
use rbuscore.Message.{Message}
use rbuscore.Core.Types.{RbusError, success, ClientEvent, ClientSubscription}
use rbuscore.Core.State.{Bus}
use rbuscore.Core.Env.{Env}
use rbuscore.Client.Table.{insert_event}
use rbuscore.Client.Valid.{ValidTable, event_of}
use rbuscore.Client.Subscribe.{or_event, subscribe_named, subscribe_to_event_timeout}
use rbuscore.Client.RequestCases.{Succeeds, checked_cases}

module _ (env : Env) where
  -- The answer of a subscription: a result, or none for a read through NULL.
  abbrev pub Subscribed : Option (RbusError × Option ℕ) → Type 0
  Subscribed answer = (r : RbusError × Option ℕ) × (answer ≡ some r) × Succeeds env r

  refused : (ret : RbusError) → ret ≢ success → ¬ Subscribed (some (ret, none))
  refused ret bad (r, e, fine) = bad (ap (λ x. x.0) (some-injective (ret, none) r e) ∙ fine)

  unsuccessful : (r : RbusError × Option ℕ) → ¬ Succeeds env r → ¬ Subscribed (some r)
  unsuccessful r bad (r', e, fine) = bad (ap (λ x. x.0) (some-injective r r' e) ∙ fine)

  not_read : ¬ Subscribed none
  not_read (r, e, fine) = cc

  below :
      (n : Name)
      → leb env.max_object_name_length (strnlen n env.max_object_name_length) ≡ false
      → strlen n < env.max_object_name_length
  below n e = ground (arith, strnlen_limit n env.max_object_name_length)

  -- The checks of the two names.
  named_cases {κ} :
      (P : Option (RbusError × Option ℕ) → List ClientSubscription → Type κ) (object : Name)
      (event_name : Option Name) (f : ℕ) (payload : Option Message) (user_data timeout : ℕ)
      (s : Bus env.World)
      → s.master_event_callback ≡ none
      → ValidTable env s.event_subscriptions
      → ((answer : Option (RbusError × Option ℕ))
          → ¬ Subscribed answer
          → P answer s.event_subscriptions)
      → ((event : Name) (old : ClientEvent)
          → event_name ≡ some event
          → event_of object event s.event_subscriptions ≡ some old
          → P (some (success, none)) s.event_subscriptions)
      → ((event : Name) (r : RbusError × Option ℕ)
          → event_name ≡ some event
          → strlen object < env.max_object_name_length
          → strlen event < env.max_object_name_length
          → Succeeds env r
          → event_of object event s.event_subscriptions ≡ none
          → P (some r) (
              insert_event list_vector env object
                (record { name = event; callback = f; user_data = user_data })
                s.event_subscriptions))
      → let (answer, s') =
          subscribe_named list_vector env object event_name f payload user_data timeout s in
        P answer s'.event_subscriptions
  unfolding subscribe_named
  named_cases P o en f payload ud t s unset h failed again entered =
      elim (Bool-cases (leb env.max_object_name_length (strnlen o env.max_object_name_length))) [
        | inl long ↦ rw (long, subscribe_named) (failed _ (refused 2 (λ e. omega arith)))
        | inr short ↦
            rw (short, subscribe_named)
              (elim (Option-cases en) [
                | inl null ↦ rw null (failed none not_read)
                | inr (e, given) ↦
                    rw given
                      (elim (Bool-cases
                        (leb env.max_object_name_length (strnlen e env.max_object_name_length))) [
                          | inl long ↦ rw long (failed _ (refused 2 (λ e. omega arith)))
                          | inr fits ↦ rw fits (
                              checked_cases env (λ r subs. P (some r) subs) o e f payload ud t s
                                unset h (below o short) (below e fits)
                                (λ r bad. failed (some r) (unsuccessful r bad))
                                (λ old there. again e old given there)
                                (λ r fine fresh.
                                  entered e r given (below o short) (below e fits) fine fresh))
                        ])
              ])
      ]

  pub subscribe_cases {κ} :
      (P : Option (RbusError × Option ℕ) → List ClientSubscription → Type κ)
      (object_name event_name : Option Name) (callback : Option ℕ) (payload : Option Message)
      (user_data timeout : ℕ) (s : Bus env.World)
      → s.master_event_callback ≡ none
      → ValidTable env s.event_subscriptions
      → ((answer : Option (RbusError × Option ℕ))
          → ¬ Subscribed answer
          → P answer s.event_subscriptions)
      → ((object event : Name) (f : ℕ) (old : ClientEvent)
          → or_event object_name event_name ≡ some object
          → event_name ≡ some event
          → callback ≡ some f
          → event_of object event s.event_subscriptions ≡ some old
          → P (some (success, none)) s.event_subscriptions)
      → ((object event : Name) (f : ℕ) (r : RbusError × Option ℕ)
          → or_event object_name event_name ≡ some object
          → event_name ≡ some event
          → callback ≡ some f
          → strlen object < env.max_object_name_length
          → strlen event < env.max_object_name_length
          → Succeeds env r
          → event_of object event s.event_subscriptions ≡ none
          → P (some r) (
              insert_event list_vector env object
                (record { name = event; callback = f; user_data = user_data })
                s.event_subscriptions))
      → let (answer, s') =
          subscribe_to_event_timeout list_vector env object_name event_name callback payload
            user_data timeout s in
        P answer s'.event_subscriptions
  unfolding subscribe_to_event_timeout
  subscribe_cases P on en cb payload ud t s unset h failed again entered =
      elim (Option-cases s.connection) [
        | inl closed ↦
            rw (closed, subscribe_to_event_timeout) (failed _ (refused 4 (λ e. omega arith)))
        | inr (c, connected) ↦
            rw (connected, subscribe_to_event_timeout)
              (elim (Option-cases (or_event on en)) [
                | inl nobody ↦ rw nobody (failed _ (refused 2 (λ e. omega arith)))
                | inr (o, called) ↦ rw called (elim (Option-cases cb) [
                  | inl missing ↦ rw missing (failed _ (refused 2 (λ e. omega arith)))
                  | inr (f, given) ↦ rw given (
                      named_cases P o en f payload ud t s unset h failed
                        (λ e old ne. again o e f old called ne given)
                        (λ e r ne. entered o e f r called ne given))
                ])
              ])
      ]
