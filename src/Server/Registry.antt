-- ===== src/Server/Registry.antt =====
-- What the provider's side promises, without the vectors behind it: which objects are registered,
-- which method a name of an object stands for, and which event with which listeners.
use rbuscore.Base.{
  ℕ, ◌+◌, ◌-◌, ◌<◌, ◌↔◌, length, ◌≡◌, ◌≢◌, ◌⊎◌, Bool, true, false, ◌&&◌, Option, none, some, List,
  [], ◌∷◌, if◌then◌else◌, Name, strcmp_eq,
}
use rbuscore.Rt.Vector.{Vector}
use rbuscore.Keyed.{mapped}
use rbuscore.Message.{Message}
use rbuscore.Core.Types.{
  RbusError, success, max_supported_methods, method_subscribe, method_unsubscribe, Callback,
  UserData, Method, Event, Object,
}
use rbuscore.Core.State.{Action}
use rbuscore.Core.Env.{Env}
use rbuscore.Server.Objects.{register_obj, unregister_obj}
use rbuscore.Server.Methods.{register_method, unregister_method}
use rbuscore.Server.Events.{or_default, server_object_subscription_handler}
use rbuscore.Server.Registration.{register_event, unregister_event, register_subscribe_handler}
use rbuscore.Server.Valid.{object_of, method_of, event_of}
use rbuscore.Server.Handlers.{IsHandlerName}
use rbuscore.Server.EventCases.{with_listener}
use rbuscore.Server.RegistrationSteps.{new_event}
use rbuscore.Server.RegistrationLaws.{or_new}

pub record Registry : Type 0 where
  pub has : Name → Bool
  pub method : Name → Name → Option Method
  pub event : Name → Name → Option Event
  -- whether an object is marked as taking subscription requests, and how many methods it has
  pub standing : Name → Option (Bool × ℕ)

-- A call of one of the functions that change the registered objects; the last one stands for a
-- request of a subscriber, to be put in or taken out.
pub data Command : Type 0 where
  add_object : Name → ℕ → ℕ → Command
  remove_object : Name → Command
  add_method : Name → Name → Callback → UserData → Command
  remove_method : Name → Name → Command
  add_event : Name → Option Name → Option ℕ → ℕ → Command
  remove_event : Name → Option Name → Command
  set_handler : Name → ℕ → ℕ → Command
  change_listener : Name → Name → Name → Bool → Option Message → Command

-- Two registries have the same objects, methods, events and standing of objects.
abbrev pub Agrees : Registry → Registry → Type 0
Agrees p q =
    (x y : Name)
    → (p.has x ≡ q.has x)
      × (p.method x y ≡ q.method x y)
      × (p.event x y ≡ q.event x y)
      × (p.standing x ≡ q.standing x)

-- A call that succeeds where `can` holds and leads to `next`, or fails and does nothing.
abbrev pub Either : RbusError → Type 0 → Registry → Registry → Registry → Type 0
Either ret can next p q = ((ret ≡ success) × can × Agrees q next) ⊎ ((ret ≢ success) × Agrees q p)

-- The methods of an object stay, but that the object may get the library's handlers.
abbrev pub KeepsMethods : Name → Registry → Registry → Type 0
KeepsMethods object p q =
    (x y : Name)
    → (q.method x y ≡ p.method x y)
      ⊎ ((object ≡ x)
          × IsHandlerName y
          × (p.method x y ≡ none)
          × (q.method x y
              ≡ some (record {
                name = y;
                callback = Callback.subscription_handler;
                user_data = UserData.object object;
              })))

-- What an object with so much standing, and with these two methods, can do with a subscription request:
-- it takes requests already, or it has room for both handlers.
abbrev pub Takes : Option (Bool × ℕ) → Option Method → Option Method → Type 0
Takes none sub unsub = ⊥
Takes (some (marked, count)) sub unsub =
    ((marked ≡ true) ⊎ (sub ≢ none)) ⊎ ((count + 1 < max_supported_methods) × (unsub ≡ none))

abbrev pub more : Bool × ℕ → Bool × ℕ
more (marked, count) = (marked, count + 1)

abbrev pub less : Bool × ℕ → Bool × ℕ
less (marked, count) = (marked, count - 1)

abbrev pub both_more : Bool × ℕ → Bool × ℕ
both_more (marked, count) = (true, count + 2)

-- What becomes of the methods of an object that is to take subscription requests: they stay as they
-- are; or it gets the first handler, and the call fails; or both handlers, and the call succeeds.
abbrev pub Gains : Name → RbusError → Registry → Registry → Option (Bool × ℕ) → Type 0
Gains object ret p q after =
    (((x y : Name) → q.method x y ≡ p.method x y) × (after ≡ p.standing object))
    ⊎ (KeepsMethods object p q
        × (q.method object method_subscribe ≢ none)
        × (((ret ≢ success) × (after ≡ mapped more (p.standing object)))
            ⊎ ((ret ≡ success)
                × (q.method object method_unsubscribe ≢ none)
                × (after ≡ mapped both_more (p.standing object)))))

-- A call on a registered object that changes events as told, whatever it returns, and succeeds exactly
-- where the object can take subscription requests; or it fails and does nothing.
abbrev pub Installs : Name → (Name → Name → Option Event) → RbusError → Registry → Registry → Type 0
Installs object events ret p q =
    ((p.has object ≡ true)
      × ((ret ≡ success)
          ↔ Takes (p.standing object) (p.method object method_subscribe)
              (p.method object method_unsubscribe))
      × ((after : Option (Bool × ℕ)) × Gains object ret p q after
          × ((x y : Name)
              → (q.has x ≡ p.has x)
                × (q.event x y ≡ events x y)
                × (q.standing x ≡ (if strcmp_eq object x then after else p.standing x)))))
    ⊎ ((ret ≢ success) × Agrees q p)

-- A call with a result leads from one registry to the other. An object that is removed takes its
-- methods and events along.
abbrev pub Permits : Command → RbusError → Registry → Registry → Type 0
Permits (Command.add_object name callback user_data) ret p q =
    Either ret (p.has name ≡ false)
      (record p {
        has = λ x. if strcmp_eq name x then true else p.has x;
        standing = λ x. if strcmp_eq name x then some (false, 0) else p.standing x;
      })
      p q
Permits (Command.remove_object name) ret p q =
    Either ret (p.has name ≡ true)
      (record {
        has = λ x. if strcmp_eq name x then false else p.has x;
        method = λ x y. if strcmp_eq name x then none else p.method x y;
        event = λ x y. if strcmp_eq name x then none else p.event x y;
        standing = λ x. if strcmp_eq name x then none else p.standing x;
      })
      p q
Permits (Command.add_method object name callback user_data) ret p q =
    Either ret ((p.has object ≡ true) × (p.method object name ≡ none))
      (record p {
        method = λ x y.
            if strcmp_eq object x && strcmp_eq name y
            then some (record { name = name; callback = callback; user_data = user_data })
            else p.method x y;
        standing = λ x. if strcmp_eq object x then mapped more (p.standing x) else p.standing x;
      })
      p q
Permits (Command.remove_method object name) ret p q =
    Either ret (p.method object name ≢ none)
      (record p {
        method = λ x y. if strcmp_eq object x && strcmp_eq name y then none else p.method x y;
        standing = λ x. if strcmp_eq object x then mapped less (p.standing x) else p.standing x;
      })
      p q
Permits (Command.add_event object name callback user_data) ret p q =
    Installs object
      (λ x y.
        if strcmp_eq object x && strcmp_eq (or_default name) y
        then or_new (new_event (or_default name) object callback user_data) (p.event x y)
        else p.event x y)
      ret p q
Permits (Command.remove_event object name) ret p q =
    Either ret (p.event object (or_default name) ≢ none)
      (record p {
        event = λ x y.
            if strcmp_eq object x && strcmp_eq (or_default name) y then none else p.event x y;
      })
      p q
Permits (Command.set_handler object callback user_data) ret p q = Installs object p.event ret p q
Permits (Command.change_listener object event listener added payload) ret p q =
    ((ret ≡ success)
      × (p.event object event ≢ none)
      × Agrees q (record p {
        event = λ x y.
            if strcmp_eq object x && strcmp_eq event y
            then mapped (with_listener added listener) (p.event x y)
            else p.event x y;
      }))
    ⊎ Agrees q p

-- The runs that are promised.
pub data Run : Registry → List (Command × RbusError) → Registry → Type 0 where
  done : {p : Registry} → Run p [] p
  next :
      {p q r : Registry} {rest : List (Command × RbusError)} (c : Command) (ret : RbusError)
      → Permits c ret p q
      → Run q rest r
      → Run p ((c, ret) ∷ rest) r

abbrev pub is_there : Option Object → Bool
is_there none = false
is_there (some o) = true

abbrev pub standing_at : Option Object → Option (Bool × ℕ)
standing_at none = none
standing_at (some o) = some (o.process_event_subscriptions, length o.methods)

-- The registry that the objects stand for.
abbrev pub view : List Object → Registry
view os = record {
  has = λ x. is_there (object_of x os);
  method = λ x y. method_of x y os;
  event = λ x y. event_of x y os;
  standing = λ x. standing_at (object_of x os);
}

module _ (v : Vector) (env : Env) where
  -- The call itself.
  unfoldable pub execute : Command → Action env.World RbusError
  execute (Command.add_object name callback user_data) =
      register_obj v env (some name) callback user_data
  execute (Command.remove_object name) = unregister_obj v env (some name)
  execute (Command.add_method object name callback user_data) =
      register_method v env object name callback user_data
  execute (Command.remove_method object name) = unregister_method v env object name
  execute (Command.add_event object name callback user_data) =
      register_event v env (some object) name callback user_data
  execute (Command.remove_event object name) = unregister_event v env object name
  execute (Command.set_handler object callback user_data) =
      register_subscribe_handler v env (some object) (some callback) user_data
  execute (Command.change_listener object event listener added payload) =
      server_object_subscription_handler v env object event listener added payload

  -- The calls one after the other: each with its result, and the state at the end.
  unfoldable pub execute_all : List Command → Action env.World (List (Command × RbusError))
  execute_all [] s = ([], s)
  execute_all (c ∷ cs) s =
      let (ret, s') = execute c s in let (rest, s'') = execute_all cs s' in ((c, ret) ∷ rest, s'')
