-- ===== src/Server/Handlers.antt =====
-- The handlers that install_subscription_handlers puts on an object, and the room that they take.
use rbuscore.Base.{
  ℕ, ◌+◌, ◌<◌, ◌≡◌, refl, ◌≢◌, ◌⊎◌, inl, inr, ap, sym, ◌∙◌, Bool, Bool-cases, true, false, Option,
  none, some, [], ◌∷◌, arith, length, length-append, Name, strlen, strcmp_eq, strcmp_eq→eq,
  strcmp_eq_refl,
}
use rbuscore.Keyed.{find_first-append_new}
use rbuscore.Core.Types.{
  max_method_name_length, max_supported_methods, method_subscribe, method_unsubscribe, Callback,
  UserData, Method, Object,
}
use rbuscore.Core.Env.{Env}
use rbuscore.Server.Valid.{ValidObject, method_key, method_in}
use rbuscore.Server.MethodLaws.{new_method, appended, appended-ValidObject}

-- `object` has room for a method of the name, which is short enough.
abbrev pub HasRoom : Name → Object → Type 0
HasRoom method o =
    (strlen method < max_method_name_length)
    × (length o.methods < max_supported_methods)
    × (method_in method o ≡ none)

abbrev pub with_handler_method : Env → Name → Name → Method
with_handler_method env object method =
    new_method env object method Callback.subscription_handler (UserData.object object)

-- The method of the name is subscription_handler, with the object as its data.
abbrev pub with_handler : Env → Name → Name → Object → Object
with_handler env object method =
    appended env object method Callback.subscription_handler (UserData.object object)

-- The object with both handlers, and marked so.
abbrev pub with_handlers : Env → Name → Object → Object
with_handlers env object o =
    record (with_handler env object method_unsubscribe
      (with_handler env object method_subscribe o)) { process_event_subscriptions = true }

-- The object takes subscription requests, as far as rbus_registerEvent can tell.
abbrev pub IsReady : Object → Type 0
IsReady o = (o.process_event_subscriptions ≡ true) ⊎ (method_in method_subscribe o ≢ none)

-- The object takes them, or has room for both handlers.
abbrev pub CanDispatch : Object → Type 0
CanDispatch o =
    IsReady o
    ⊎ ((length o.methods + 1 < max_supported_methods) × (method_in method_unsubscribe o ≡ none))

pub no_first_room :
    (o : Object)
    → o.process_event_subscriptions ≡ false
    → method_in method_subscribe o ≡ none
    → ¬ HasRoom method_subscribe o
    → ¬ CanDispatch o
no_first_room o unset absent full (inl (inl set)) = cc
no_first_room o unset absent full (inl (inr there)) = there absent
no_first_room o unset absent full (inr room) = full (omega arith, omega (arith, room.0), absent)

names_differ : strcmp_eq method_subscribe method_unsubscribe ≡ false
unfolding strcmp_eq
names_differ = refl

pub no_second_room :
    (env : Env) (object : Name) (o : Object)
    → o.process_event_subscriptions ≡ false
    → HasRoom method_subscribe o
    → ¬ HasRoom method_unsubscribe (with_handler env object method_subscribe o)
    → ¬ CanDispatch o
no_second_room env object o unset room full (inl (inl set)) = cc
no_second_room env object o unset room full (inl (inr there)) = there room.2
no_second_room env object o unset room full (inr free) = full (
  omega arith,
  omega (
    arith,
    free.0,
    length-append o.methods (with_handler_method env object method_subscribe ∷ []),
  ),
  rw
      (
        find_first-append_new method_key method_unsubscribe o.methods
            (with_handler_method env object method_subscribe) room.2,
        names_differ,
      )
      free.1,
)

pub handled :
    (env : Env) (object method : Name) (o : Object)
    → ValidObject env o
    → HasRoom method o
    → ValidObject env (with_handler env object method o)
handled env object method o v room =
    appended-ValidObject env object method Callback.subscription_handler (UserData.object object) o
      v room.0 room.1 room.2

pub both_rooms :
    (env : Env) (object : Name) (o : Object)
    → HasRoom method_subscribe o
    → HasRoom method_unsubscribe (with_handler env object method_subscribe o)
    → CanDispatch o
both_rooms env object o room room' = inr (
  omega (
    arith,
    room'.1,
    length-append o.methods (with_handler_method env object method_subscribe ∷ []),
  ),
  rw
      (
        find_first-append_new method_key method_unsubscribe o.methods
            (with_handler_method env object method_subscribe) room.2,
        names_differ,
      )
      at (room'.2),
)

-- What is stored beside the name, the methods and the events does not matter.
pub marked-ValidObject :
    (env : Env) (o : Object) (set : Bool) (override : Option ℕ) (override_data : ℕ)
    → ValidObject env o
    → ValidObject env (record o {
      process_event_subscriptions = set;
      subscribe_handler_override = override;
      subscribe_handler_data = override_data;
    })
marked-ValidObject env o set f d v = record {
  name_short = v.name_short;
  methods_short = v.methods_short;
  methods_distinct = v.methods_distinct;
  methods_few = v.methods_few;
  events_short = v.events_short;
  events_distinct = v.events_distinct;
  events_owned = v.events_owned;
  listeners_distinct = v.listeners_distinct;
}

abbrev pub IsHandlerName : Name → Type 0
IsHandlerName y = (method_subscribe ≡ y) ⊎ (method_unsubscribe ≡ y)

-- One object turns into another: a method of the name stays, and a new one is a handler.
abbrev pub Grows : Env → Name → Name → Option Method → Option Method → Type 0
Grows env object y before after =
    (after ≡ before)
    ⊎ ((before ≡ none) × IsHandlerName y × (after ≡ some (with_handler_method env object y)))

pub Grows-one :
    (env : Env) (object method y : Name) (o : Object)
    → method_in method o ≡ none
    → IsHandlerName method
    → Grows env object y (method_in y o) (method_in y (with_handler env object method o))
Grows-one env object method y o fresh named_so =
    rw (find_first-append_new method_key y o.methods (with_handler_method env object method) fresh)
      (elim (Bool-cases (strcmp_eq method y)) [
        | inr other ↦ rw other (inl refl)
        | inl same ↦
            let this = strcmp_eq→eq method y same in
            rw same (
              inr (
                rw (← this) fresh,
                rw (← this) named_so,
                ap (λ k. some (with_handler_method env object k)) this,
              ))
      ])

pub Grows-twice :
    (env : Env) (object y : Name) {a b c : Option Method}
    → Grows env object y a b
    → Grows env object y b c
    → Grows env object y a c
Grows-twice env object y (inl p) (inl q) = inl (q ∙ p)
Grows-twice env object y (inl p) (inr q) = inr (sym p ∙ q.0, q.1, q.2)
Grows-twice env object y (inr p) (inl q) = inr (p.0, p.1, q ∙ p.2)
Grows-twice env object y (inr p) (inr q) = inr (p.0, p.1, q.2)

-- The methods of the object with the first handler.
pub with_handler_found :
    (env : Env) (object : Name) (o : Object)
    → method_in method_subscribe o ≡ none
    → method_in method_subscribe (with_handler env object method_subscribe o) ≢ none
with_handler_found env object o fresh =
    rw
      (
        find_first-append_new method_key method_subscribe o.methods
            (with_handler_method env object method_subscribe) fresh,
        strcmp_eq_refl method_subscribe,
      )
      (λ e. cc)

pub with_handler_other :
    (env : Env) (object : Name) (o : Object)
    → method_in method_subscribe o ≡ none
    → method_in method_unsubscribe (with_handler env object method_subscribe o)
      ≡ method_in method_unsubscribe o
with_handler_other env object o fresh = rw (
  find_first-append_new method_key method_unsubscribe o.methods
      (with_handler_method env object method_subscribe) fresh,
  names_differ,
)
