-- ===== src/Server/Outcome.antt =====
-- What the registration of an event leaves of the object, apart from its events.
use rbuscore.Base.{◌≡◌, refl, ◌≢◌, ◌⊎◌, ◌↔◌, inl, inr, ap, sym, true, some, Name}
use rbuscore.Rt.Vector.{list_vector}
use rbuscore.Core.Types.{RbusError, success, method_subscribe, method_unsubscribe, Object}
use rbuscore.Core.State.{Bus}
use rbuscore.Core.Env.{Env}
use rbuscore.Server.Registration.{ensure_handlers}
use rbuscore.Server.Valid.{ValidObject, ValidRegistry, method_in, object_of}
use rbuscore.Server.Replace.{replace, replace_self}
use rbuscore.Server.Handlers.{
  HasRoom, with_handler, with_handlers, IsReady, CanDispatch, handled, both_rooms,
  marked-ValidObject, Grows, Grows-one, Grows-twice,
}
use rbuscore.Server.RegistrationCases.{ensure_cases}

-- What rbus_registerEvent or rbus_registerSubscribeHandler returns for an object that was `o` before
-- the handlers were looked for, and is `o'` then.
abbrev pub Outcome : Env → Name → Object → RbusError → Object → Type 0
Outcome env object o ret o' =
    ((ret ≡ success) × IsReady o × (o' ≡ o))
    ⊎ ((ret ≢ success) × ¬ CanDispatch o × ¬ HasRoom method_subscribe o × (o' ≡ o))
    ⊎ ((ret ≢ success)
        × ¬ CanDispatch o
        × HasRoom method_subscribe o
        × (o' ≡ with_handler env object method_subscribe o))
    ⊎ ((ret ≡ success)
        × HasRoom method_subscribe o
        × HasRoom method_unsubscribe (with_handler env object method_subscribe o)
        × (o' ≡ with_handlers env object o))

pub ensure_outcome :
    (env : Env) (object : Name) (o : Object) (s : Bus env.World)
    → ValidRegistry env s.server_objects
    → object_of object s.server_objects ≡ some o
    → let (ret, s') = ensure_handlers list_vector env object s in
      (o' : Object) × Outcome env object o ret o'
      × (s'.server_objects ≡ replace object o' s.server_objects)
ensure_outcome env object o s h found =
    let self = sym (replace_self object s.server_objects o found) in
    ensure_cases env object
      (λ ret os.
        (o' : Object) × Outcome env object o ret o' × (os ≡ replace object o' s.server_objects))
      o s h found (λ ready. (o, inl (refl, ready, refl), self))
      (λ ret bad no_room full. (o, inr (inl (bad, no_room, full, refl)), self))
      (λ ret bad room no_room. (
        with_handler env object method_subscribe o,
        inr (inr (inl (bad, no_room, room, refl))),
        refl,
      ))
      λ room room'. (with_handlers env object o, inr (inr (inr (refl, room, room', refl))), refl)

module _ (env : Env) (object : Name) {o o' : Object} {ret : RbusError}
    (out : Outcome env object o ret o') where
  pub outcome_success : (ret ≡ success) ↔ CanDispatch o
  outcome_success = elim out [
    | inl (good, ready, same) ↦ (λ r. inl ready, λ r. good)
    | inr (inl (bad, can, full, same)) ↦ (λ r. absurd (bad r), λ r. absurd (can r))
    | inr (inr (inl (bad, can, room, same))) ↦ (λ r. absurd (bad r), λ r. absurd (can r))
    | inr (inr (inr (good, room, room', same))) ↦
        (λ r. both_rooms env object o room room', λ r. good)
  ]

  pub outcome_kept : (o'.name ≡ o.name) × (o'.subscriptions ≡ o.subscriptions)
  outcome_kept = elim out [
    | inl (good, ready, same) ↦ (ap (λ k. k.name) same, ap (λ k. k.subscriptions) same)
    | inr (inl (bad, can, full, same)) ↦ (ap (λ k. k.name) same, ap (λ k. k.subscriptions) same)
    | inr (inr (inl (bad, can, room, same))) ↦
        (ap (λ k. k.name) same, ap (λ k. k.subscriptions) same)
    | inr (inr (inr (good, room, room', same))) ↦
        (ap (λ k. k.name) same, ap (λ k. k.subscriptions) same)
  ]

  pub outcome_override :
      (o'.subscribe_handler_override ≡ o.subscribe_handler_override)
      × (o'.subscribe_handler_data ≡ o.subscribe_handler_data)
  outcome_override = elim out [
    | inl (good, ready, same) ↦ rw same (refl, refl)
    | inr (inl (bad, can, full, same)) ↦ rw same (refl, refl)
    | inr (inr (inl (bad, can, room, same))) ↦ rw same (refl, refl)
    | inr (inr (inr (good, room, room', same))) ↦ rw same (refl, refl)
  ]

  pub outcome-ValidObject : ValidObject env o → ValidObject env o'
  outcome-ValidObject v = elim out [
    | inl (good, ready, same) ↦ rw same v
    | inr (inl (bad, can, full, same)) ↦ rw same v
    | inr (inr (inl (bad, can, room, same))) ↦
        rw same (handled env object method_subscribe o v room)
    | inr (inr (inr (good, room, room', same))) ↦ rw same (
        marked-ValidObject env _ true o.subscribe_handler_override o.subscribe_handler_data (
          handled env object method_unsubscribe _ (handled env object method_subscribe o v room)
            room'))
  ]

  pub outcome-Grows : (y : Name) → Grows env object y (method_in y o) (method_in y o')
  outcome-Grows y = elim out [
    | inl (good, ready, same) ↦ inl (ap (method_in y) same)
    | inr (inl (bad, can, full, same)) ↦ inl (ap (method_in y) same)
    | inr (inr (inl (bad, can, room, same))) ↦
        rw same (Grows-one env object method_subscribe y o room.2 (inl refl))
    | inr (inr (inr (good, room, room', same))) ↦ rw same (
        Grows-twice env object y (Grows-one env object method_subscribe y o room.2 (inl refl)) (
          Grows-one env object method_unsubscribe y (with_handler env object method_subscribe o)
            room'.2 (inr refl)))
  ]
