-- ===== src/Server/HandlerSteps.antt =====
-- The registration of one subscription handler, and its early return.
use rbuscore.Base.{
  ◌≡◌, refl, ◌≢◌, ◌⊎◌, inl, inr, Bool-cases, some, List, ◌==◌, if◌then◌else◌, arith, Name,
}
use rbuscore.Rt.Vector.{list_vector}
use rbuscore.Keyed.{named, update_first_agree}
use rbuscore.Core.Types.{RbusError, success, Callback, UserData, Object}
use rbuscore.Core.State.{Bus, Action, return, ◌>>=◌}
use rbuscore.Core.Env.{Env}
use rbuscore.Server.Methods.{register_method}
use rbuscore.Server.Valid.{ValidRegistry, object_key, object_of}
use rbuscore.Server.MethodLaws.{register_cases}
use rbuscore.Server.Replace.{replace}
use rbuscore.Server.Handlers.{HasRoom, with_handler}

module _ (env : Env) (object : Name) where
  -- rbus_registerMethod of a handler, for an object that is registered.
  pub handler_lem :
      (method : Name) (o : Object) (s : Bus env.World)
      → ValidRegistry env s.server_objects
      → object_of object s.server_objects ≡ some o
      → let (ret, s') =
          register_method list_vector env object method Callback.subscription_handler
            (UserData.object object)
            s in
        ((ret ≢ success) × ¬ HasRoom method o × (s'.server_objects ≡ s.server_objects))
        ⊎ ((ret ≡ success)
            × HasRoom method o
            × (s'.server_objects
                ≡ replace object (with_handler env object method o) s.server_objects))
  handler_lem method o s h found =
      register_cases env object method Callback.subscription_handler (UserData.object object)
        (λ ret os.
          ((ret ≢ success) × ¬ HasRoom method o × (os ≡ s.server_objects))
          ⊎ ((ret ≡ success)
              × HasRoom method o
              × (os ≡ replace object (with_handler env object method o) s.server_objects)))
        s h (λ ret bad can. inl (bad, λ r. can (o, found, r.0, r.1, r.2), refl))
        λ o' found' short room fresh.
          let same : o' ≡ o = cc in
          inr (
            refl,
            rw (← same) (short, room, fresh),
            update_first_agree (named object_key object) (with_handler env object method)
                (λ x. record (with_handler env object method o) { name = x.name }) s.server_objects
                o found refl,
          )

  -- `if((ret = m) != RTMESSAGE_BUS_SUCCESS) return ret; else k`
  pub after_success {κ} :
      (P : RbusError → List Object → Type κ) (m : Action env.World RbusError)
      (k : RbusError → Action env.World RbusError) (s : Bus env.World)
      → ((m s).0 ≢ success → P (m s).0 (m s).1.server_objects)
      → ((m s).0 ≡ success → P (k (m s).0 (m s).1).0 (k (m s).0 (m s).1).1.server_objects)
      → let (ret, s') = (m >>= λ ret. if ret == success then k ret else return ret) s in
        P ret s'.server_objects
  after_success P m k s bad good = elim (Bool-cases ((m s).0 == success)) [
    | inl e ↦ rw e (good (ground arith))
    | inr e ↦ rw e (bad (ground arith))
  ]
