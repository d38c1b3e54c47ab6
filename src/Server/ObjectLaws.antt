-- ===== src/Server/ObjectLaws.antt =====
-- Registering and unregistering objects, by their effect on the objects that can be found.
use rbuscore.Base.{
  ℕ, ◌≡◌, refl, ap, subst, ◌∙◌, ◌≢◌, ◌⊎◌, inl, inr, Option, none, some, [], ◌∷◌, ◌++◌,
  if◌then◌else◌, Name, strcmp_eq,
}
use rbuscore.Rt.Vector.{
  Vector, IsVector, list_vector, list_vector-IsVector, vector-eq, remove_first,
}
use rbuscore.Keyed.{named, find_first-append_new, remove_first-append_new, find_first-remove_first}
use rbuscore.Core.Types.{success}
use rbuscore.Core.State.{Bus}
use rbuscore.Core.Env.{Env}
use rbuscore.Server.Objects.{register_obj, unregister_obj}
use rbuscore.Server.Valid.{
  ValidRegistry, object_key, object_of, append-ValidRegistry, remove-ValidRegistry,
}
use rbuscore.Server.ObjectCases.{
  new_object, new-ValidObject, register_obj_cases, unregister_obj_cases,
}

-- rbus_registerObj keeps the registry well-formed; the vectors are as documented.
pub register_obj-ValidRegistry :
    (v : Vector) (env : Env) (object_name : Option Name) (handler user_data : ℕ) (s : Bus env.World)
    → IsVector v
    → ValidRegistry env s.server_objects
    → ValidRegistry env (register_obj v env object_name handler user_data s).1.server_objects
register_obj-ValidRegistry v env on hd ud s iv h = rw (vector-eq v iv) (
    register_obj_cases env on hd ud (λ ret os. ValidRegistry env os) s h (λ ret e. h)
      λ name given short fresh.
        append-ValidRegistry env s.server_objects (new_object name hd ud) h
          (new-ValidObject env name hd ud short) fresh)

-- rbus_unregisterObj keeps the registry well-formed; the vectors are as documented.
pub unregister_obj-ValidRegistry :
    (v : Vector) (env : Env) (object_name : Option Name) (s : Bus env.World)
    → IsVector v
    → ValidRegistry env s.server_objects
    → ValidRegistry env (unregister_obj v env object_name s).1.server_objects
unregister_obj-ValidRegistry v env on s iv h = rw (vector-eq v iv) (
    unregister_obj_cases env (λ ret os. ValidRegistry env os) on s h (λ ret e. h)
      λ name o given found. remove-ValidRegistry env name s.server_objects h)

-- What rbus_registerObj does on a well-formed registry: a call that succeeds was given a name under
-- which there was no object, puts a new object under it, and leaves the objects under other names as
-- they were; any other call leaves the registered objects as they were.
pub object_of-register_obj :
    (v : Vector) (env : Env) (object_name : Option Name) (handler user_data : ℕ) (s : Bus env.World)
    (object : Name)
    → IsVector v
    → ValidRegistry env s.server_objects
    → let (ret, s') = register_obj v env object_name handler user_data s in
      ((ret ≡ success)
        × ((name : Name) × (object_name ≡ some name)
            × (object_of name s.server_objects ≡ none)
            × (object_of object s'.server_objects ≡ (
                if strcmp_eq name object
                then some (new_object name handler user_data)
                else object_of object s.server_objects))))
      ⊎ ((ret ≢ success) × (s'.server_objects ≡ s.server_objects))
object_of-register_obj v env on hd ud s object iv h = rw (vector-eq v iv) (
    register_obj_cases env on hd ud
      (λ ret os.
        ((ret ≡ success)
          × ((name : Name) × (on ≡ some name)
              × (object_of name s.server_objects ≡ none)
              × (object_of object os ≡ (
                  if strcmp_eq name object
                  then some (new_object name hd ud)
                  else object_of object s.server_objects))))
        ⊎ ((ret ≢ success) × (os ≡ s.server_objects)))
      s h (λ ret e. inr (e, refl))
      λ name given short fresh. inl (
        refl,
        (
          name,
          given,
          fresh,
          find_first-append_new object_key object s.server_objects (new_object name hd ud) fresh,
        ),
      ))

-- What rbus_unregisterObj does on a well-formed registry: a call that succeeds was given the name of
-- a registered object, takes that object away, and leaves the objects under other names as they
-- were; any other call leaves the registered objects as they were.
pub object_of-unregister_obj :
    (v : Vector) (env : Env) (object_name : Option Name) (s : Bus env.World) (object : Name)
    → IsVector v
    → ValidRegistry env s.server_objects
    → let (ret, s') = unregister_obj v env object_name s in
      ((ret ≡ success)
        × ((name : Name) × (object_name ≡ some name)
            × (object_of name s.server_objects ≢ none)
            × (object_of object s'.server_objects
                ≡ (if strcmp_eq name object then none else object_of object s.server_objects))))
      ⊎ ((ret ≢ success) × (s'.server_objects ≡ s.server_objects))
object_of-unregister_obj v env on s object iv h = rw (vector-eq v iv) (
    unregister_obj_cases env
      (λ ret os.
        ((ret ≡ success)
          × ((name : Name) × (on ≡ some name)
              × (object_of name s.server_objects ≢ none)
              × (object_of object os
                  ≡ (if strcmp_eq name object then none else object_of object s.server_objects))))
        ⊎ ((ret ≢ success) × (os ≡ s.server_objects)))
      on s h (λ ret e. inr (e, refl))
      λ name o given found. inl (
        refl,
        (
          name,
          given,
          rw found (λ e. cc),
          find_first-remove_first object_key object name s.server_objects h.objects_distinct,
        ),
      ))

register_obj-success :
    (env : Env) (name : Name) (handler user_data : ℕ) (s : Bus env.World)
    → ValidRegistry env s.server_objects
    → let (ret, s') = register_obj list_vector env (some name) handler user_data s in
      ret ≡ success
      → (object_of name s.server_objects ≡ none)
        × (s'.server_objects ≡ s.server_objects ++ (new_object name handler user_data ∷ []))
register_obj-success env name hd ud s h =
    register_obj_cases env (some name) hd ud
      (λ ret os.
        ret ≡ success
        → (object_of name s.server_objects ≡ none)
          × (os ≡ s.server_objects ++ (new_object name hd ud ∷ [])))
      s h (λ ret e r. absurd (e r))
      λ n given short fresh r.
        let same : n ≡ name = cc in
        (subst (λ k. object_of k s.server_objects ≡ none) same fresh, rw same)

unregister_obj-success :
    (env : Env) (name : Name) (s : Bus env.World)
    → ValidRegistry env s.server_objects
    → let (ret, s') = unregister_obj list_vector env (some name) s in
      ret ≡ success → s'.server_objects ≡ remove_first (named object_key name) s.server_objects
unregister_obj-success env name s h =
    unregister_obj_cases env
      (λ ret os. ret ≡ success → os ≡ remove_first (named object_key name) s.server_objects)
      (some name) s h (λ ret e r. absurd (e r))
      λ n o given found r. let same : n ≡ name = cc in rw same

-- rbus_registerObj followed by rbus_unregisterObj of the same name gives back exactly the registered
-- objects of before, in their order. Both calls succeed, the registry before is well-formed, and the
-- vectors are as documented.
pub unregister_obj-register_obj :
    (v : Vector) (env : Env) (name : Name) (handler user_data : ℕ) (s : Bus env.World)
    → IsVector v
    → ValidRegistry env s.server_objects
    → (register_obj v env (some name) handler user_data s).0 ≡ success
    → (unregister_obj v env (some name) (register_obj v env (some name) handler user_data s).1).0
      ≡ success
    → (unregister_obj v env
        (some name)
        (register_obj v env (some name) handler user_data s).1).1.server_objects
      ≡ s.server_objects
unregister_obj-register_obj v env name hd ud s iv h = rw (vector-eq v iv) λ r r'.
    let s' = (register_obj list_vector env (some name) hd ud s).1 in
    let valid : ValidRegistry env s'.server_objects =
      register_obj-ValidRegistry list_vector env (some name) hd ud s list_vector-IsVector h in
    let (fresh, added) = register_obj-success env name hd ud s h r in
    unregister_obj-success env name s' valid r'
    ∙ ap (remove_first (named object_key name)) added
    ∙ remove_first-append_new object_key s.server_objects (new_object name hd ud) fresh
