-- ===== src/Server/Views.antt =====
-- What single changes of the registered objects do to the abstract registry.
use rbuscore.Base.{
  ℕ, ◌≡◌, Bool, refl, inl, inr, true, false, Bool-cases, Option-cases, Option, none, some, List, [],
  ◌∷◌, ◌++◌, update_first, Name, strcmp_eq, strcmp_eq→eq, if◌then◌else◌,
}
use rbuscore.Rt.Vector.{remove_first}
use rbuscore.Keyed.{
  mapped, named, find_first-append_new, find_first-remove_first, find_first-update_first, Distinct,
}
use rbuscore.Core.Types.{Object}
use rbuscore.Server.Valid.{object_key, object_of}
use rbuscore.Server.ObjectCases.{new_object}
use rbuscore.Server.Registry.{Agrees, standing_at, view}

-- A new object is registered, and has no methods and no events yet.
pub view-append_new :
    (name : Name) (callback user_data : ℕ) (os : List Object)
    → object_of name os ≡ none
    → Agrees (view (os ++ (new_object name callback user_data ∷ []))) (record (view os) {
      has = λ x. if strcmp_eq name x then true else (view os).has x;
      standing = λ x. if strcmp_eq name x then some (false, 0) else (view os).standing x;
    })
view-append_new name cb ud os fresh x y =
    rw (find_first-append_new object_key x os (new_object name cb ud) fresh)
      (elim (Bool-cases (strcmp_eq name x)) [
        | inl same ↦ rw (same, ← strcmp_eq→eq name x same, fresh) (refl, refl, refl, refl)
        | inr other ↦ rw other (refl, refl, refl, refl)
      ])

-- An object that is removed takes its methods and events along.
pub view-remove_first :
    (name : Name) (os : List Object)
    → Distinct object_key os
    → Agrees (view (remove_first (named object_key name) os)) (record {
      has = λ x. if strcmp_eq name x then false else (view os).has x;
      method = λ x y. if strcmp_eq name x then none else (view os).method x y;
      event = λ x y. if strcmp_eq name x then none else (view os).event x y;
      standing = λ x. if strcmp_eq name x then none else (view os).standing x;
    })
view-remove_first name os distinct x y =
    rw (find_first-remove_first object_key x name os distinct)
      (elim (Bool-cases (strcmp_eq name x)) [
        | inl same ↦ rw same (refl, refl, refl, refl)
        | inr other ↦ rw other (refl, refl, refl, refl)
      ])

-- A change of one object that keeps names keeps what it does not change in the object.
pub seen-update_first :
    {B : Type 0} (look : Option Object → B) (n x : Name) (f : Object → Object) (os : List Object)
    → ((o : Object) → (f o).name ≡ o.name)
    → ((o : Object) → look (some (f o)) ≡ look (some o))
    → look (object_of x (update_first (named object_key n) f os)) ≡ look (object_of x os)
seen-update_first look n x f os keeps unseen =
    rw (find_first-update_first object_key x n f os keeps) (elim (Bool-cases (strcmp_eq n x)) [
      | inr other ↦ rw other
      | inl same ↦ rw same (elim (Option-cases (object_of x os)) [
        | inl missing ↦ rw missing
        | inr (o, found) ↦ rw found (unseen o)
      ])
    ])

-- A change of the object that was found shows in its standing.
pub standing-update_first :
    (n x : Name) (f : Object → Object) (g : Bool × ℕ → Bool × ℕ) (os : List Object) (o : Object)
    → object_of n os ≡ some o
    → ((k : Object) → (f k).name ≡ k.name)
    → standing_at (some (f o)) ≡ mapped g (standing_at (some o))
    → standing_at (object_of x (update_first (named object_key n) f os)) ≡ (
        if strcmp_eq n x
        then mapped g (standing_at (object_of x os))
        else standing_at (object_of x os))
standing-update_first n x f g os o found keeps shown =
    rw (find_first-update_first object_key x n f os keeps) (elim (Bool-cases (strcmp_eq n x)) [
      | inr other ↦ rw other
      | inl same ↦ rw (same, ← strcmp_eq→eq n x same, found) shown
    ])
