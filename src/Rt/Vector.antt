-- ===== src/Rt/Vector.antt =====
-- The rtVector of rtMessage. A vector is seen through the list of its items, and an item pointer
-- that `rtVector_Find` returned is named by the test that found it: the first item that compares 0.
use rbuscore.Base.{
  ℕ, ◌≡◌, refl, Bool, false, ◌||◌, Option, none, some, List, [], ◌∷◌, ◌++◌, length, get_elem?, Name,
  strcmp_eq, if◌then◌else◌,
}

pub record Vector : Type 1 where
  -- rtVector_Create
  pub create : (A : Type 0) → List A
  -- rtVector_PushBack
  pub push_back : (A : Type 0) → List A → A → List A
  -- rtVector_Size
  pub size : (A : Type 0) → List A → ℕ
  -- rtVector_At
  pub at : (A : Type 0) → List A → ℕ → Option A
  -- rtVector_Find
  pub find : (A : Type 0) → (A → Bool) → List A → Option A
  -- rtVector_HasItem
  pub has_item : (A : Type 0) → (A → Bool) → List A → Bool
  -- rtVector_RemoveItem of the item that `find` gives, and rtVector_RemoveItemByCompare
  pub remove_item : (A : Type 0) → (A → Bool) → List A → List A
  -- rtVector_Compare_String gives 0
  pub compare_string : Name → Name → Bool

module _ {A : Type 0} where
  -- The first item that passes the test.
  abbrev pub find_first : (A → Bool) → List A → Option A
  find_first p [] = none
  find_first p (x ∷ xs) = if p x then some x else find_first p xs

  abbrev pub any_item : (A → Bool) → List A → Bool
  any_item p [] = false
  any_item p (x ∷ xs) = p x || any_item p xs

  -- The list without the first item that passes the test.
  abbrev pub remove_first : (A → Bool) → List A → List A
  remove_first p [] = []
  remove_first p (x ∷ xs) = if p x then xs else x ∷ remove_first p xs

-- The documented behaviour.
pub record IsVector (v : Vector) : Type 1 where
  pub create_lem : (A : Type 0) → v.create A ≡ []
  pub push_back_lem : (A : Type 0) (xs : List A) (x : A) → v.push_back A xs x ≡ xs ++ (x ∷ [])
  pub size_lem : (A : Type 0) (xs : List A) → v.size A xs ≡ length xs
  pub at_lem : (A : Type 0) (xs : List A) (i : ℕ) → v.at A xs i ≡ get_elem? xs i
  pub find_lem : (A : Type 0) (p : A → Bool) (xs : List A) → v.find A p xs ≡ find_first p xs
  pub has_item_lem : (A : Type 0) (p : A → Bool) (xs : List A) → v.has_item A p xs ≡ any_item p xs
  pub remove_item_lem :
      (A : Type 0) (p : A → Bool) (xs : List A) → v.remove_item A p xs ≡ remove_first p xs
  pub compare_string_lem : (a b : Name) → v.compare_string a b ≡ strcmp_eq a b

-- The operations on lists that have this behaviour.
abbrev pub list_vector : Vector
list_vector = record {
  create = λ A. [];
  push_back = λ A xs x. xs ++ (x ∷ []);
  size = λ A xs. length xs;
  at = λ A xs i. get_elem? xs i;
  find = λ A p xs. find_first p xs;
  has_item = λ A p xs. any_item p xs;
  remove_item = λ A p xs. remove_first p xs;
  compare_string = strcmp_eq;
}

-- A vector of this behaviour is that one, so a proof may compute with lists.
pub vector-eq : (v : Vector) → IsVector v → v ≡ list_vector
vector-eq v h = λ i. record {
  create = λ A. h.create_lem A i;
  push_back = λ A xs x. h.push_back_lem A xs x i;
  size = λ A xs. h.size_lem A xs i;
  at = λ A xs k. h.at_lem A xs k i;
  find = λ A p xs. h.find_lem A p xs i;
  has_item = λ A p xs. h.has_item_lem A p xs i;
  remove_item = λ A p xs. h.remove_item_lem A p xs i;
  compare_string = λ a b. h.compare_string_lem a b i;
}

pub list_vector-IsVector : IsVector list_vector
list_vector-IsVector = record {
  create_lem = λ A. refl;
  push_back_lem = λ A xs x. refl;
  size_lem = λ A xs. refl;
  at_lem = λ A xs i. refl;
  find_lem = λ A p xs. refl;
  has_item_lem = λ A p xs. refl;
  remove_item_lem = λ A p xs. refl;
  compare_string_lem = λ a b. refl;
}
