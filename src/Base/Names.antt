-- ===== src/Base/Names.antt =====
-- C strings. A string is the list of its bytes before the terminating NUL; a `char const*` that may
-- be NULL is an `Option`. The standard library's `strlen`, `strncmp` and `strnlen` are by their
-- definition in the C standard.
use Prim.Native.Nat.{ℕ, zero, suc, ◌≤◌, ◌<◌}
use Prim.Native.Char.{code}
use Prim.Native.String.{String}
use mathlib.Core.Path.{◌≡◌, refl}
use mathlib.Core.Logic.{◌↔◌}
use mathlib.Core.Bool.{Bool, true, false, ◌&&◌}
use mathlib.Core.List.{List, [], ◌∷◌, ◌++◌}
use native.Mathlib.Omega.{arith}
use rbuscore.Base.Tests.{◌==◌, if◌then◌else◌}
use rbuscore.Base.Lists.{length, take, All}

abbrev pub Name : Type 0
Name = List ℕ

-- The bytes of an ASCII literal.
abbrev pub codes : String → Name
codes String.[] = []
codes (String.◌∷◌ c s) = code c ∷ codes s

abbrev pub strlen : Name → ℕ
strlen = length

-- `strnlen(s, n)`
abbrev pub strnlen : Name → ℕ → ℕ
strnlen s n = length (take n s)

-- `strncmp(a, b, n) == 0`: the strings agree up to their end or up to n bytes.
unfoldable pub strncmp_eq : ℕ → Name → Name → Bool
strncmp_eq zero a b = true
strncmp_eq (suc n) [] [] = true
strncmp_eq (suc n) [] (y ∷ b) = false
strncmp_eq (suc n) (x ∷ a) [] = false
strncmp_eq (suc n) (x ∷ a) (y ∷ b) = x == y && strncmp_eq n a b

-- `strcmp(a, b) == 0`
unfoldable pub strcmp_eq : Name → Name → Bool
strcmp_eq [] [] = true
strcmp_eq [] (y ∷ b) = false
strcmp_eq (x ∷ a) [] = false
strcmp_eq (x ∷ a) (y ∷ b) = x == y && strcmp_eq a b

-- The C string at the start of some bytes: up to the first NUL.
unfoldable pub c_string : List ℕ → Name
c_string [] = []
c_string (x ∷ b) = if x == 0 then [] else x ∷ c_string b

pub strcmp_eq_refl : (a : Name) → strcmp_eq a a ≡ true
unfolding strcmp_eq
strcmp_eq_refl [] = refl
strcmp_eq_refl (x ∷ a) = ground (arith, strcmp_eq_refl a)

pub strcmp_eq→eq : (a b : Name) → strcmp_eq a b ≡ true → a ≡ b
unfolding strcmp_eq
strcmp_eq→eq [] [] e = refl
strcmp_eq→eq [] (y ∷ b) e = cc
strcmp_eq→eq (x ∷ a) [] e = cc
strcmp_eq→eq (x ∷ a) (y ∷ b) e = ground (arith, strcmp_eq→eq a b)

-- A string has no NUL inside.
abbrev pub IsText : Name → Type 0
IsText = All λ x. 0 < x

-- What `rbusMessage_SetString` packs is read as the string again.
pub c_string-append : (s : Name) → IsText s → c_string (s ++ (0 ∷ [])) ≡ s
unfolding c_string
c_string-append [] h = refl
c_string-append (x ∷ s) h = ground (arith, c_string-append s h.1)

pub strncmp_eq_refl : (n : ℕ) (a : Name) → strncmp_eq n a a ≡ true
unfolding strncmp_eq
strncmp_eq_refl zero a = refl
strncmp_eq_refl (suc n) [] = refl
strncmp_eq_refl (suc n) (x ∷ a) = ground (arith, strncmp_eq_refl n a)

-- A string that ends before the limit is compared whole.
pub strncmp_eq→eq : (n : ℕ) (a b : Name) → strlen a < n → strncmp_eq n a b ≡ true → a ≡ b
unfolding strncmp_eq
strncmp_eq→eq zero a b h e = absurd (omega arith)
strncmp_eq→eq (suc n) [] [] h e = refl
strncmp_eq→eq (suc n) [] (y ∷ b) h e = cc
strncmp_eq→eq (suc n) (x ∷ a) [] h e = cc
strncmp_eq→eq (suc n) (x ∷ a) (y ∷ b) h e = ground (arith, strncmp_eq→eq n a b (omega arith))

-- `strnlen` reaches its limit exactly when the string does.
pub strnlen_limit : (s : Name) (n : ℕ) → (n ≤ strnlen s n) ↔ (n ≤ strlen s)
strnlen_limit s zero = (λ h. omega arith, λ h. omega arith)
strnlen_limit [] (suc n) = (λ h. h, λ h. h)
strnlen_limit (x ∷ s) (suc n) = (
  λ h. omega (arith, (strnlen_limit s n).0 (omega arith)),
  λ h. omega (arith, (strnlen_limit s n).1 (omega arith)),
)

-- On a string that ends before the limit the limit makes no difference.
pub strncmp_eq-strcmp_eq : (n : ℕ) (a b : Name) → strlen a < n → strncmp_eq n a b ≡ strcmp_eq a b
unfolding strncmp_eq strcmp_eq
strncmp_eq-strcmp_eq zero a b h = absurd (omega arith)
strncmp_eq-strcmp_eq (suc n) [] [] h = refl
strncmp_eq-strcmp_eq (suc n) [] (y ∷ b) h = refl
strncmp_eq-strcmp_eq (suc n) (x ∷ a) [] h = refl
strncmp_eq-strcmp_eq (suc n) (x ∷ a) (y ∷ b) h = rw (strncmp_eq-strcmp_eq n a b (omega arith))

pub strcmp_eq_comm : (a b : Name) → strcmp_eq a b ≡ strcmp_eq b a
unfolding strcmp_eq
strcmp_eq_comm [] [] = refl
strcmp_eq_comm [] (y ∷ b) = refl
strcmp_eq_comm (x ∷ a) [] = refl
strcmp_eq_comm (x ∷ a) (y ∷ b) = ground (arith, strcmp_eq_comm a b)

pub strcmp_eq_iff : (a b : Name) → (strcmp_eq a b ≡ true) ↔ (a ≡ b)
strcmp_eq_iff a b = (strcmp_eq→eq a b, λ e. rw e (strcmp_eq_refl b))
