-- ===== src/Discovery/Arrays.antt =====
-- The arrays of strings that the discovery functions allocate and fill from an answer.
use rbuscore.Base.{
  ℕ, zero, suc, ◌+◌, ◌-◌, ◌*◌, ◌/◌, ◌%◌, ◌^◌, Option, none, some, List, [], ◌∷◌, ◌++◌, map, length,
  ltb, if◌then◌else◌, Name,
}
use rbuscore.Rt.Msgpack.{sign_extend}
use rbuscore.Rt.Router.{Router}
use rbuscore.Core.Types.{RbusError, success, error_general, error_insufficient_memory}
use rbuscore.Core.State.{Action, return, ◌>>=◌}
use rbuscore.Core.Env.{Env, outside}

-- A pointer in an array: to a string, or whatever the memory held before.
pub data Entry : Type 0 where
  text : Name → Entry
  unset : Entry

-- A `char**`: to the entries of an array, to memory that has been released, or NULL.
pub data Array : Type 0 where
  entries : List Entry → Array
  released : Array
  null : Array

-- The result of a discovery, and what it writes through its two pointers, if it writes there.
pub record Found : Type 0 where
  pub ret : RbusError
  pub count : Option ℕ
  pub array : Option Array

-- A return that writes nothing.
abbrev pub nothing_found : RbusError → Option Found
nothing_found ret = some (record { ret = ret; count = none; array = none })

-- `n * sizeof(char *)` for an int: eight bytes each, on size_t
abbrev pub bytes : ℕ → ℕ
bytes n = sign_extend n * 8 % 2 ^ 64

-- The rounds of `for(i = 0; i < n; i++)` for an int.
abbrev pub rounds : ℕ → ℕ
rounds n = if ltb n (2 ^ 31) then n else 0

abbrev pub unset_entries : ℕ → List Entry
unset_entries zero = []
unset_entries (suc n) = Entry.unset ∷ unset_entries n

-- An array of a number of entries, of which the first are filled.
abbrev pub filled : List Name → ℕ → List Entry
filled names size = map Entry.text names ++ unset_entries (size - length names)

abbrev pub prepend : Name → Option (List Name) → Option (List Name)
prepend name none = none
prepend name (some names) = some (name ∷ names)

module _ (env : Env) (r : Router env) where
  -- The loop over the items of an answer from index i on: the copies, or none if one fails.
  unfoldable pub copy_items : r.Msg → ℕ → ℕ → env.World → Option (List Name) × env.World
  copy_items msg zero i w = (some [], w)
  copy_items msg (suc n) i w = elim (r.get_string_item msg r.discovery_items i) [
    | none ↦ (none, w)
    | some value ↦
        let (copy, w') = r.strndup value env.max_object_name_length w in
        elim copy [
          | none ↦ (none, w')
          | some name ↦ let (names, w'') = copy_items msg n (i + 1) w' in (prepend name names, w'')
        ]
  ]

  -- The allocation of `size` entries, the clearing of `length` of them and their filling: the result
  -- and the array, if its address is written; none if the clearing goes past the allocation.
  unfoldable pub fill_array : r.Msg → ℕ → ℕ → Action env.World (Option (RbusError × Option Array))
  fill_array msg size length = do
    there ← outside (r.try_malloc (bytes size))
    if there
        then (if ltb (bytes size) (bytes length) then return none else (do
          names ← outside (copy_items msg (rounds length) 0)
          return (elim names [
            | none ↦ some (error_general, some Array.released)
            | some names ↦ some (success, some (Array.entries (filled names (bytes size / 8))))
          ])))
        else return (some (error_insufficient_memory, none))
