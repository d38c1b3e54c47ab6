-- ===== src/Message/Debug.antt =====
-- rbusMessage_ToDebugString of rbus_message.c: the items of a message as a text in a buffer of fixed
-- size, cut with an ellipsis. A result `none` stands for a write past the end of that buffer, or for
-- a loop that has not ended.
use rbuscore.Base.{
  ℕ, zero, suc, ◌+◌, ◌-◌, ◌%◌, ◌^◌, Bool, false, ◌||◌, Option, none, some, List, [], ◌∷◌, ◌++◌,
  length, take, ltb, leb, ◌==◌, if◌then◌else◌,
}
use rbuscore.Rt.Msgpack.{Msgpack, Buffer, Object}
use rbuscore.Message.{Message}

-- ALLOC_INCREMENT
abbrev pub buffer_size : ℕ
buffer_size = 2048

-- `(int)size > size - write_offset - 3`: a text that is too long with its quotes and its end.
abbrev pub is_long : ℕ → Object → Bool
is_long write_offset (Object.str bytes) =
    let n = length bytes % 2 ^ 32 in
    if ltb n (2 ^ 31)
    then ltb buffer_size (n + write_offset + 3)
    else ltb (buffer_size + 2 ^ 32) (n + write_offset + 3)
is_long write_offset o = false

-- The condition of the truncation.
abbrev pub is_cut : ℕ → Object → Bool
is_cut write_offset o = leb buffer_size (write_offset + 1) || is_long write_offset o

-- The truncation, which counts the NUL behind the ellipsis as a part of the text.
unfoldable pub with_ellipsis : List ℕ → List ℕ
with_ellipsis text =
    (if leb buffer_size (length text + 4) then take (buffer_size - 4) text else text)
    ++ (46 ∷ 46 ∷ 46 ∷ 0 ∷ [])

-- The space behind an item, if there is room for it and a NUL.
unfoldable pub with_space : List ℕ → List ℕ
with_space text = if ltb (length text + 1) buffer_size then text ++ (32 ∷ []) else text

-- The last space is trimmed.
unfoldable pub trim_space : List ℕ → List ℕ
trim_space [] = []
trim_space (c ∷ []) = if c == 32 then [] else c ∷ []
trim_space (c ∷ d ∷ rest) = c ∷ trim_space (d ∷ rest)

-- msgpack_object_print_buffer, a parameter: the characters that it writes for an object where there
-- are so many bytes, before the NUL that it writes too.
module _ (mp : Msgpack) (print : ℕ → Object → List ℕ) where
  unfoldable pub add_item : Object → List ℕ → Option (List ℕ)
  add_item o text =
      let printed = print (buffer_size - length text) o in
      if ltb buffer_size (length text + length printed + 1)
      then none
      else some (with_space (text ++ printed))

  -- The loop over the items from an offset on, with the text so far.
  unfoldable pub print_items : Buffer → ℕ → ℕ → List ℕ → Option (List ℕ)
  print_items sbuf zero offset text = none
  print_items sbuf (suc fuel) offset text =
      let (offset', item) = mp.unpack_next sbuf offset in
      elim item [
        | none ↦ some text
        | some o ↦
            if is_cut (length text) o then some (with_ellipsis text) else elim (add_item o text) [
              | none ↦ none
              | some text' ↦ print_items sbuf fuel offset' text'
            ]
      ]

  abbrev pub trimmed : Option (List ℕ) → Option (List ℕ)
  trimmed none = none
  trimmed (some text) = some (trim_space text)

  -- rbusMessage_ToDebugString: the text, of which `*n` is the length. The read offset is saved and
  -- put back, so the message stays as it is.
  unfoldable pub to_debug_string : Message → Option (List ℕ)
  to_debug_string m = trimmed (print_items m.sbuf (length m.sbuf + 1) 0 [])
