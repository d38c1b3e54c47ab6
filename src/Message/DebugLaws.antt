-- ===== src/Message/DebugLaws.antt =====
-- rbusMessage_ToDebugString ends, and stays inside its buffer.
use rbuscore.Base.{ℕ, Option, none, ◌+◌, ◌≤◌, ◌<◌, ◌≡◌, some, List, length}
use rbuscore.Rt.Msgpack.{Msgpack, Buffer, Object}
use rbuscore.Message.{Message}

-- The size of an object that is printed as text, or none.
abbrev pub text_size : Object → Option ℕ
text_size (Object.str bytes) = some (length bytes)
text_size _ = none

-- The documented behaviour of msgpack-c: an object that is read lies inside the buffer, a text with all
-- its bytes, and the next read begins behind it. The printer leaves room for its NUL in the bytes that
-- it is given, if there are two or more; but a text is printed whole between quotes, whatever the room,
-- up to its first NUL.
pub record IsPrinter (mp : Msgpack) (print : ℕ → Object → List ℕ) : Type 0 where
  pub advances :
      (sbuf : Buffer) (offset : ℕ) (o : Object)
      → (mp.unpack_next sbuf offset).1 ≡ some o
      → (offset < (mp.unpack_next sbuf offset).0) × ((mp.unpack_next sbuf offset).0 ≤ length sbuf)
  pub inside :
      (sbuf : Buffer) (offset : ℕ) (bytes : List ℕ)
      → (mp.unpack_next sbuf offset).1 ≡ some (Object.str bytes)
      → length bytes ≤ length sbuf
  pub fits : (room : ℕ) (o : Object) → text_size o ≡ none → 1 < room → length (print room o) < room
  pub quoted :
      (room : ℕ) (bytes : List ℕ) → length (print room (Object.str bytes)) ≤ length bytes + 2
