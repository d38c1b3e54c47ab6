-- ===== src/Message.antt =====
-- rbus-core/lib/rbus_message.c: a message is a msgpack buffer with a read offset, and a meta section
-- at its end whose place the last five bytes hold. The reference count, the scratch object `upk` and
-- the release of memory are not modelled; `rbusMessage_ToDebugString` is in Message/Debug.
-- A getter returns `none` where the source returns RT_FAIL, a setter `false`.
pub mod Meta
pub mod Reading
pub mod Debug
pub mod DebugLaws
pub mod RoundTrip
pub mod Tests
use rbuscore.Base.{
  ℕ, zero, suc, ◌+◌, ◌-◌, ◌/◌, ◌%◌, ◌^◌, Bool, true, false, Option, none, some, List, [], ◌∷◌, ◌++◌,
  length, ltb, ◌==◌, if◌then◌else◌, Name,
}
use rbuscore.Rt.Msgpack.{Msgpack, Buffer, Object, sign_extend}

-- `struct _rbusMessage`. `meta_offset` is an int, so its 32-bit pattern.
pub record Message : Type 0 where
  pub sbuf : Buffer
  pub read_offset : ℕ
  pub meta_offset : ℕ

-- rbusMessage_Init
abbrev pub init : Message
init = record { sbuf = []; read_offset = 0; meta_offset = 0 }

-- `x | 0x80000000` on 32 bits
abbrev pub set_top_bit : ℕ → ℕ
set_top_bit x = if ltb (x % 2 ^ 32) (2 ^ 31) then x % 2 ^ 32 + 2 ^ 31 else x % 2 ^ 32

-- `data[i] &= 0x7F`
abbrev pub clear_top_bit : Buffer → ℕ → Buffer
clear_top_bit [] i = []
clear_top_bit (x ∷ b) zero = (x % 128) ∷ b
clear_top_bit (x ∷ b) (suc i) = x ∷ clear_top_bit b i

-- VERIFY_UNPACK for each type that is asked for.
abbrev pub as_str : Option Object → Option (List ℕ)
as_str (some (Object.str v)) = some v
as_str _ = none

abbrev pub as_bin : Option Object → Option (List ℕ)
as_bin (some (Object.bin v)) = some v
as_bin _ = none

abbrev pub as_float : Option Object → Option ℕ
as_float (some (Object.float v)) = some v
as_float _ = none

abbrev pub as_integer : Option Object → Option ℕ
as_integer (some (Object.positive_integer v)) = some v
as_integer (some (Object.negative_integer v)) = some v
as_integer _ = none

-- The cast to int32_t keeps the low 32 bits.
abbrev pub cast_int32 : Option ℕ → Option ℕ
cast_int32 none = none
cast_int32 (some w) = some (w % 2 ^ 32)

-- A failed read leaves `section_offset` at 0.
abbrev pub section_offset : Option ℕ → ℕ
section_offset none = 0
section_offset (some w) = w

-- What `rbusMessage_SetString` packs: the terminating NUL included; NULL is the empty string.
abbrev pub c_bytes : Option Name → List ℕ
c_bytes none = 0 ∷ []
c_bytes (some v) = v ++ (0 ∷ [])

-- rbusMessage_ToBytes: the size goes into a uint32_t.
abbrev pub to_bytes : Message → Buffer × ℕ
to_bytes m = (m.sbuf, length m.sbuf % 2 ^ 32)

-- VERIFY_PACK
abbrev pub verify_pack : (Buffer → Buffer × ℕ) → Message → Message × Bool
verify_pack pack m = let (b, code) = pack m.sbuf in (record m { sbuf = b }, code == 0)

-- VERIFY_PACK_BUFFER: the body is packed only if the header was.
abbrev pub verify_pack_buffer :
    (Buffer → Buffer × ℕ) → (Buffer → Buffer × ℕ) → Message → Message × Bool
verify_pack_buffer header body m =
    let (m', done) = verify_pack header m in if done then verify_pack body m' else (m', false)

module _ (mp : Msgpack) where
  -- rbusMessage_FromBytes
  unfoldable pub from_bytes : Buffer → ℕ → Message
  from_bytes buff n = record { sbuf = mp.sbuffer_write buff n []; read_offset = 0; meta_offset = 0 }

  -- rbusMessage_SetString: the length goes through an int, and from there into a size_t.
  unfoldable pub set_string : Option Name → Message → Message × Bool
  set_string value =
      let s = c_bytes value in
      let n = sign_extend (length s % 2 ^ 32) in
      verify_pack_buffer (mp.pack_str n) (mp.pack_str_body s n)

  -- rbusMessage_SetBytes
  unfoldable pub set_bytes : List ℕ → ℕ → Message → Message × Bool
  set_bytes bs n = verify_pack_buffer (mp.pack_bin n) (mp.pack_bin_body bs n)

  -- rbusMessage_SetInt32
  unfoldable pub set_int32 : ℕ → Message → Message × Bool
  set_int32 w = verify_pack (mp.pack_int32 w)

  -- rbusMessage_SetInt64
  unfoldable pub set_int64 : ℕ → Message → Message × Bool
  set_int64 w = verify_pack (mp.pack_int64 w)

  -- rbusMessage_SetDouble
  unfoldable pub set_double : ℕ → Message → Message × Bool
  set_double w = verify_pack (mp.pack_double w)

  -- rbusMessage_SetMessage
  unfoldable pub set_message : Message → Message → Message × Bool
  set_message item =
      verify_pack_buffer (mp.pack_bin (length item.sbuf))
        (mp.pack_bin_body item.sbuf (length item.sbuf))

  -- VERIFY_UNPACK_NEXT_ITEM: the message after the read, and the object.
  abbrev pub unpack_next_item : Message → Message × Option Object
  unpack_next_item m =
      let (offset, object) = mp.unpack_next m.sbuf m.read_offset in
      (record m { read_offset = offset }, object)

  -- rbusMessage_GetString: the bytes that the returned pointer points to.
  unfoldable pub get_string : Message → Message × Option (List ℕ)
  get_string m = let (m', o) = unpack_next_item m in (m', as_str o)

  -- rbusMessage_GetBytes
  unfoldable pub get_bytes : Message → Message × Option (List ℕ)
  get_bytes m = let (m', o) = unpack_next_item m in (m', as_bin o)

  -- rbusMessage_GetInt32
  unfoldable pub get_int32 : Message → Message × Option ℕ
  get_int32 m = let (m', o) = unpack_next_item m in (m', cast_int32 (as_integer o))

  -- rbusMessage_GetInt64
  unfoldable pub get_int64 : Message → Message × Option ℕ
  get_int64 m = let (m', o) = unpack_next_item m in (m', as_integer o)

  -- rbusMessage_GetDouble
  unfoldable pub get_double : Message → Message × Option ℕ
  get_double m = let (m', o) = unpack_next_item m in (m', as_float o)

  abbrev pub inner_message : Option (List ℕ) → Option Message
  unfolding from_bytes
  inner_message none = none
  inner_message (some bs) = some (from_bytes bs (length bs))

  -- rbusMessage_GetMessage
  unfoldable pub get_message : Message → Message × Option Message
  unfolding from_bytes
  get_message m = let (m', o) = unpack_next_item m in (m', inner_message (as_bin o))

  -- rbusMessage_BeginMetaSectionWrite: a size_t goes into an int.
  unfoldable pub begin_meta_section_write : Message → Message
  begin_meta_section_write m = record m { meta_offset = length m.sbuf % 2 ^ 32 }

  -- rbusMessage_EndMetaSectionWrite
  unfoldable pub end_meta_section_write : Message → Message
  end_meta_section_write m =
      let (b, _) = mp.pack_int32 (set_top_bit m.meta_offset) m.sbuf in
      record m { sbuf = clear_top_bit b (length b - 4) }

  -- rbusMessage_BeginMetaSectionRead: `size - 5` on size_t, and an int into a size_t.
  unfoldable pub begin_meta_section_read : Message → Message
  unfolding get_int32
  begin_meta_section_read m =
      let (m', o) = get_int32 (record m {
        read_offset = (length m.sbuf + 2 ^ 64 - 5) % 2 ^ 64;
        meta_offset = m.read_offset % 2 ^ 32;
      }) in
      record m' { read_offset = sign_extend (section_offset o) }

  -- rbusMessage_EndMetaSectionRead
  unfoldable pub end_meta_section_read : Message → Message
  end_meta_section_read m = record m { read_offset = sign_extend m.meta_offset }
