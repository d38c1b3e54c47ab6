-- ===== src/Rt/Msgpack.antt =====
-- The calls of msgpack-c in rbus-core/lib/rbus_message.c. A buffer is the list of its bytes. An int
-- is its two's complement bit pattern, a double its 64 bits; return codes are 0 for success.
pub mod Plain
use rbuscore.Base.{
  ℕ, ◌+◌, ◌-◌, ◌/◌, ◌%◌, ◌^◌, ◌≤◌, ◌<◌, ◌≡◌, Option, some, List, [], ◌∷◌, ◌++◌, length, take, ltb,
  if◌then◌else◌,
}

abbrev pub Buffer : Type 0
Buffer = List ℕ

-- `msgpack_object` by its `type`; the integers carry `via.i64`, the float the bits of `via.f64`.
pub data Object : Type 0 where
  positive_integer negative_integer float : ℕ → Object
  str bin : List ℕ → Object
  other : Object

pub record Msgpack : Type 0 where
  pub pack_int32 : ℕ → Buffer → Buffer × ℕ
  pub pack_int64 : ℕ → Buffer → Buffer × ℕ
  pub pack_double : ℕ → Buffer → Buffer × ℕ
  pub pack_str : ℕ → Buffer → Buffer × ℕ
  pub pack_str_body : List ℕ → ℕ → Buffer → Buffer × ℕ
  pub pack_bin : ℕ → Buffer → Buffer × ℕ
  pub pack_bin_body : List ℕ → ℕ → Buffer → Buffer × ℕ
  pub sbuffer_write : List ℕ → ℕ → Buffer → Buffer
  -- The bytes and an offset to the offset after the call, and the object unless the call failed.
  pub unpack_next : Buffer → ℕ → ℕ × Option Object

-- The values that rbuscore packs.
pub data Item : Type 0 where
  int32 int64 double : ℕ → Item
  text bytes : List ℕ → Item

-- The value's range as the C types give it: rbuscore keeps the length of a string in an int, and a
-- bin length is 32 bits wide.
abbrev pub InRange : Item → Type 0
InRange (Item.int32 w) = w < 2 ^ 32
InRange (Item.int64 w) = w < 2 ^ 64
InRange (Item.double w) = w < 2 ^ 64
InRange (Item.text bs) = length bs < 2 ^ 31
InRange (Item.bytes bs) = length bs < 2 ^ 32

-- The 64-bit pattern of a 32-bit integer.
abbrev pub sign_extend : ℕ → ℕ
sign_extend w = if ltb w (2 ^ 31) then w else w + (2 ^ 64 - 2 ^ 32)

-- An integer is read back by its sign.
abbrev pub integer : ℕ → Object
integer w = if ltb w (2 ^ 63) then Object.positive_integer w else Object.negative_integer w

abbrev pub read_back : Item → Object
read_back (Item.int32 w) = integer (sign_extend w)
read_back (Item.int64 w) = integer w
read_back (Item.double w) = Object.float w
read_back (Item.text bs) = Object.str bs
read_back (Item.bytes bs) = Object.bin bs

-- The four bytes of a 32-bit word, the highest first.
abbrev pub big_endian : ℕ → List ℕ
big_endian w = (w / 2 ^ 24) ∷ (w / 2 ^ 16 % 256) ∷ (w / 2 ^ 8 % 256) ∷ (w % 256) ∷ []

-- The documented behaviour: with memory at hand, packing appends the wire form of a value, and
-- reading at the place of a wire form gives the value and the place behind it. By the format's
-- specification an integer below -2^15 that fits 32 bits takes the byte 0xd2 and four more, and
-- these five bytes are read as the signed number that they hold;
-- no 32-bit integer takes more.
pub record IsMsgpack (mp : Msgpack) : Type 0 where
  pub wire : Item → List ℕ
  pub str_header : ℕ → List ℕ
  pub bin_header : ℕ → List ℕ
  pub wire-text : (bs : List ℕ) → wire (Item.text bs) ≡ str_header (length bs) ++ bs
  pub wire-bytes : (bs : List ℕ) → wire (Item.bytes bs) ≡ bin_header (length bs) ++ bs
  pub wire-int32_wide :
      (w : ℕ) → 2 ^ 31 ≤ w → w < 2 ^ 32 - 2 ^ 15 → wire (Item.int32 w) ≡ 0xd2 ∷ big_endian w
  pub wire-int32_short : (w : ℕ) → length (wire (Item.int32 w)) ≤ 5
  pub pack_int32_lem : (w : ℕ) (b : Buffer) → mp.pack_int32 w b ≡ (b ++ wire (Item.int32 w), 0)
  pub pack_int64_lem : (w : ℕ) (b : Buffer) → mp.pack_int64 w b ≡ (b ++ wire (Item.int64 w), 0)
  pub pack_double_lem : (w : ℕ) (b : Buffer) → mp.pack_double w b ≡ (b ++ wire (Item.double w), 0)
  pub pack_str_lem : (n : ℕ) (b : Buffer) → mp.pack_str n b ≡ (b ++ str_header n, 0)
  pub pack_str_body_lem :
      (v : List ℕ) (n : ℕ) (b : Buffer) → mp.pack_str_body v n b ≡ (b ++ take n v, 0)
  pub pack_bin_lem : (n : ℕ) (b : Buffer) → mp.pack_bin n b ≡ (b ++ bin_header n, 0)
  pub pack_bin_body_lem :
      (v : List ℕ) (n : ℕ) (b : Buffer) → mp.pack_bin_body v n b ≡ (b ++ take n v, 0)
  pub sbuffer_write_lem : (v : List ℕ) (n : ℕ) (b : Buffer) → mp.sbuffer_write v n b ≡ b ++ take n v
  pub unpack_next_lem :
      (x : Item) (before after : Buffer)
      → InRange x
      → mp.unpack_next (before ++ (wire x ++ after)) (length before)
        ≡ (length before + length (wire x), some (read_back x))
  pub unpack_next_wide :
      (w : ℕ) (before after : Buffer)
      → w < 2 ^ 31
      → mp.unpack_next (before ++ ((0xd2 ∷ big_endian w) ++ after)) (length before)
        ≡ (length before + 5, some (Object.positive_integer w))
