-- ===== src/Rt/Msgpack/Plain.antt =====
-- A packer with the documented behaviour that theorems assume of msgpack, for the examples: tags as
-- in msgpack, but a length, an integer or a double is one entry of the buffer, of any size.
use rbuscore.Base.{
  ap, ℕ, ◌+◌, ◌-◌, ◌*◌, ◌^◌, ◌<◌, ◌≤◌, ◌≡◌, refl, Bool, ◌&&◌, Option, none, some, List, [], ◌∷◌,
  ◌++◌, arith, length, take, drop, drop-append, take-append, ltb, leb, ◌==◌, if◌then◌else◌,
}
use rbuscore.Rt.Msgpack.{
  Msgpack, IsMsgpack, Buffer, Object, Item, InRange, integer, sign_extend, read_back, big_endian,
}

abbrev pub is_wide : ℕ → Bool
is_wide w = leb (2 ^ 31) w && ltb w (2 ^ 32 - 2 ^ 15)

unfoldable pub wire : Item → Buffer
wire (Item.int32 w) = if is_wide w then 0xd2 ∷ big_endian w else 0xd3 ∷ sign_extend w ∷ []
wire (Item.int64 w) = 0xd3 ∷ w ∷ []
wire (Item.double w) = 0xcb ∷ w ∷ []
wire (Item.text bs) = 0xdb ∷ length bs ∷ bs
wire (Item.bytes bs) = 0xc6 ∷ length bs ∷ bs

-- The four bytes behind 0xd2.
abbrev pub from_big_endian : ℕ → List ℕ → Option Object
from_big_endian a (b ∷ c ∷ d ∷ r) =
    some (integer (sign_extend (a * 2 ^ 24 + b * 2 ^ 16 + c * 2 ^ 8 + d)))
from_big_endian a r = none

-- The object at the start of a buffer, and how much it takes.
abbrev pub object_at : Buffer → ℕ × Option Object
object_at (t ∷ x ∷ r) =
    if t == 0xd2
    then (5, from_big_endian x r)
    else if t == 0xd3
    then (2, some (integer x))
    else if t == 0xcb
    then (2, some (Object.float x))
    else if t == 0xdb
    then (x + 2, some (Object.str (take x r)))
    else if t == 0xc6
    then (x + 2, some (Object.bin (take x r)))
    else (0, none)
object_at b = (0, none)

unfoldable pub plain : Msgpack
unfolding wire
plain = record {
  pack_int32 = λ w b. (b ++ wire (Item.int32 w), 0);
  pack_int64 = λ w b. (b ++ wire (Item.int64 w), 0);
  pack_double = λ w b. (b ++ wire (Item.double w), 0);
  pack_str = λ n b. (b ++ (0xdb ∷ n ∷ []), 0);
  pack_str_body = λ v n b. (b ++ take n v, 0);
  pack_bin = λ n b. (b ++ (0xc6 ∷ n ∷ []), 0);
  pack_bin_body = λ v n b. (b ++ take n v, 0);
  sbuffer_write = λ v n b. b ++ take n v;
  unpack_next = λ b i. let (n, o) = object_at (drop i b) in (i + n, o);
}

pub object_at-wire :
    (x : Item) (after : Buffer)
    → InRange x
    → object_at (wire x ++ after) ≡ (length (wire x), some (read_back x))
unfolding wire
object_at-wire (Item.int32 w) a r = ground arith
object_at-wire (Item.int64 w) a r = refl
object_at-wire (Item.double w) a r = refl
object_at-wire (Item.text bs) a r = rw (take-append bs a) (ground arith)
object_at-wire (Item.bytes bs) a r = rw (take-append bs a) (ground arith)

pub object_at_wide :
    (w : ℕ) (after : Buffer)
    → w < 2 ^ 31
    → object_at ((0xd2 ∷ big_endian w) ++ after) ≡ (5, some (Object.positive_integer w))
object_at_wide w a r = ground arith

abbrev pub shifted : Buffer → ℕ × Option Object → ℕ × Option Object
shifted b (n, o) = (length b + n, o)

pub wide : (w : ℕ) → 2 ^ 31 ≤ w → w < 2 ^ 32 - 2 ^ 15 → wire (Item.int32 w) ≡ 0xd2 ∷ big_endian w
unfolding wire
wide w p q = ground arith

pub wire_short : (w : ℕ) → length (wire (Item.int32 w)) ≤ 5
unfolding wire
wire_short w = ground arith

unfoldable pub plain-IsMsgpack : IsMsgpack plain
unfolding wire plain
plain-IsMsgpack = record {
  wire = wire;
  str_header = λ n. 0xdb ∷ n ∷ [];
  bin_header = λ n. 0xc6 ∷ n ∷ [];
  wire-text = λ bs. refl;
  wire-bytes = λ bs. refl;
  wire-int32_wide = wide;
  wire-int32_short = wire_short;
  pack_int32_lem = λ w b. refl;
  pack_int64_lem = λ w b. refl;
  pack_double_lem = λ w b. refl;
  pack_str_lem = λ n b. refl;
  pack_str_body_lem = λ v n b. refl;
  pack_bin_lem = λ n b. refl;
  pack_bin_body_lem = λ v n b. refl;
  sbuffer_write_lem = λ v n b. refl;
  unpack_next_lem = λ x b a r. rw (drop-append b) (ap (shifted b) (object_at-wire x a r));
  unpack_next_wide = λ w b a r. rw (drop-append b) (ap (shifted b) (object_at_wide w a r));
}
