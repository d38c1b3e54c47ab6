-- ===== src/Message/RoundTrip.antt =====
-- Values written to a message by the setters and read by the getters of rbus_message.c.
use rbuscore.Base.{
  ℕ, ◌+◌, ◌%◌, ◌^◌, ◌<◌, ◌≡◌, refl, ap, Bool, true, Option, none, some, List, [], ◌∷◌, ◌++◌, map,
  append-nil, append_assoc, arith, length, length-append, take_all, All, Name,
}
use rbuscore.Rt.Msgpack.{Msgpack, IsMsgpack, Buffer, Item, InRange, sign_extend}
use rbuscore.Message.{
  Message, init, from_bytes, to_bytes, c_bytes, verify_pack_buffer, set_string, set_bytes,
  set_int32, set_int64, set_double, set_message, get_string, get_bytes, get_int32, get_int64,
  get_double, get_message,
}

-- An argument of a setter.
pub data Value : Type 0 where
  int32 int64 double : ℕ → Value
  string : Option Name → Value
  bytes : List ℕ → Value
  message : Message → Value

-- A result of a getter.
pub data Reading : Type 0 where
  int32 int64 double : ℕ → Reading
  string bytes : List ℕ → Reading
  message : Message → Reading

abbrev pub reading : {A : Type 0} → (A → Reading) → Message × Option A → Message × Option Reading
reading f (m, none) = (m, none)
reading f (m, some a) = (m, some (f a))

module _ (mp : Msgpack) where
  unfoldable pub write : Value → Message → Message × Bool
  write (Value.int32 w) = set_int32 mp w
  write (Value.int64 w) = set_int64 mp w
  write (Value.double w) = set_double mp w
  write (Value.string s) = set_string mp s
  write (Value.bytes bs) = set_bytes mp bs (length bs)
  write (Value.message m) = set_message mp m

  -- The getter of the type of the value that was written.
  unfoldable pub read_like : Value → Message → Message × Option Reading
  read_like (Value.int32 w) m = reading Reading.int32 (get_int32 mp m)
  read_like (Value.int64 w) m = reading Reading.int64 (get_int64 mp m)
  read_like (Value.double w) m = reading Reading.double (get_double mp m)
  read_like (Value.string s) m = reading Reading.string (get_string mp m)
  read_like (Value.bytes bs) m = reading Reading.bytes (get_bytes mp m)
  read_like (Value.message i) m = reading Reading.message (get_message mp m)

  unfoldable pub write_all : List Value → Message → Message
  write_all [] m = m
  write_all (v ∷ vs) m = write_all vs (write v m).0

  unfoldable pub read_all : List Value → Message → List (Option Reading)
  read_all [] m = []
  read_all (v ∷ vs) m = let (m', r) = read_like v m in r ∷ read_all vs m'

abbrev pub item : Value → Item
item (Value.int32 w) = Item.int32 w
item (Value.int64 w) = Item.int64 w
item (Value.double w) = Item.double w
item (Value.string s) = Item.text (c_bytes s)
item (Value.bytes bs) = Item.bytes bs
item (Value.message m) = Item.bytes m.sbuf

-- What the getter gives: a string comes with its NUL, a nested message unread from its start.
abbrev pub expected : Value → Reading
expected (Value.int32 w) = Reading.int32 w
expected (Value.int64 w) = Reading.int64 w
expected (Value.double w) = Reading.double w
expected (Value.string s) = Reading.string (c_bytes s)
expected (Value.bytes bs) = Reading.bytes bs
expected (Value.message m) =
    Reading.message (record { sbuf = m.sbuf; read_offset = 0; meta_offset = 0 })

module _ (mp : Msgpack) (h : IsMsgpack mp) where
  -- The wire form of a list of values.
  unfoldable pub wires : List Value → Buffer
  wires [] = []
  wires (v ∷ vs) = h.wire (item v) ++ wires vs

  pack_text :
      (v : List ℕ) (m : Message)
      → length v < 2 ^ 31
      → let n = sign_extend (length v % 2 ^ 32) in
        verify_pack_buffer (mp.pack_str n) (mp.pack_str_body v n) m
        ≡ (record m { sbuf = m.sbuf ++ h.wire (Item.text v) }, true)
  pack_text v m lt =
      let kept : sign_extend (length v % 2 ^ 32) ≡ length v = ground arith in
      rw kept (rw (h.pack_str_lem, h.pack_str_body_lem, take_all v, h.wire-text, append_assoc))

  pack_bytes :
      (v : List ℕ) (m : Message)
      → verify_pack_buffer (mp.pack_bin (length v)) (mp.pack_bin_body v (length v)) m
        ≡ (record m { sbuf = m.sbuf ++ h.wire (Item.bytes v) }, true)
  pack_bytes v m = rw (h.pack_bin_lem, h.pack_bin_body_lem, take_all v, h.wire-bytes, append_assoc)

  -- A setter appends the wire form of its value, and succeeds.
  pub write_lem :
      (v : Value) (m : Message)
      → InRange (item v)
      → write mp v m ≡ (record m { sbuf = m.sbuf ++ h.wire (item v) }, true)
  unfolding write set_int32 set_int64 set_double set_string set_bytes set_message
  write_lem (Value.int32 w) m r = rw h.pack_int32_lem
  write_lem (Value.int64 w) m r = rw h.pack_int64_lem
  write_lem (Value.double w) m r = rw h.pack_double_lem
  write_lem (Value.string s) m r = pack_text (c_bytes s) m r
  write_lem (Value.bytes bs) m r = pack_bytes bs m
  write_lem (Value.message i) m r = pack_bytes i.sbuf m

  -- A getter at the wire form of a value of its type gives the value and moves behind it.
  pub read_like_lem :
      (v : Value) (before after : Buffer) (k : ℕ)
      → InRange (item v)
      → read_like mp v (record {
        sbuf = before ++ (h.wire (item v) ++ after);
        read_offset = length before;
        meta_offset = k;
      })
        ≡ (
          record {
            sbuf = before ++ (h.wire (item v) ++ after);
            read_offset = length before + length (h.wire (item v));
            meta_offset = k;
          },
          some (expected v),
        )
  unfolding read_like get_int32 get_int64 get_double get_string get_bytes get_message from_bytes
  read_like_lem (Value.int32 w) b a k r = rw (h.unpack_next_lem (Item.int32 w) b a r) (ground arith)
  read_like_lem (Value.int64 w) b a k r = rw (h.unpack_next_lem (Item.int64 w) b a r) (ground arith)
  read_like_lem (Value.double w) b a k r = rw (h.unpack_next_lem (Item.double w) b a r)
  read_like_lem (Value.string s) b a k r = rw (h.unpack_next_lem (Item.text (c_bytes s)) b a r)
  read_like_lem (Value.bytes bs) b a k r = rw (h.unpack_next_lem (Item.bytes bs) b a r)
  read_like_lem (Value.message i) b a k r =
      rw (h.unpack_next_lem (Item.bytes i.sbuf) b a r) (rw (h.sbuffer_write_lem, take_all i.sbuf))

  -- Reading on from a place gives the values that are written there.
  pub read_all_lem :
      (vs : List Value) (before after : Buffer) (k : ℕ)
      → All (λ v. InRange (item v)) vs
      → read_all mp vs (record {
        sbuf = before ++ (wires vs ++ after);
        read_offset = length before;
        meta_offset = k;
      })
        ≡ map (λ v. some (expected v)) vs
  unfolding read_all wires
  read_all_lem [] b a k r = refl
  read_all_lem (v ∷ vs) b a k r =
      let w = h.wire (item v) in
      rw
        (
          append_assoc w (wires vs) a,
          read_like_lem v b (wires vs ++ a) k r.0,
          ← append_assoc b w (wires vs ++ a),
          ← length-append b w,
        )
        (ap (◌∷◌ (some (expected v))) (read_all_lem vs (b ++ w) a k r.1))

  pub write_all_lem :
      (vs : List Value) (m : Message)
      → All (λ v. InRange (item v)) vs
      → write_all mp vs m ≡ record m { sbuf = m.sbuf ++ wires vs }
  unfolding write_all wires
  write_all_lem [] m r = rw append-nil
  write_all_lem (v ∷ vs) m r =
      rw (write_lem v m r.0)
        (rw (write_all_lem vs (record m { sbuf = m.sbuf ++ h.wire (item v) }) r.1, append_assoc))

-- Values that setters write to a new message reach the other side: after `rbusMessage_ToBytes` and
-- `rbusMessage_FromBytes` the getters of the same types give them in order, strings with their NUL.
-- The whole message is shorter than 2^32 bytes, and each string, with its NUL, than 2^31.
pub read_all-write_all :
    (mp : Msgpack) (h : IsMsgpack mp) (vs : List Value)
    → All (λ v. InRange (item v)) vs
    → length (wires mp h vs) < 2 ^ 32
    → let (data_bytes, n) = to_bytes (write_all mp vs init) in
      read_all mp vs (from_bytes mp data_bytes n) ≡ map (λ v. some (expected v)) vs
unfolding from_bytes
read_all-write_all mp h vs r lt =
    let kept : length (wires mp h vs) % 2 ^ 32 ≡ length (wires mp h vs) = omega arith in
    rw (write_all_lem mp h vs init r, kept, h.sbuffer_write_lem, take_all (wires mp h vs))
      (rw (← append-nil (wires mp h vs)) (read_all_lem mp h vs [] [] 0 r))
