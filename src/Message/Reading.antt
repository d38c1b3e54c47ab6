-- ===== src/Message/Reading.antt =====
-- What arrives of a message, and single values read from the place where they are written.
use rbuscore.Base.{ℕ, ◌+◌, ◌^◌, ◌<◌, ◌≡◌, some, List, ◌++◌, arith, length, length-append, take_all}
use rbuscore.Rt.Msgpack.{Msgpack, IsMsgpack, Buffer, Item}
use rbuscore.Message.{Message, from_bytes, to_bytes, get_string, get_int32, get_message}

-- What arrives of a message that is sent.
abbrev pub arrived : Msgpack → Message → Message
arrived mp m = let (data_bytes, n) = to_bytes m in from_bytes mp data_bytes n

module _ (mp : Msgpack) (h : IsMsgpack mp) where
  pub get_string_lem :
      (v : List ℕ) (k : ℕ) (before after : Buffer)
      → length v < 2 ^ 31
      → let b = before ++ (h.wire (Item.text v) ++ after) in
        get_string mp (record { sbuf = b; read_offset = length before; meta_offset = k }) ≡ (
          record {
            sbuf = b;
            read_offset = length before + length (h.wire (Item.text v));
            meta_offset = k;
          },
          some v,
        )
  unfolding get_string
  get_string_lem v k b c lt = rw (h.unpack_next_lem (Item.text v) b c lt)

  pub get_int32_lem :
      (a k : ℕ) (before after : Buffer)
      → a < 2 ^ 32
      → let b = before ++ (h.wire (Item.int32 a) ++ after) in
        get_int32 mp (record { sbuf = b; read_offset = length before; meta_offset = k }) ≡ (
          record {
            sbuf = b;
            read_offset = length before + length (h.wire (Item.int32 a));
            meta_offset = k;
          },
          some a,
        )
  unfolding get_int32
  get_int32_lem a k b c lt = rw (h.unpack_next_lem (Item.int32 a) b c lt) (ground arith)

  -- The same reads where the buffer is known to hold the value at a place.
  pub string_at :
      (v : List ℕ) (k : ℕ) (b before after : Buffer)
      → b ≡ before ++ (h.wire (Item.text v) ++ after)
      → length v < 2 ^ 31
      → get_string mp (record { sbuf = b; read_offset = length before; meta_offset = k }) ≡ (
        record { sbuf = b; read_offset = length (before ++ h.wire (Item.text v)); meta_offset = k },
        some v,
      )
  string_at v k b before after place lt =
      rw (place, length-append before (h.wire (Item.text v))) (get_string_lem v k before after lt)

  pub int32_at :
      (a k : ℕ) (b before after : Buffer)
      → b ≡ before ++ (h.wire (Item.int32 a) ++ after)
      → a < 2 ^ 32
      → get_int32 mp (record { sbuf = b; read_offset = length before; meta_offset = k }) ≡ (
        record {
          sbuf = b;
          read_offset = length (before ++ h.wire (Item.int32 a));
          meta_offset = k;
        },
        some a,
      )
  int32_at a k b before after place lt =
      rw (place, length-append before (h.wire (Item.int32 a))) (get_int32_lem a k before after lt)

  -- A nested message comes unread from its start.
  pub message_at :
      (p : Message) (k : ℕ) (b before after : Buffer)
      → b ≡ before ++ (h.wire (Item.bytes p.sbuf) ++ after)
      → length p.sbuf < 2 ^ 32
      → get_message mp (record { sbuf = b; read_offset = length before; meta_offset = k }) ≡ (
        record {
          sbuf = b;
          read_offset = length (before ++ h.wire (Item.bytes p.sbuf));
          meta_offset = k;
        },
        some (record { sbuf = p.sbuf; read_offset = 0; meta_offset = 0 }),
      )
  unfolding get_message from_bytes
  message_at p k b before after place lt =
      rw (place, length-append before (h.wire (Item.bytes p.sbuf)))
        (rw (h.unpack_next_lem (Item.bytes p.sbuf) before after lt)
          (rw (h.sbuffer_write_lem, take_all p.sbuf)))
