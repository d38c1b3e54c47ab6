-- ===== src/Message/Meta.antt =====
-- The meta section of rbus_message.c: values at the end of a message, behind which five bytes say
-- where they begin.
use rbuscore.Base.{
  ℕ, suc, ◌+◌, ◌-◌, ◌%◌, ◌^◌, ◌<◌, ◌≡◌, ap, some, List, [], ◌∷◌, ◌++◌, map, append_assoc, arith,
  length, length-append, take_all, All,
}
use rbuscore.Rt.Msgpack.{Msgpack, IsMsgpack, Buffer, InRange, big_endian}
use rbuscore.Message.{
  Message, from_bytes, to_bytes, set_top_bit, clear_top_bit, get_int32, begin_meta_section_write,
  end_meta_section_write, begin_meta_section_read, end_meta_section_read,
}
use rbuscore.Message.RoundTrip.{
  Value, item, expected, write_all, read_all, wires, write_all_lem, read_all_lem,
}

-- The largest size at which the packer still gives the masked offset five bytes.
abbrev pub meta_limit : ℕ
meta_limit = 2 ^ 31 - 2 ^ 15

clear_top_bit-append :
    (xs ys : Buffer) (k : ℕ) → clear_top_bit (xs ++ ys) (length xs + k) ≡ xs ++ clear_top_bit ys k
clear_top_bit-append [] ys k = ap (clear_top_bit ys) (omega arith)
clear_top_bit-append (x ∷ xs) ys k =
    let e : suc (length xs) + k ≡ suc (length xs + k) = omega arith in
    rw e (ap (◌∷◌ x) (clear_top_bit-append xs ys k))

-- Setting the top bit, packing five bytes and clearing it again leaves the offset itself.
mask_unmask :
    (w : ℕ) → w < 2 ^ 31 → clear_top_bit (0xd2 ∷ big_endian (w + 2 ^ 31)) 1 ≡ 0xd2 ∷ big_endian w
mask_unmask w h = ground arith

-- The five bytes that end the meta section.
abbrev pub trailer : ℕ → Buffer
trailer w = 0xd2 ∷ big_endian w

module _ (mp : Msgpack) (h : IsMsgpack mp) where
  pack_offset :
      (w : ℕ) (b : Buffer)
      → w < meta_limit
      → mp.pack_int32 (set_top_bit w) b ≡ (b ++ (0xd2 ∷ big_endian (w + 2 ^ 31)), 0)
  pack_offset w b lt =
      let e : set_top_bit w ≡ w + 2 ^ 31 = ground arith in
      rw (e, h.pack_int32_lem, h.wire-int32_wide (w + 2 ^ 31) (omega arith) (omega arith))

  pub end_meta_section_write_lem :
      (m : Message)
      → m.meta_offset < meta_limit
      → end_meta_section_write mp m ≡ record m { sbuf = m.sbuf ++ trailer m.meta_offset }
  unfolding end_meta_section_write
  end_meta_section_write_lem m lt =
      let packed = 0xd2 ∷ big_endian (m.meta_offset + 2 ^ 31) in
      let place : length (m.sbuf ++ packed) - 4 ≡ length m.sbuf + 1 =
        omega (arith, length-append m.sbuf packed) in
      rw (
        pack_offset m.meta_offset m.sbuf lt,
        place,
        clear_top_bit-append m.sbuf packed 1,
        mask_unmask m.meta_offset (omega arith),
      )

  pub begin_meta_section_read_lem :
      (before : Buffer) (w offset k : ℕ)
      → w < 2 ^ 31
      → offset < 2 ^ 31
      → length before + 5 < 2 ^ 64
      → begin_meta_section_read mp
          (record { sbuf = before ++ trailer w; read_offset = offset; meta_offset = k })
        ≡ record { sbuf = before ++ trailer w; read_offset = w; meta_offset = offset }
  unfolding begin_meta_section_read get_int32
  begin_meta_section_read_lem b w o k lw lo lb =
      let place : (length (b ++ trailer w) + 2 ^ 64 - 5) % 2 ^ 64 ≡ length b =
        omega (arith, length-append b (trailer w)) in
      rw (place, h.unpack_next_wide w b [] lw) (ground arith)

module _ (mp : Msgpack) (h : IsMsgpack mp) (m : Message) (vs : List Value) where
  -- What the two calls with the values between them leave in the message.
  pub sent_lem :
      All (λ v. InRange (item v)) vs
      → length m.sbuf < meta_limit
      → end_meta_section_write mp (write_all mp vs (begin_meta_section_write mp m)) ≡ record {
        sbuf = (m.sbuf ++ wires mp h vs) ++ trailer (length m.sbuf);
        read_offset = m.read_offset;
        meta_offset = length m.sbuf;
      }
  unfolding begin_meta_section_write
  sent_lem r lt =
      let e : length m.sbuf % 2 ^ 32 ≡ length m.sbuf = omega arith in
      let filled : Message = record {
        sbuf = m.sbuf ++ wires mp h vs;
        read_offset = m.read_offset;
        meta_offset = length m.sbuf;
      } in
      rw (e, write_all_lem mp h vs _ r, end_meta_section_write_lem mp h filled lt)

  -- The size of the whole message survives the cut to 32 bits.
  pub whole_kept :
      length m.sbuf + length (wires mp h vs) + 5 < 2 ^ 32
      → let whole = (m.sbuf ++ wires mp h vs) ++ trailer (length m.sbuf) in
        length whole % 2 ^ 32 ≡ length whole
  whole_kept total =
      let inner = m.sbuf ++ wires mp h vs in
      omega (
        arith,
        total,
        length-append inner (trailer (length m.sbuf)),
        length-append m.sbuf (wires mp h vs),
      )

  -- What the receiver has after opening the section.
  pub opened_lem :
      (offset : ℕ)
      → length m.sbuf < meta_limit
      → offset < 2 ^ 31
      → length m.sbuf + length (wires mp h vs) + 5 < 2 ^ 32
      → let whole = (m.sbuf ++ wires mp h vs) ++ trailer (length m.sbuf) in
        begin_meta_section_read mp
          (record (from_bytes mp whole (length whole % 2 ^ 32)) { read_offset = offset })
        ≡ record { sbuf = whole; read_offset = length m.sbuf; meta_offset = offset }
  unfolding from_bytes
  opened_lem o lt lo total =
      let whole = (m.sbuf ++ wires mp h vs) ++ trailer (length m.sbuf) in
      let kept : length whole % 2 ^ 32 ≡ length whole = whole_kept total in
      rw (kept, h.sbuffer_write_lem, take_all whole)
        (begin_meta_section_read_lem mp h (m.sbuf ++ wires mp h vs) (length m.sbuf) o 0
          (omega arith) lo (omega (arith, length-append m.sbuf (wires mp h vs))))

-- Values written between `rbusMessage_BeginMetaSectionWrite` and `rbusMessage_EndMetaSectionWrite`
-- are read back by the receiver after `rbusMessage_BeginMetaSectionRead`, whatever the message held
-- before them and wherever the receiver has read so far; `rbusMessage_EndMetaSectionRead` then puts
-- the receiver's read offset back. The condition is on the sizes: the meta section begins below
-- 2^31 - 2^15, the whole message is shorter than 2^32 bytes, each string, with its NUL, than 2^31, and
-- the read offset is below 2^31.
pub read_all-begin_meta_section_read :
    (mp : Msgpack) (h : IsMsgpack mp) (m : Message) (vs : List Value) (offset : ℕ)
    → All (λ v. InRange (item v)) vs
    → length m.sbuf < meta_limit
    → offset < 2 ^ 31
    → length m.sbuf + length (wires mp h vs) + 5 < 2 ^ 32
    → let sent = end_meta_section_write mp (write_all mp vs (begin_meta_section_write mp m)) in
      let (data_bytes, n) = to_bytes sent in
      let received = record (from_bytes mp data_bytes n) { read_offset = offset } in
      let opened = begin_meta_section_read mp received in
      (read_all mp vs opened ≡ map (λ v. some (expected v)) vs)
      × ((end_meta_section_read mp opened).read_offset ≡ offset)
      × (opened.sbuf ≡ received.sbuf)
unfolding from_bytes end_meta_section_read
read_all-begin_meta_section_read mp h m vs o r lt lo total =
    let whole = (m.sbuf ++ wires mp h vs) ++ trailer (length m.sbuf) in
    rw (sent_lem mp h m vs r lt, opened_lem mp h m vs o lt lo total)
      (
        rw append_assoc (read_all_lem mp h vs m.sbuf (trailer (length m.sbuf)) o r),
        ground arith,
        rw (whole_kept mp h m vs total) (rw (h.sbuffer_write_lem, take_all whole)),
      )
