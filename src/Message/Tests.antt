-- ===== src/Message/Tests.antt =====
-- The round trips at a concrete packer and concrete values.
use rbuscore.Base.{
  ◌++◌, ◌==◌, ℕ, ◌+◌, ◌≡◌, refl, Option, none, some, List, [], ◌∷◌, map, arith, codes, length, ltb,
  if◌then◌else◌,
}
use rbuscore.Rt.Msgpack.{Msgpack, Object}
use rbuscore.Message.Debug.{to_debug_string, print_items, add_item, with_space, trim_space}
use rbuscore.Message.DebugLaws.{text_size}
use rbuscore.Rt.Msgpack.Plain.{plain, plain-IsMsgpack, wire}
use rbuscore.Message.{
  Message, init, from_bytes, to_bytes, begin_meta_section_write, end_meta_section_write,
  begin_meta_section_read, end_meta_section_read,
}
use rbuscore.Message.RoundTrip.{Value, expected, write_all, read_all, wires, read_all-write_all}
use rbuscore.Message.Meta.{read_all-begin_meta_section_read}

-- An integer, a string, some bytes and a nested message.
abbrev sample : List Value
sample =
    Value.int32 7
    ∷ Value.string (some (codes "on"))
    ∷ Value.bytes (1 ∷ 2 ∷ [])
    ∷ Value.message (record { sbuf = 0xd3 ∷ 5 ∷ []; read_offset = 0; meta_offset = 0 })
    ∷ []

read_all-write_all_example :
    let (data_bytes, n) = to_bytes (write_all plain sample init) in
    read_all plain sample (from_bytes plain data_bytes n) ≡ map (λ v. some (expected v)) sample
unfolding wires wire plain-IsMsgpack
read_all-write_all_example =
    read_all-write_all plain plain-IsMsgpack sample
      (omega arith, (omega arith, (omega arith, (omega arith, tt)))) (omega arith)

-- A message with a body, of which the receiver has read two bytes.
abbrev body : Message
body = record { sbuf = 0xd3 ∷ 9 ∷ 0xd3 ∷ 8 ∷ []; read_offset = 0; meta_offset = 0 }

abbrev sent : Message
sent = end_meta_section_write plain (write_all plain sample (begin_meta_section_write plain body))

abbrev received : Message
received =
    let (data_bytes, n) = to_bytes sent in
    record (from_bytes plain data_bytes n) { read_offset = 2 }

read_all-begin_meta_section_read_example :
    let opened = begin_meta_section_read plain received in
    (read_all plain sample opened ≡ map (λ v. some (expected v)) sample)
    × ((end_meta_section_read plain opened).read_offset ≡ 2)
    × (opened.sbuf ≡ received.sbuf)
unfolding wires wire plain-IsMsgpack
read_all-begin_meta_section_read_example =
    read_all-begin_meta_section_read plain plain-IsMsgpack body sample 2
      (omega arith, (omega arith, (omega arith, (omega arith, tt)))) (omega arith) (omega arith)
      (omega arith)

-- A reader of one byte at a time: a text first, then numbers.
abbrev bytewise : Msgpack
bytewise = record plain {
  unpack_next = λ b k.
      if ltb k (length b)
      then (k + 1, some (if k == 0 then Object.str (65 ∷ []) else Object.positive_integer 7))
      else (k, none);
}

-- A printer that leaves a text out of account.
abbrev quote : ℕ → Object → List ℕ
quote room (Object.str bytes) = 34 ∷ (bytes ++ (34 ∷ []))
quote room o = if ltb 1 room then 55 ∷ [] else []

sized : Option Object → Option ℕ
sized none = none
sized (some o) = text_size o

quoted_digits : to_debug_string bytewise quote body ≡ some (34 ∷ 65 ∷ 34 ∷ codes " 7 7 7")
unfolding to_debug_string print_items add_item with_space trim_space
quoted_digits = refl
