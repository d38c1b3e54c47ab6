-- ===== src/Client/EventMeta.antt =====
-- The meta section of an event, as the publisher writes it and the subscriber reads it.
use rbuscore.Base.{
  ℕ, ◌+◌, ◌%◌, ◌^◌, subst, sym, All, ◌<◌, ◌≡◌, ap, ◌∙◌, Option, some, List, [], ◌∷◌, ◌++◌,
  append-nil, append_assoc, arith, length, length-append, Name, IsText, c_string-append,
}
use rbuscore.Rt.Msgpack.{Msgpack, IsMsgpack, Item, InRange}
use rbuscore.Message.{
  Message, from_bytes, get_string, get_int32, begin_meta_section_read, end_meta_section_read,
}
use rbuscore.Message.Reading.{arrived, string_at, int32_at}
use rbuscore.Message.RoundTrip.{Value, item, write, write_all, wires}
use rbuscore.Message.Meta.{meta_limit, trailer, sent_lem, opened_lem, whole_kept}
use rbuscore.Remote.{as_name}
use rbuscore.Remote.Replies.{sent_bytes}
use rbuscore.Server.Publish.{set_event_meta}
use rbuscore.Client.Receive.{flagged, get_event_meta}

-- What the section of an event holds.
abbrev pub section : Name → Name → ℕ → List Value
section event_name object_name flag =
    Value.string (some event_name) ∷ Value.string (some object_name) ∷ Value.int32 flag ∷ []

module _ (mp : Msgpack) (h : IsMsgpack mp) where
  -- The three reads.
  abbrev read_section : Message → Message × Option (Option Name × ℕ)
  read_section m =
      let (m', event_name) = get_string mp m in
      let (m'', object_name) = get_string mp m' in
      let (m''', flag) = get_int32 mp m'' in
      (end_meta_section_read mp m''', flagged (as_name event_name) flag)

  module _ (event_name object_name : Name) (flag : ℕ) (m : Message) (event_text : IsText event_name)
      (event_short : length event_name + 1 < 2 ^ 31)
      (object_short : length object_name + 1 < 2 ^ 31) (flag_small : flag < 2 ^ 32) where
    read_section_lem :
        read_section (record {
          sbuf = sent_bytes mp h m (section event_name object_name flag);
          read_offset = length m.sbuf;
          meta_offset = 0;
        })
        ≡ (
          record {
            sbuf = sent_bytes mp h m (section event_name object_name flag);
            read_offset = 0;
            meta_offset = 0;
          },
          some (some event_name, flag),
        )
    unfolding wires end_meta_section_read
    read_section_lem =
        let we = h.wire (Item.text (event_name ++ (0 ∷ []))) in
        let wo = h.wire (Item.text (object_name ++ (0 ∷ []))) in
        let wf = h.wire (Item.int32 flag) in
        let t = trailer (length m.sbuf) in
        let whole = sent_bytes mp h m (section event_name object_name flag) in
        let e : length (event_name ++ (0 ∷ [])) < 2 ^ 31 =
          omega (arith, length-append event_name (0 ∷ [])) in
        let o : length (object_name ++ (0 ∷ [])) < 2 ^ 31 =
          omega (arith, length-append object_name (0 ∷ [])) in
        let at_event : whole ≡ m.sbuf ++ (we ++ ((wo ++ wf) ++ t)) =
          simp (append-nil, append_assoc) in
        let at_object : whole ≡ (m.sbuf ++ we) ++ (wo ++ (wf ++ t)) =
          simp (append-nil, append_assoc) in
        let at_flag : whole ≡ ((m.sbuf ++ we) ++ wo) ++ (wf ++ t) =
          simp (append-nil, append_assoc) in
        rw (string_at mp h (event_name ++ (0 ∷ [])) 0 whole m.sbuf ((wo ++ wf) ++ t) at_event e) (
          rw (string_at mp h (object_name ++ (0 ∷ [])) 0 whole (m.sbuf ++ we) (wf ++ t) at_object o)
            (rw (int32_at mp h flag 0 whole ((m.sbuf ++ we) ++ wo) t at_flag flag_small)
              (rw (c_string-append event_name event_text))))

    ranged : All (λ v. InRange (item v)) (section event_name object_name flag)
    ranged = (
      omega (arith, length-append event_name (0 ∷ [])),
      (omega (arith, length-append object_name (0 ∷ [])), (flag_small, tt)),
    )

    -- The size of an event's message survives the cut to 32 bits.
    pub length-set_event_meta :
        length m.sbuf < meta_limit
        → length m.sbuf + length (wires mp h (section event_name object_name flag)) + 5 < 2 ^ 32
        → length (set_event_meta mp event_name object_name flag m).sbuf % 2 ^ 32
          ≡ length (set_event_meta mp event_name object_name flag m).sbuf
    unfolding set_event_meta write write_all
    length-set_event_meta small total =
        let vs = section event_name object_name flag in
        subst (λ m'. length m'.sbuf % 2 ^ 32 ≡ length m'.sbuf)
          (sym (sent_lem mp h m vs ranged small)) (whole_kept mp h m vs total)

    pub get_event_meta-set_event_meta :
        length m.sbuf < meta_limit
        → length m.sbuf + length (wires mp h (section event_name object_name flag)) + 5 < 2 ^ 32
        → get_event_meta mp (arrived mp (set_event_meta mp event_name object_name flag m)) ≡ (
          record {
            sbuf = sent_bytes mp h m (section event_name object_name flag);
            read_offset = 0;
            meta_offset = 0;
          },
          some (some event_name, flag),
        )
    unfolding set_event_meta get_event_meta write write_all from_bytes begin_meta_section_read
    get_event_meta-set_event_meta small total =
        let vs = section event_name object_name flag in
        ap (λ m'. get_event_meta mp (arrived mp m')) (sent_lem mp h m vs ranged small)
        ∙ (ap read_section (opened_lem mp h m vs 0 small (omega arith) total) ∙ read_section_lem)
