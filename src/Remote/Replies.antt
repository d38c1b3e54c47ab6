-- ===== src/Remote/Replies.antt =====
-- What a client of rbus_core.c reads from the messages that a provider of rbus_core.c sends.
use rbuscore.Base.{
  ℕ, ◌+◌, ◌%◌, ◌^◌, ◌<◌, ◌≡◌, ap, subst, sym, ◌∙◌, Option, some, List, [], ◌∷◌, ◌++◌, append-nil,
  append_assoc, arith, length, length-append, Name, IsText, c_string-append,
}
use rbuscore.Rt.Msgpack.{Msgpack, IsMsgpack, Buffer}
use rbuscore.Message.{Message, from_bytes, get_string, end_meta_section_read}
use rbuscore.Message.RoundTrip.{Value, item, write, write_all, wires}
use rbuscore.Message.Meta.{meta_limit, trailer, sent_lem, opened_lem, whole_kept}
use rbuscore.Message.Reading.{arrived, get_string_lem}
use rbuscore.Remote.{set_message_method, get_message_method, as_name}

module _ (mp : Msgpack) (h : IsMsgpack mp) where
  -- What arrives of a message with values in its meta section.
  abbrev pub sent_bytes : Message → List Value → Buffer
  sent_bytes m vs = (m.sbuf ++ wires mp h vs) ++ trailer (length m.sbuf)

  -- The method that was set is the one that is read, and the reader is at the start again.
  pub get_message_method-set_message_method :
      (method : Name) (m : Message)
      → IsText method
      → length method + 1 < 2 ^ 31
      → length m.sbuf < meta_limit
      → let vs = Value.string (some method) ∷ [] in
        length m.sbuf + length (wires mp h vs) + 5 < 2 ^ 32
        → get_message_method mp (arrived mp (set_message_method mp method m))
          ≡ (record { sbuf = sent_bytes m vs; read_offset = 0; meta_offset = 0 }, some method)
  unfolding set_message_method get_message_method write write_all end_meta_section_read wires
      from_bytes
  get_message_method-set_message_method method m text short lt total =
      let vs = Value.string (some method) ∷ [] in
      let whole = sent_bytes m vs in
      let finish : Message × Option (List ℕ) → Message × Option Name =
        λ (m', s). (end_meta_section_read mp m', as_name s) in
      let place : whole
          ≡ m.sbuf ++ (h.wire (item (Value.string (some method))) ++ trailer (length m.sbuf)) =
        rw (append-nil, append_assoc) in
      let shorter : length (method ++ (0 ∷ [])) < 2 ^ 31 =
        omega (arith, length-append method (0 ∷ [])) in
      ap (λ m'. get_message_method mp (arrived mp m')) (sent_lem mp h m vs (shorter, tt) lt)
      ∙ (ap (λ m'. finish (get_string mp m')) (opened_lem mp h m vs 0 lt (omega arith) total)
          ∙ rw place (
              rw
                (get_string_lem mp h (method ++ (0 ∷ [])) 0 m.sbuf (trailer (length m.sbuf))
                  shorter)
                (rw (c_string-append method text))))

  -- The size of a message with its method survives the cut to 32 bits.
  pub length-set_message_method :
      (method : Name) (m : Message)
      → length method + 1 < 2 ^ 31
      → length m.sbuf < meta_limit
      → length m.sbuf + length (wires mp h (Value.string (some method) ∷ [])) + 5 < 2 ^ 32
      → length (set_message_method mp method m).sbuf % 2 ^ 32
        ≡ length (set_message_method mp method m).sbuf
  unfolding set_message_method write write_all
  length-set_message_method method m short lt total =
      let vs = Value.string (some method) ∷ [] in
      let shorter : length (method ++ (0 ∷ [])) < 2 ^ 31 =
        omega (arith, length-append method (0 ∷ [])) in
      subst (λ m'. length m'.sbuf % 2 ^ 32 ≡ length m'.sbuf)
        (sym (sent_lem mp h m vs (shorter, tt) lt)) (whole_kept mp h m vs total)
