-- ===== src/Remote/Answers.antt =====
-- How the answer of a provider's callback reaches the client that asked: rbus_sendResponse on one
-- side, rbus_pushObj and rbus_pullObj on the other.
use rbuscore.Base.{
  ◌%◌, sym, subst, ℕ, ◌+◌, ◌^◌, ◌<◌, ◌≡◌, refl, ap, ◌∙◌, Bool-cases, inl, inr, Option, some, none,
  List, [], ◌∷◌, ◌++◌, append_assoc, map, arith, length, leb, All, Name, strlen, strnlen,
  strnlen_limit, strncmp_eq,
}
use rbuscore.Rt.Msgpack.{IsMsgpack, Item, InRange}
use rbuscore.Message.{Message, init, to_bytes, get_int32}
use rbuscore.Message.Reading.{arrived, get_int32_lem}
use rbuscore.Message.RoundTrip.{
  Value, item, expected, write, write_all, read_all, wires, write_all_lem, read_all_lem,
}
use rbuscore.Message.Meta.{meta_limit, trailer}
use rbuscore.Core.Types.{RbusError, RtError, success, error_unsupported_method, method_response}
use rbuscore.Core.State.{Bus}
use rbuscore.Core.Env.{Env}
use rbuscore.Remote.{
  set_message_method, or_new, or_unsupported, receive_response, invoke_remote_method, send_request,
}
use rbuscore.Remote.Replies.{
  sent_bytes, get_message_method-set_message_method, length-set_message_method,
}

-- What a callback leaves as its response: nothing, or a result and values behind it.
abbrev pub Outcome : Type 0
Outcome = Option (RbusError × List Value)

-- The result that the client is told.
abbrev pub result : Outcome → RbusError
result none = error_unsupported_method
result (some (ret, values)) = ret

abbrev pub values : Outcome → List Value
values none = []
values (some (ret, vs)) = vs

-- All that the response carries.
abbrev pub carried : Outcome → List Value
carried o = Value.int32 (result o) ∷ values o

module _ (env : Env) where
  -- The response as the callback has written it.
  abbrev pub response_of : Outcome → Option Message
  response_of none = none
  response_of (some (ret, vs)) = some (write_all env.msgpack (Value.int32 ret ∷ vs) init)

  -- The bytes of a response that is sent.
  abbrev pub answer_bytes : Outcome → List ℕ
  answer_bytes o =
      (to_bytes
        (set_message_method env.msgpack method_response (or_unsupported env (response_of o)))).0

  -- The connection answers a request with these bytes.
  abbrev pub Answered : ℕ → Name → Message → Name → ℕ → List ℕ → env.World → env.World → Type 0
  Answered c method message name timeout answer w w' =
      let (data_bytes, n) = to_bytes (set_message_method env.msgpack method message) in
      env.send_binary_request (some c) data_bytes n name timeout w ≡ ((RtError.ok, answer), w')

  module _ (h : IsMsgpack env.msgpack) (o : Outcome) where
    -- The values are in range, and the response is below the largest sizes.
    abbrev pub Fits : Type 0
    Fits =
        All (λ v. InRange (item v)) (carried o)
        × (length (wires env.msgpack h (carried o)) < meta_limit)
        × (length (wires env.msgpack h (carried o))
              + length (wires env.msgpack h (Value.string (some method_response) ∷ []))
              + 5
            < 2 ^ 32)

    -- The response as it arrives, unread.
    abbrev pub arriving : Message
    arriving = record {
      sbuf =
          sent_bytes env.msgpack h (record init { sbuf = wires env.msgpack h (carried o) })
            (Value.string (some method_response) ∷ []);
      read_offset = 0;
      meta_offset = 0;
    }

    written_all : or_unsupported env (response_of o) ≡ write_all env.msgpack (carried o) init
    unfolding write write_all
    written_all =
        elim o
          as (λ k. or_unsupported env (response_of k) ≡ write_all env.msgpack (carried k) init) [
            | none ↦ refl
            | some reported ↦ refl
          ]

    pub answer_kept : Fits → length (answer_bytes o) % 2 ^ 32 ≡ length (answer_bytes o)
    answer_kept (ranged, small, total) =
        subst
          (λ m.
            length (set_message_method env.msgpack method_response m).sbuf % 2 ^ 32
            ≡ length (set_message_method env.msgpack method_response m).sbuf)
          (sym (written_all ∙ write_all_lem env.msgpack h (carried o) init ranged))
          (length-set_message_method env.msgpack h method_response
            (record init { sbuf = wires env.msgpack h (carried o) }) (omega arith) small total)

    received_lem :
        Fits
        → receive_response env (
          RtError.ok,
          some (
              arrived env.msgpack (
                set_message_method env.msgpack method_response
                  (or_unsupported env (response_of o)))),
        )
          ≡ (success, some arriving)
    unfolding receive_response strncmp_eq
    received_lem (ranged, small, total) =
        rw (written_all, write_all_lem env.msgpack h (carried o) init ranged)
          (rw (
            get_message_method-set_message_method env.msgpack h method_response
              (record init { sbuf = wires env.msgpack h (carried o) }) (ground arith) (omega arith)
              small total))

    -- `*in` after the result has been read from it.
    abbrev pub behind_result : Message
    behind_result = record arriving { read_offset = length (h.wire (Item.int32 (result o))) }

    pub result_lem : Fits → get_int32 env.msgpack arriving ≡ (behind_result, some (result o))
    unfolding wires
    result_lem (ranged, small, total) =
        let rest =
          wires env.msgpack h (values o)
          ++ (wires env.msgpack h (Value.string (some method_response) ∷ [])
              ++ trailer (length (wires env.msgpack h (carried o)))) in
        let place : arriving.sbuf ≡ h.wire (Item.int32 (result o)) ++ rest =
          rw (append_assoc, append_assoc) in
        let z : 0 + length (h.wire (Item.int32 (result o)))
            ≡ length (h.wire (Item.int32 (result o))) =
          omega arith in
        rw place (
          get_int32_lem env.msgpack h (result o) 0 [] rest ranged.0
          ∙ ap
              (λ k. (
                record {
                  sbuf = h.wire (Item.int32 (result o)) ++ rest;
                  read_offset = k;
                  meta_offset = 0;
                },
                some (result o),
              ))
              z)

    module _ (c : ℕ) (method : Name) (message : Option Message) (name : Name) (timeout : ℕ)
        (s : Bus env.World) (w : env.World) (connected : s.connection ≡ some c) where
      through :
          strlen name < env.max_object_name_length
          → invoke_remote_method env name method message timeout s ≡ (
              let (reply, s') =
                send_request env
                  (set_message_method env.msgpack method (or_new message))
                  name
                  timeout
                  s in
              (receive_response env reply, s'))
      unfolding invoke_remote_method
      through short =
          elim (Bool-cases
            (leb env.max_object_name_length (strnlen name env.max_object_name_length))) [
              | inl long ↦ absurd (ground (arith, strnlen_limit name env.max_object_name_length))
              | inr fine ↦
                  let same : s ≡ record s { connection = some c } =
                    ap (λ k. record s { connection = k }) connected in
                  rw (connected, invoke_remote_method, fine)
                    (ap
                      (λ t.
                        let (reply, s') =
                          send_request env (set_message_method env.msgpack method (or_new message))
                            name timeout t in
                        (receive_response env reply, s'))
                      same)
            ]

      send_lem :
          Fits
          → Answered c method (or_new message) name timeout (answer_bytes o) s.world w
          → send_request env (set_message_method env.msgpack method (or_new message)) name timeout s
            ≡ (
              (
                RtError.ok,
                some (
                    arrived env.msgpack (
                      set_message_method env.msgpack method_response
                        (or_unsupported env (response_of o)))),
              ),
              record s { world = w },
            )
      unfolding send_request
      send_lem fits answered = rw connected (rw answered (rw (answer_kept fits)))

      pub invoke_lem :
          Fits
          → strlen name < env.max_object_name_length
          → Answered c method (or_new message) name timeout (answer_bytes o) s.world w
          → invoke_remote_method env name method message timeout s
            ≡ ((success, some arriving), record s { world = w })
      invoke_lem fits short answered =
          through short
          ∙ (ap (λ (reply, s'). (receive_response env reply, s')) (send_lem fits answered)
              ∙ ap (λ r. (r, record s { world = w })) (received_lem fits))

  -- What the client reads behind the result.
  pub rest_lem :
      (h : IsMsgpack env.msgpack) (o : Outcome)
      → Fits h o
      → read_all env.msgpack (values o) (behind_result h o)
        ≡ map (λ v. some (expected v)) (values o)
  unfolding wires
  rest_lem h o (ranged, small, total) =
      let mp = env.msgpack in
      let tail =
        wires mp h (Value.string (some method_response) ∷ [])
        ++ trailer (length (wires mp h (carried o))) in
      rw (append_assoc, append_assoc)
        (read_all_lem mp h (values o) (h.wire (Item.int32 (result o))) tail 0 ranged.1)
