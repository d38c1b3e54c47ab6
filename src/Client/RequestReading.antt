-- ===== src/Client/RequestReading.antt =====
-- A subscription request as the provider reads it: send_subscription_request on one side,
-- subscription_handler on the other.
use rbuscore.Base.{
  ◌+◌, ◌^◌, ◌<◌, ◌≡◌, refl, ◌∙◌, Bool, true, false, if◌then◌else◌, Option, none, some, List, [],
  ◌∷◌, ◌++◌, append-nil, append_assoc, arith, length, length-append, Name, IsText, All,
  c_string-append, strncmp_eq,
}
use rbuscore.Rt.Msgpack.{Msgpack, IsMsgpack, Buffer, Item, InRange}
use rbuscore.Rt.Vector.{Vector}
use rbuscore.Message.{Message, init, set_int32, get_string}
use rbuscore.Message.Reading.{string_at, int32_at, message_at}
use rbuscore.Message.RoundTrip.{Value, item, write, write_all, wires, write_all_lem}
use rbuscore.Message.Meta.{trailer}
use rbuscore.Core.Types.{max_method_name_length, method_subscribe, method_unsubscribe}
use rbuscore.Core.State.{Bus}
use rbuscore.Core.Env.{Env}
use rbuscore.Remote.Replies.{sent_bytes}
use rbuscore.Server.Events.{get_payload, subscription_handler, server_object_subscription_handler}
use rbuscore.Client.Request.{subscription_request, has_payload}

-- The method that a request calls.
abbrev pub request_method : Bool → Name
request_method activate = if activate then method_subscribe else method_unsubscribe

-- The payload as the provider gets it.
abbrev pub unread : Option Message → Option Message
unread none = none
unread (some p) = some (record { sbuf = p.sbuf; read_offset = 0; meta_offset = 0 })

abbrev pub payload_values : Option Message → List Value
payload_values none = []
payload_values (some p) = Value.message p ∷ []

-- What a request holds.
abbrev pub request_values : Name → Name → Option Message → List Value
request_values event address payload =
    Value.string (some event)
    ∷ Value.string (some address)
    ∷ Value.int32 (has_payload payload)
    ∷ payload_values payload

abbrev pub PayloadFits : Option Message → Type 0
PayloadFits none = Unit
PayloadFits (some p) = length p.sbuf < 2 ^ 32

flag_lem :
    (payload : Option Message)
    → PayloadFits payload
    → All (λ v. InRange (item v)) (Value.int32 (has_payload payload) ∷ payload_values payload)
flag_lem none fits = (omega arith, tt)
flag_lem (some p) fits = (omega arith, (fits, tt))

pub subscribes :
    (activate : Bool)
    → strncmp_eq max_method_name_length (request_method activate) method_subscribe ≡ activate
unfolding strncmp_eq
subscribes true = refl
subscribes false = refl

-- The flag and the payload behind it, where they stand in the buffer.
get_payload_lem :
    (v : Vector) (env : Env) (h : IsMsgpack env.msgpack) (payload : Option Message)
    (before after b : Buffer)
    → b
      ≡ before
        ++ (h.wire (Item.int32 (has_payload payload))
            ++ (wires env.msgpack h (payload_values payload) ++ after))
    → PayloadFits payload
    → get_payload v env (record { sbuf = b; read_offset = length before; meta_offset = 0 })
      ≡ unread payload
unfolding get_payload wires
get_payload_lem v env h none before after b place fits =
    rw (int32_at env.msgpack h 0 0 b before after place (omega arith))
get_payload_lem v env h (some p) before after b place fits =
    let flag = h.wire (Item.int32 1) in
    let place' : b ≡ (before ++ flag) ++ (h.wire (Item.bytes p.sbuf) ++ after) =
      place ∙ simp (append_assoc, append-nil) in
    rw
      (int32_at env.msgpack h 1 0 b before ((h.wire (Item.bytes p.sbuf) ++ []) ++ after) place
        (omega arith))
      (rw (message_at env.msgpack h p 0 b (before ++ flag) after place' fits))

module _ (mp : Msgpack) (h : IsMsgpack mp) (event address : Name) (payload : Option Message) where
  values_lem :
      length event + 1 < 2 ^ 31
      → length address + 1 < 2 ^ 31
      → PayloadFits payload
      → All (λ v. InRange (item v)) (request_values event address payload)
  values_lem es as_ fits = (
    omega (arith, length-append event (0 ∷ [])),
    (omega (arith, length-append address (0 ∷ [])), flag_lem payload fits),
  )

  pub subscription_request_lem :
      length event + 1 < 2 ^ 31
      → length address + 1 < 2 ^ 31
      → PayloadFits payload
      → subscription_request mp event (some address) payload
        ≡ record init { sbuf = wires mp h (request_values event address payload) }
  unfolding subscription_request
  subscription_request_lem es as_ fits =
      elim payload
        as (λ k.
          subscription_request mp event (some address) k
          ≡ write_all mp (request_values event address k) init) [
            | none ↦ unfold write_all write in refl
            | some p ↦ unfold write_all write in refl
          ]
      ∙ write_all_lem mp h (request_values event address payload) init (values_lem es as_ fits)

  -- The request behind the method, as it arrives.
  abbrev pub incoming : Name → Message
  incoming method = record {
    sbuf =
        sent_bytes mp h (record init { sbuf = wires mp h (request_values event address payload) })
          (Value.string (some method) ∷ []);
    read_offset = 0;
    meta_offset = 0;
  }

  module _ (method : Name) (event_text : IsText event) (address_text : IsText address)
      (event_short : length event + 1 < 2 ^ 31) (address_short : length address + 1 < 2 ^ 31)
      (fits : PayloadFits payload) where
    abbrev event_wire : Buffer
    event_wire = h.wire (Item.text (event ++ (0 ∷ [])))

    abbrev address_wire : Buffer
    address_wire = h.wire (Item.text (address ++ (0 ∷ [])))

    abbrev flag_wire : Buffer
    flag_wire = h.wire (Item.int32 (has_payload payload))

    -- What stands behind the flag.
    abbrev tail : Buffer
    tail =
        wires mp h (payload_values payload)
        ++ (wires mp h (Value.string (some method) ∷ [])
            ++ trailer (length (wires mp h (request_values event address payload))))

    -- The request, read as far as to the payload.
    abbrev behind_address : Message
    behind_address = record (incoming method) { read_offset = length (event_wire ++ address_wire) }

    read_event :
        get_string mp (incoming method)
        ≡ (record (incoming method) { read_offset = length event_wire }, some (event ++ (0 ∷ [])))
    unfolding wires
    read_event =
        string_at mp h (event ++ (0 ∷ [])) 0 (incoming method).sbuf []
          (address_wire ++ (flag_wire ++ tail)) (simp append_assoc)
          (omega (arith, length-append event (0 ∷ [])))

    read_address :
        get_string mp (record (incoming method) { read_offset = length event_wire })
        ≡ (behind_address, some (address ++ (0 ∷ [])))
    unfolding wires
    read_address =
        string_at mp h (address ++ (0 ∷ [])) 0 (incoming method).sbuf event_wire (flag_wire ++ tail)
          (simp append_assoc) (omega (arith, length-append address (0 ∷ [])))

-- subscription_handler reads the event, the address and the payload that the request was made of.
pub subscription_handler-subscription_request :
    (v : Vector) (env : Env) (h : IsMsgpack env.msgpack) (object event address : Name)
    (activate : Bool) (payload : Option Message) (s : Bus env.World)
    → IsText event
    → IsText address
    → length event + 1 < 2 ^ 31
    → length address + 1 < 2 ^ 31
    → PayloadFits payload
    → subscription_handler v env
        (request_method activate)
        (incoming env.msgpack h event address payload (request_method activate))
        object
        s
      ≡ (let (ret, s') =
            server_object_subscription_handler v env object event address activate
              (unread payload)
              s in
          (some (set_int32 env.msgpack ret init).0, s'))
unfolding subscription_handler wires
subscription_handler-subscription_request v env h object event address activate payload s et at es
      as_ fits =
    let method = request_method activate in
    let mp = env.msgpack in
    let payload_read =
      get_payload_lem v env h payload
        (event_wire mp h event address payload method et at es as_ fits
          ++ address_wire mp h event address payload method et at es as_ fits)
        (wires mp h (Value.string (some method) ∷ [])
          ++ trailer (length (wires mp h (request_values event address payload))))
        (incoming mp h event address payload method).sbuf (simp append_assoc) fits in
    let event_read = read_event mp h event address payload method et at es as_ fits in
    let address_read = read_address mp h event address payload method et at es as_ fits in
    rw (subscription_handler, event_read)
      (rw (event_read, address_read)
        (rw (
          event_read,
          address_read,
          payload_read,
          c_string-append event et,
          c_string-append address at,
          subscribes activate,
        )))
