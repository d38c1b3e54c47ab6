-- ===== src/Server/PublishLaws.antt =====
-- To whom rbus_publishEvent sends an event.
use rbuscore.Base.{
  ℕ, ◌<◌, ◌≡◌, refl, subst, sym, true, Bool-cases, Option-cases, ◌⊎◌, inl, inr, Option, none, some,
  List, [], ◌∷◌, arith, leb, Name, strlen, strnlen, strnlen_limit, strcmp_eq→eq,
}
use rbuscore.Rt.Vector.{Vector, IsVector, list_vector, vector-eq}
use rbuscore.Keyed.{named, Distinct, All-find_first, find_first_passes}
use rbuscore.Message.{Message, to_bytes}
use rbuscore.Core.Types.{RbusError, success, error_invalid_param, Event, Object}
use rbuscore.Core.State.{Bus}
use rbuscore.Core.Env.{Env}
use rbuscore.Remote.{send_message}
use rbuscore.Server.Objects.{get_object}
use rbuscore.Server.Events.{or_default, find_event}
use rbuscore.Server.Publish.{set_event_meta, send_to_all, publish_to_listeners, publish_event}
use rbuscore.Server.Valid.{
  ValidRegistry, object_key, object_of, event_in, event_of, listener_key, object_found, event_found,
}

module _ (env : Env) where
  -- One direct message to each receiver, in order, whatever the connection answers.
  abbrev pub delivered : ℕ → Message → Name → List Name → env.World → env.World
  delivered c m sender [] w = w
  delivered c m sender (receiver ∷ rest) w =
      let (data_bytes, n) = to_bytes m in
      delivered c m sender rest (env.send_binary_direct (some c) data_bytes n receiver sender w).1

  send_to_all_lem :
      (c : ℕ) (m : Message) (sender : Name) (ls : List Name) (s : Bus env.World)
      → s.connection ≡ some c
      → (send_to_all env m sender ls s).1 ≡ record s { world = delivered c m sender ls s.world }
  unfolding send_to_all send_message
  send_to_all_lem c m sender [] s connected = refl
  send_to_all_lem c m sender (l ∷ ls) s connected =
      rw connected (send_to_all_lem c m sender ls _ refl)

  -- An object of a name that is too long is not registered.
  long-none :
      (name : Name) (os : List Object)
      → ValidRegistry env os
      → leb env.max_object_name_length (strnlen name env.max_object_name_length) ≡ true
      → object_of name os ≡ none
  long-none name os h long = elim (Option-cases (object_of name os)) [
    | inl missing ↦ missing
    | inr (o, found) ↦
        let same : o.name ≡ name =
          strcmp_eq→eq o.name name (find_first_passes (named object_key name) os o found) in
        let short : strlen name < env.max_object_name_length =
          subst (λ n. strlen n < env.max_object_name_length) same
            (All-find_first _ _ os o found h.objects_short) in
        absurd (ground (arith, strnlen_limit name env.max_object_name_length))
  ]

  -- What rbus_publishEvent sends: the message with the event in its meta section.
  abbrev pub message : Name → Option Name → Message → Message
  message object_name event_name out =
      set_event_meta env.msgpack (or_default event_name) object_name 0 out

  publish_cases {κ} :
      (P : RbusError → env.World → Type κ) (c : ℕ) (name : Name) (event_name : Option Name)
      (out : Message) (s : Bus env.World)
      → s.connection ≡ some c
      → ValidRegistry env s.server_objects
      → (event_of name (or_default event_name) s.server_objects ≡ none
          → P error_invalid_param s.world)
      → ((e : Event)
          → event_of name (or_default event_name) s.server_objects ≡ some e
          → P success (delivered c (message name event_name out) name e.listeners s.world))
      → let (ret, s') = publish_event list_vector env name event_name out s in P ret s'.world
  unfolding publish_event publish_to_listeners get_object find_event
  publish_cases P c name en out s connected h unknown sent =
      rw (publish_event, connected)
        (elim (Bool-cases
          (leb env.max_object_name_length (strnlen name env.max_object_name_length))) [
            | inl long ↦ rw long (unknown (rw (long-none name s.server_objects h long)))
            | inr short ↦
                rw (short, object_found env name s.server_objects h)
                  (elim (Option-cases (object_of name s.server_objects)) [
                    | inl missing ↦ rw missing (unknown (rw missing))
                    | inr (o, found) ↦
                        rw
                          (
                            found,
                            event_found env (or_default en) o
                                (All-find_first _ _ _ o found h.objects_valid),
                          )
                          (elim (Option-cases (event_in (or_default en) o)) [
                            | inl absent ↦ rw absent (unknown (rw found absent))
                            | inr (e, there) ↦ rw there (
                                subst (λ s'. P success s'.world)
                                  (sym (
                                    send_to_all_lem c (message name en out) name e.listeners
                                      (record s { locked = true }) connected))
                                  (sent e (rw found there)))
                          ])
                  ])
          ])

null_event : {e : Event} → ◌≡◌ {A = Option Event} none (some e) → ⊥
null_event e = cc

listeners_once :
    (env : Env) (name event_name : Name) (os : List Object) (e : Event)
    → ValidRegistry env os
    → event_of name event_name os ≡ some e
    → Distinct listener_key e.listeners
listeners_once env name event_name os e h there = elim (Option-cases (object_of name os)) [
  | inl missing ↦ absurd (null_event (rw missing at there))
  | inr (o, found) ↦
      All-find_first _ _ _ e (rw found at there)
        (All-find_first _ _ os o found h.objects_valid).listeners_distinct
]

-- What rbus_publishEvent sends on a connected bus with a well-formed registry: if the object has the
-- event, the message with the event in its meta section goes to each listener of the event, in their
-- order and once each, whatever becomes of the single messages, and the call succeeds; otherwise
-- nothing is sent and the result is RTMESSAGE_BUS_ERROR_INVALID_PARAM.
pub publish_event-delivered :
    (v : Vector) (env : Env) (c : ℕ) (name : Name) (event_name : Option Name) (out : Message)
    (s : Bus env.World)
    → IsVector v
    → s.connection ≡ some c
    → ValidRegistry env s.server_objects
    → let (ret, s') = publish_event v env name event_name out s in
      ((e : Event) × (event_of name (or_default event_name) s.server_objects ≡ some e)
        × Distinct listener_key e.listeners
        × (ret ≡ success)
        × (s'.world ≡ delivered env c (message env name event_name out) name e.listeners s.world))
      ⊎ ((event_of name (or_default event_name) s.server_objects ≡ none)
          × (ret ≡ error_invalid_param)
          × (s'.world ≡ s.world))
publish_event-delivered v env c name en out s iv connected h = rw (vector-eq v iv) (
    publish_cases env
      (λ ret w.
        ((e : Event) × (event_of name (or_default en) s.server_objects ≡ some e)
          × Distinct listener_key e.listeners
          × (ret ≡ success)
          × (w ≡ delivered env c (message env name en out) name e.listeners s.world))
        ⊎ ((event_of name (or_default en) s.server_objects ≡ none)
            × (ret ≡ error_invalid_param)
            × (w ≡ s.world)))
      c name en out s connected h (λ unknown. inr (unknown, refl, refl))
      λ e there.
        inl (
          e,
          there,
          listeners_once env name (or_default en) s.server_objects e h there,
          refl,
          refl,
        ))
