-- ===== src/Remote/Tests.antt =====
-- The theorems on requests and their answers at a concrete connection.
use rbuscore.Base.{◌≡◌, ◌≢◌, ◌⊎◌, refl, true, none, some, [], ◌∷◌, map, length, arith, codes}
use rbuscore.Rt.Msgpack.Plain.{plain, plain-IsMsgpack, wire}
use rbuscore.Message.{Message, init}
use rbuscore.Message.RoundTrip.{Value, wires, expected, read_all}
use rbuscore.Core.Types.{RtError, Header, success, error_unsupported_method, fire_and_forget}
use rbuscore.Core.Env.{Env}
use rbuscore.Core.Example.{example_env, lamp_bus, quiet}
use rbuscore.Remote.{push_obj, pull_obj, send_response}
use rbuscore.Remote.Answers.{Outcome, values, Fits, answer_bytes, response_of}
use rbuscore.Remote.AnswerLaws.{push_obj-send_response, pull_obj-send_response}

-- The result 0 and two values behind it.
abbrev brightness : Outcome
brightness = some (success, Value.string (some (codes "lamp")) ∷ Value.int32 7 ∷ [])

-- A connection that answers every request with the response of an outcome.
abbrev answering : Outcome → Env
answering o = record example_env {
  send_binary_request = λ c b n topic t w. ((RtError.ok, answer_bytes example_env o), w);
}

abbrev asked : Header
asked = record { topic = codes "lamp"; reply_topic = codes "inbox"; is_request = true }

brightness-Fits : Fits (answering brightness) plain-IsMsgpack brightness
unfolding wires wire plain-IsMsgpack
brightness-Fits = ((omega arith, (omega arith, (omega arith, tt))), omega arith, omega arith)

push_obj-send_response_example :
    ((send_response (answering none) asked (response_of (answering none) none) lamp_bus).1.world
      ≡ ((answering none).send_binary_response
          (some 1)
          asked
          (answer_bytes (answering none) none)
          (length (answer_bytes (answering none) none))
          fire_and_forget
          quiet).1)
    × (push_obj (answering none) (codes "lamp") init 1000 lamp_bus
        ≡ (error_unsupported_method, lamp_bus))
unfolding wires wire plain-IsMsgpack
push_obj-send_response_example =
    push_obj-send_response (answering none) plain-IsMsgpack none asked lamp_bus 1 (codes "lamp")
      init 1000 lamp_bus quiet ((omega arith, tt), omega arith, omega arith) refl refl (omega arith)
      refl

pull_obj-send_response_example :
    let ((ret, response), s') = pull_obj (answering brightness) (codes "lamp") 1000 lamp_bus in
    (ret ≡ success)
    × (s' ≡ lamp_bus)
    × (((ret ≡ success)
          × ((rsp : Message) × (response ≡ some rsp)
              × (read_all plain (values brightness) rsp
                  ≡ map (λ v. some (expected v)) (values brightness))))
        ⊎ ((ret ≢ success) × (response ≡ none)))
pull_obj-send_response_example =
    pull_obj-send_response (answering brightness) plain-IsMsgpack brightness 1 (codes "lamp") 1000
      lamp_bus quiet brightness-Fits refl (omega arith) refl
