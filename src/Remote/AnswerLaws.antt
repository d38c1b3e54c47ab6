-- ===== src/Remote/AnswerLaws.antt =====
-- What rbus_pushObj and rbus_pullObj report of a provider's answer.
use rbuscore.Base.{
  ℕ, ◌<◌, ◌≡◌, ◌≢◌, ◌⊎◌, refl, ap, ◌∙◌, true, Bool-cases, inl, inr, some, none, map, arith, length,
  ◌==◌, if◌then◌else◌, Name, strlen,
}
use rbuscore.Rt.Msgpack.{IsMsgpack}
use rbuscore.Message.{Message, init}
use rbuscore.Message.RoundTrip.{expected, read_all}
use rbuscore.Core.Types.{
  success, method_setparametervalues, method_getparametervalues, fire_and_forget, Header,
}
use rbuscore.Core.State.{Bus, return}
use rbuscore.Core.Env.{Env}
use rbuscore.Remote.{or_malformed, kept, after_result, result_of, push_obj, pull_obj, send_response}
use rbuscore.Remote.Answers.{
  Outcome, result, values, response_of, answer_bytes, Answered, Fits, behind_result, result_lem,
  rest_lem, invoke_lem, answer_kept,
}

-- A result that a provider's callback reports to rbus_sendResponse is what rbus_pushObj returns on the
-- other side, RTMESSAGE_BUS_ERROR_UNSUPPORTED_METHOD where the callback has left no response. The
-- client is connected, the object's name is not too long, the connection hands the bytes of the
-- response on as they are, and the response is below the largest sizes.
pub push_obj-send_response :
    (env : Env) (h : IsMsgpack env.msgpack) (o : Outcome) (hdr : Header) (provider : Bus env.World)
    (c : ℕ) (name : Name) (message : Message) (timeout : ℕ) (s : Bus env.World) (w : env.World)
    → Fits env h o
    → hdr.is_request ≡ true
    → s.connection ≡ some c
    → strlen name < env.max_object_name_length
    → Answered env c method_setparametervalues message name timeout (answer_bytes env o) s.world w
    → ((send_response env hdr (response_of env o) provider).1.world
        ≡ (env.send_binary_response provider.connection hdr
            (answer_bytes env o)
            (length (answer_bytes env o))
            fire_and_forget
            provider.world).1)
      × (push_obj env name message timeout s ≡ (result o, record s { world = w }))
unfolding push_obj send_response
push_obj-send_response env h o hdr provider c name message timeout s w fits asked connected short
      answered =
    (
      rw asked (
          ap
            (λ n.
              (env.send_binary_response provider.connection (record hdr { is_request = true })
                (answer_bytes env o) n fire_and_forget provider.world).1)
            (answer_kept env h o fits)),
      ap
            (λ ((ret, response), s').
              ((if ret == success then return (result_of env ret response) else return ret) s'))
            (invoke_lem env h o c method_setparametervalues (some message) name timeout s w
              connected fits short answered)
          ∙ ap (λ r. (or_malformed r, record s { world = w }))
              (ap (λ p. p.1) (result_lem env h o fits)),
    )

-- What a provider's callback writes to its response is what rbus_pullObj finds on the other side: the
-- result is returned, and if it is success, the values behind it are read from the response that the
-- client gets, in order; otherwise the client gets none. The client is connected, the object's name
-- is not too long, the connection hands the bytes of the response on as they are, and the response is
-- below the largest sizes.
pub pull_obj-send_response :
    (env : Env) (h : IsMsgpack env.msgpack) (o : Outcome) (c : ℕ) (name : Name) (timeout : ℕ)
    (s : Bus env.World) (w : env.World)
    → Fits env h o
    → s.connection ≡ some c
    → strlen name < env.max_object_name_length
    → Answered env c method_getparametervalues init name timeout (answer_bytes env o) s.world w
    → let ((ret, response), s') = pull_obj env name timeout s in
      (ret ≡ result o)
      × (s' ≡ record s { world = w })
      × (((ret ≡ success)
            × ((rsp : Message) × (response ≡ some rsp)
                × (read_all env.msgpack (values o) rsp ≡ map (λ v. some (expected v)) (values o))))
          ⊎ ((ret ≢ success) × (response ≡ none)))
unfolding pull_obj
pull_obj-send_response env h o c name timeout s w fits connected short answered =
    let pulled : pull_obj env name timeout s
        ≡ (kept env (result o) (some (behind_result env h o)), record s { world = w }) =
      ap
        (λ ((ret, response), s').
          ((if ret == success
              then return (kept env (result_of env ret response) (after_result env response))
              else return (ret, response))
            s'))
        (invoke_lem env h o c method_getparametervalues none name timeout s w connected fits short
          answered)
      ∙ ap (λ (m, r). (kept env (or_malformed r) (some m), record s { world = w }))
          (result_lem env h o fits) in
    rw pulled (elim (Bool-cases (result o == success)) [
      | inl same ↦
          rw same
            (refl, refl, inl (ground arith, (behind_result env h o, refl, rest_lem env h o fits)))
      | inr other ↦ rw other (refl, refl, inr ((λ e. ground arith), refl))
    ])
