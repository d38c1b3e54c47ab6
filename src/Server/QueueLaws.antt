-- ===== src/Server/QueueLaws.antt =====
-- What onMessage does with requests, the vector of queued requests being never created.
use rbuscore.Base.{
  ℕ, zero, suc, ◌+◌, ◌-◌, ◌≤◌, ◌≡◌, refl, ap, ◌∙◌, ◌==◌, true, false, Bool-cases, inl, inr, none,
  List, arith, length, Name, if◌then◌else◌,
}
use rbuscore.Rt.Vector.{Vector, IsVector, list_vector, vector-eq}
use rbuscore.Message.{from_bytes}
use rbuscore.Core.Types.{Header}
use rbuscore.Core.State.{Bus}
use rbuscore.Core.Env.{Env}
use rbuscore.Server.Dispatch.{dispatch_method_call, drain, on_message}
use rbuscore.Server.QueueSteps.{Undisturbed, dispatch_keeps}

-- The loop over the queue does nothing.
drain-none :
    (env : Env) (fuel : ℕ) (s : Bus env.World)
    → s.queued_requests ≡ none
    → (drain list_vector env fuel s).1 ≡ s
unfolding drain
drain-none env zero s absent = refl
drain-none env (suc fuel) s absent =
    rw (absent, drain) (ap (λ q. record s { queued_requests = q }) absent)

-- The state while a request is handled that is no longer the first.
abbrev entered : {W : Type 0} → Bus W → Bus W
entered s = record s { stack_counter = s.stack_counter + 1 }

abbrev pub left : {W : Type 0} → Bus W → Bus W
left s = record s { stack_counter = s.stack_counter - 1 }

-- What the request itself does, where it is the only one.
abbrev pub dispatched :
    (env : Env) → Header → List ℕ → Name → Bus env.World → Vector → Bus env.World
dispatched env hdr data_bytes obj s v =
    (dispatch_method_call v env (from_bytes env.msgpack data_bytes (length data_bytes)) hdr obj
      (entered s)).1

module _ (env : Env) (fuel : ℕ) (hdr : Header) (data_bytes : List ℕ) (obj : Name)
    (s : Bus env.World) (absent : s.queued_requests ≡ none) where
  outer_lem :
      Undisturbed env
      → s.stack_counter ≡ 0
      → (on_message list_vector env fuel hdr data_bytes obj s).1
        ≡ left (dispatched env hdr data_bytes obj s list_vector)
  unfolding on_message
  outer_lem u idle =
      let first : ((s.stack_counter + 1) == 1) ≡ true = ground arith in
      let kept : (dispatched env hdr data_bytes obj s list_vector).queued_requests ≡ none =
        dispatch_keeps env u (from_bytes env.msgpack data_bytes (length data_bytes)) hdr obj
          (entered s)
        ∙ absent in
      rw (on_message, first)
        (elim (Bool-cases ((dispatched env hdr data_bytes obj s list_vector).stack_counter == 1)) [
          | inl back ↦
              rw back (
                ap left
                  (drain-none env fuel (dispatched env hdr data_bytes obj s list_vector) kept))
          | inr deep ↦ rw deep
        ])

  nested_lem : 1 ≤ s.stack_counter → (on_message list_vector env fuel hdr data_bytes obj s).1 ≡ s
  unfolding on_message
  nested_lem busy =
      let deep : ((s.stack_counter + 1) == 1) ≡ false = ground arith in
      let back : s.stack_counter + 1 - 1 ≡ s.stack_counter = omega arith in
      rw (on_message, deep) (rw (deep, absent, back))

-- What onMessage does with a request, whatever its arguments. The vector of queued requests is NULL,
-- as it is from the start on, and stays so. A request that comes in while no other is handled is
-- dispatched, and nothing else is; one that comes in while another is handled is lost: the state is as
-- before, so it is neither dispatched nor kept for later. The application's callbacks leave that
-- vector alone, and the vectors are as documented.
pub on_message-dispatch_method_call :
    (v : Vector) (env : Env) (fuel : ℕ) (hdr : Header) (data_bytes : List ℕ) (obj : Name)
    (s : Bus env.World)
    → IsVector v
    → Undisturbed env
    → s.queued_requests ≡ none
    → let s' = (on_message v env fuel hdr data_bytes obj s).1 in
      (s' ≡ (if s.stack_counter == 0 then left (dispatched env hdr data_bytes obj s v) else s))
      × (s'.queued_requests ≡ none)
on_message-dispatch_method_call v env fuel hdr data_bytes obj s iv u absent =
    rw (vector-eq v iv) (elim (Bool-cases (s.stack_counter == 0)) [
      | inl idle ↦
          let same = outer_lem env fuel hdr data_bytes obj s absent u (ground arith) in
          (
            rw idle same,
            ap (λ t. t.queued_requests) same
                ∙ dispatch_keeps env u (from_bytes env.msgpack data_bytes (length data_bytes)) hdr
                    obj (entered s)
                ∙ absent,
          )
      | inr busy ↦
          let same = nested_lem env fuel hdr data_bytes obj s absent (ground arith) in
          (rw busy same, ap (λ t. t.queued_requests) same ∙ absent)
    ])
