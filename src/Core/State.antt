-- ===== src/Core/State.antt =====
-- The global variables of rbus_core.c, and sequencing over them.
--
-- `world` is all that lies outside the library. The mutex is an error-checking one, of one thread:
-- locking it again fails and leaves it locked, unlocking it when it is not held fails and leaves it
-- free, and the source looks at neither result. So the calls set and clear `locked`.
use rbuscore.Base.{ℕ, Bool, true, false, Option, List, Name}
use rbuscore.Core.Types.{Object, ClientSubscription, Request}

pub record Bus (W : Type 0) : Type 0 where
  pub world : W
  pub connection : Option ℕ
  pub daemon_address : Name
  pub mutex_init : Bool
  pub locked : Bool
  pub server_objects : List Object
  pub run_event_client_dispatch : Bool
  pub event_subscriptions : List ClientSubscription
  -- `none` is NULL, as at the start: nothing creates this vector.
  pub queued_requests : Option (List Request)
  pub stack_counter : ℕ
  pub advisory_listener_installed : Bool
  pub client_disconnect_callback : Option ℕ
  pub master_event_callback : Option ℕ
  pub master_event_user_data : ℕ

-- A call that reads and changes the state.
abbrev pub Action : Type 0 → Type 0 → Type 0
Action W A = Bus W → A × Bus W

module _ {W : Type 0} {A : Type 0} where
  abbrev pub return : A → Action W A
  return a s = (a, s)

  abbrev pub gets : (Bus W → A) → Action W A
  gets f s = (f s, s)

abbrev pub modify : {W : Type 0} → (Bus W → Bus W) → Action W (Unit {0})
modify f s = (tt, f s)

infixl 5 ◌>>=◌ ◌>>◌
abbrev pub ◌>>=◌ : {W A B : Type 0} → Action W A → (A → Action W B) → Action W B
◌>>=◌ m f s = let (a, s') = m s in f a s'

abbrev pub ◌>>◌ : {W A B : Type 0} → Action W A → Action W B → Action W B
m >> k = m >>= λ _. k

abbrev pub lock : {W : Type 0} → Action W (Unit {0})
lock s = (tt, record s { locked = true })

abbrev pub unlock : {W : Type 0} → Action W (Unit {0})
unlock s = (tt, record s { locked = false })
