-- ===== src/External/Notify.antt =====
-- `tokio::sync::Notify`.
use snowpack.Prelude.{◌≡◌, Bool, true}

-- `notified` makes a future, `notify_waiters` changes the state, and `ready` says whether awaiting
-- the future ends at once.
pub record Notify : Type 1 where
  pub State : Type 0
  pub Notified : Type 0
  pub new : State
  pub notified : State → Notified
  pub notify_waiters : State → State
  pub ready : State → Notified → Bool

-- A future receives the wake-up of each `notify_waiters` from its creation on, awaited or not.
pub record IsLawful (n : Notify) : Type 1 where
  pub Created : n.State → n.Notified → Type 0
  pub created-notified : (s : n.State) → Created s (n.notified s)
  pub created-notify_waiters :
      (s : n.State) (t : n.Notified) → Created s t → Created (n.notify_waiters s) t
  pub ready-notify_waiters :
      (s : n.State) (t : n.Notified) → Created s t → n.ready (n.notify_waiters s) t ≡ true
