-- ===== src/Pool.antt =====
-- The link to one peer of pool.rs: its state behind the lock, the reconnect tasks and the guard. An
-- `async` function is cut where it waits; what lies between two waits is one operation. The metrics and
-- the log are left out.
pub mod Steps
pub mod Invariant
pub mod Tasks
pub mod Lineage
pub mod Fresh
pub mod Backoff
pub mod Connector
pub mod Target
pub mod Peers
pub mod Waiting
use snowpack.External.Notify.{Notify}
use snowpack.Prelude.{
  ℕ, ◌*◌, min, List, [], ◌∷◌, Bool, true, false, Option, none, some, Result, ok, err, if◌then◌else◌,
}

-- `Err(NotReady)`.
pub data NotReady : Type 0 where
  not_ready : NotReady

module _ (Conn : Type 0) where
  -- `Conn` is the two halves of a connection.
  pub data LinkState : Type 0 where
    connected : Conn → LinkState
    reconnecting : LinkState

  -- A `reconnect_task`, with its backoff in milliseconds: it tries, it sleeps, or it has a connection
  -- and waits for the lock.
  pub data ReconnectTask : Type 0 where
    trying : (backoff : ℕ) → ReconnectTask
    sleeping : (backoff : ℕ) → ReconnectTask
    storing : Conn → ReconnectTask

  -- The guard holds the lock as long as it is there; every other holder lets it go within its
  -- operation.
  pub record Guard : Type 0 where
    pub committed : Bool

  unfoldable pub reconnect_task : ReconnectTask
  reconnect_task = trying 50

  -- The result of `try_connect`.
  unfoldable pub tried : {E : Type 0} → ℕ → Result Conn E → ReconnectTask
  tried backoff (ok c) = storing c
  tried backoff (err e) = sleeping backoff

  unfoldable pub slept : ℕ → ReconnectTask
  slept backoff = trying (min (backoff * 2) 30000)

  -- `Guard::transport`: the halves, or, as `none`, `unreachable!`.
  unfoldable pub transport : LinkState → Option Conn
  transport (connected c) = some c
  transport reconnecting = none

module _ (Conn : Type 0) (n : Notify) where
  pub record PeerLink : Type 0 where
    pub state : LinkState Conn
    pub guard : Option (Guard Conn)
    pub tasks : List (ReconnectTask Conn)
    pub notify : n.State

  unfoldable pub new : PeerLink
  unfolding reconnect_task
  new = record {
    state = reconnecting;
    guard = none;
    tasks = reconnect_task Conn ∷ [];
    notify = n.new;
  }

  -- What a task does once it has the lock; the task ends with it, and wakes the
  -- waiters while it still holds the lock.
  unfoldable pub stored : Conn → List (ReconnectTask Conn) → PeerLink → PeerLink
  stored c others l = record l {
    state = connected c;
    tasks = others;
    notify = n.notify_waiters l.notify;
  }

  -- `acquire`, once it has the lock.
  unfoldable pub acquire_locked :
      LinkState Conn → PeerLink → Result (Guard Conn) NotReady × PeerLink
  acquire_locked (connected c) l =
      (ok (record { committed = false }), record l { guard = some (record { committed = false }) })
  acquire_locked reconnecting l = (err not_ready, l)

  unfoldable pub acquire : PeerLink → Result (Guard Conn) NotReady × PeerLink
  unfolding acquire_locked
  acquire l = acquire_locked l.state l

  -- `Drop for Guard`, and the lock is released.
  unfoldable pub drop_guard : Guard Conn → PeerLink → PeerLink
  unfolding reconnect_task
  drop_guard g l =
      if g.committed
      then record l { guard = none }
      else record l { state = reconnecting; guard = none; tasks = reconnect_task Conn ∷ l.tasks }

  -- `commit` takes the guard by value, and so drops it.
  unfoldable pub commit : Guard Conn → PeerLink → PeerLink
  unfolding drop_guard
  commit g l = drop_guard (record g { committed = true }) l
