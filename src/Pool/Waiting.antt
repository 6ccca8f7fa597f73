-- ===== src/Pool/Waiting.antt =====
-- `Connection::wait_connected` of pool.rs, next to whatever else happens to the link. Time is a number
-- of milliseconds.
pub mod Told
pub mod Awake
use snowpack.External.Notify.{Notify}
use snowpack.Prelude.{
  ℕ, ◌+◌, ◌≤◌, ◌≡◌, none, Bool, true, false, not, Result, ok, err, ltb, if◌then◌else◌,
}
use snowpack.Pool.{PeerLink, LinkState, NotReady, connected, reconnecting, not_ready, new}
use snowpack.Pool.Steps.{Step}

module _ (n : Notify) where
  -- Where a call stands: before `notified()`, before it takes the lock, in `timeout(remaining, notified)`,
  -- or at its end.
  pub data Phase : Type 0 where
    starting : Phase
    registered : n.Notified → Phase
    sleeping : n.Notified → Phase
    finished : Result (Unit {0}) NotReady → Phase

  pub record Waiter : Type 0 where
    pub deadline : ℕ
    pub phase : Phase

  unfoldable pub wait_connected : (now timeout : ℕ) → Waiter
  wait_connected now timeout = record { deadline = now + timeout; phase = starting }

module _ (Conn : Type 0) (n : Notify) where
  unfoldable pub register : PeerLink Conn n → Waiter n → Waiter n
  register l w = record w { phase = registered (n.notified l.notify) }

  -- `matches!(*state, LinkState::Connected { .. })`, with the lock held.
  unfoldable pub look_at : LinkState Conn → n.Notified → Waiter n → Waiter n
  look_at (connected c) t w = record w { phase = finished (ok tt) }
  look_at reconnecting t w = record w { phase = sleeping t }

  -- `timeout` polls the future first. What remains until the deadline is used up at the deadline.
  unfoldable pub poll : ℕ → PeerLink Conn n → n.Notified → Waiter n → Waiter n
  poll now l t w =
      if n.ready l.notify t
      then record w { phase = starting }
      else if ltb now w.deadline
      then record w { phase = sleeping t }
      else record w { phase = finished (err not_ready) }

  pub record World : Type 0 where
    pub link : PeerLink Conn n
    pub waiter : Waiter n
    pub now : ℕ

  -- The link goes on, time passes, or the waiter does.
  pub data Happens (E : Type 0) : World → World → Type 0 where
    links :
        (s : World) (l : PeerLink Conn n)
        → Step Conn E n s.link l
        → Happens E s (record s { link = l })
    passes : (s : World) (d : ℕ) → Happens E s (record s { now = s.now + d })
    registers :
        (s : World)
        → s.waiter.phase ≡ starting
        → Happens E s (record s { waiter = register s.link s.waiter })
    looks :
        (s : World) (t : n.Notified)
        → s.link.guard ≡ none
        → s.waiter.phase ≡ registered t
        → Happens E s (record s { waiter = look_at s.link.state t s.waiter })
    polls :
        (s : World) (t : n.Notified)
        → s.waiter.phase ≡ sleeping t
        → Happens E s (record s { waiter = poll s.now s.link t s.waiter })

  -- From a call on a link at any time of its life.
  pub data Run (E : Type 0) (s : World) : World → Type 0 where
    begin : Run E s s
    goes_on : {u v : World} → Run E s u → Happens E u v → Run E s v
