-- ===== src/Examples/Pool.antt =====
-- A concrete link, from its creation to its first guard, with a waiter, and a connection to a target.
use snowpack.External.Notify.{Notify, IsLawful}
use snowpack.Prelude.{
  List, Bytes, ℕ, ◌+◌, ◌≤◌, ltb, none, arith, [], ◌∷◌, false, some, Result, ok, err, ◌≡◌, refl,
}
use snowpack.NodeId.{NodeId}
use snowpack.Auth.{AuthHeader, check_node_id, into_details}
use snowpack.Auth.Header.{IsValid}
use snowpack.Handshake.{HandshakeContext, send, into_split}
use snowpack.Handshake.Entry.{connect}
use snowpack.Packets.Error.{Error}
use snowpack.Handshake.Peer.{Authenticated}
use snowpack.Pool.{
  PeerLink, Guard, connected, reconnecting, new, reconnect_task, tried, stored, acquire,
  acquire_locked, transport, drop_guard, slept, trying,
}
use snowpack.Pool.Steps.{Reach, here, then_step, try, sleep, store, acquires, exchange}
use snowpack.Pool.Invariant.{IsSound, IsSound-Reach, transport-some, reconnecting-Reach}
use snowpack.Pool.Lineage.{Attempt, Lineage}
use snowpack.Pool.Fresh.{drop_guard-Lineage}
use snowpack.Pool.Backoff.{failures, failures-reconnect_task}
use snowpack.Pool.Waiting.{
  World, Run, begin, goes_on, links, passes, registers, looks, wait_connected, register, look_at,
  poll, sleeping,
}
use snowpack.Pool.Waiting.Awake.{Outcome, Finishes, poll_outcome, connected-Finishes}
use snowpack.Pool.Peers.{after_calls, peer_later}
use snowpack.Pool.Target.{Credentials, try_connect, checked, peer, Authenticated-try_connect}
use snowpack.Examples.Crypto.{toy_ed25519}
use snowpack.Examples.Frames.{toy_yatlv}
use snowpack.Examples.Link.{plain_net}
use snowpack.Examples.Auth.{cluster_keys, node}
use snowpack.Examples.Handshake.{
  toy_noise, local, private, header_frame, sender, receiver, connected as is_connected,
}

-- Wake-ups are counted: a future is the count at its creation.
abbrev counter : Notify
counter = record {
  State = ℕ;
  Notified = ℕ;
  new = 0;
  notified = λ s. s;
  notify_waiters = λ s. s + 1;
  ready = λ s t. ltb t s;
}

counter-IsLawful : IsLawful counter
counter-IsLawful = record {
  Created = λ s t. t ≤ s;
  created-notified = λ s. omega arith;
  created-notify_waiters = λ s t h. omega arith;
  ready-notify_waiters = λ s t h. ground arith;
}

abbrev Link : Type 0
Link = PeerLink ℕ counter

abbrev guard : Guard ℕ
guard = record { committed = false }

abbrev free : Link
free = record { state = connected 7; guard = none; tasks = []; notify = 1 }

abbrev held : Link
held = record { state = connected 7; guard = some guard; tasks = []; notify = 1 }

free-Reach : Reach ℕ ℕ counter (new ℕ counter) free
unfolding new reconnect_task tried stored
free-Reach =
    then_step (then_step here (try (new ℕ counter) [] [] 50 (ok 7) refl))
      (store _ [] [] 7 refl refl)

held-Reach : Reach ℕ ℕ counter (new ℕ counter) held
unfolding acquire acquire_locked
held-Reach = then_step free-Reach (acquires free refl)

IsSound-Reach_example : IsSound counter held
IsSound-Reach_example = IsSound-Reach counter held held-Reach

transport-some_example : (c : ℕ) × (transport ℕ held.state ≡ some c)
transport-some_example = transport-some counter held guard held-Reach refl

state-new : (new ℕ counter).state ≡ reconnecting
unfolding new
state-new = refl

reconnecting-Reach_example :
    (l : Link) × (d : ℕ) × Reach ℕ ℕ counter (new ℕ counter) l × (l.state ≡ connected d)
reconnecting-Reach_example = reconnecting-Reach counter 7 (new ℕ counter) here state-new

abbrev errors : List ℕ
errors = 1 ∷ 2 ∷ []

failures-reconnect_task_example : failures ℕ errors (reconnect_task ℕ) ≡ trying 200
failures-reconnect_task_example = failures-reconnect_task ℕ errors

abbrev dropped : Link
dropped = drop_guard ℕ counter guard held

-- After the guard was dropped an attempt failed and the next one succeeded, and a guard was taken for
-- an exchange.
abbrev renewed : Link
renewed = record { state = connected 9; guard = some guard; tasks = []; notify = 2 }

renewed-Reach : Reach ℕ ℕ counter dropped renewed
unfolding drop_guard reconnect_task tried slept stored acquire acquire_locked
renewed-Reach =
    then_step
      (then_step
        (then_step
          (then_step
            (then_step (then_step here (try dropped [] [] 50 (err 1) refl)) (sleep _ [] [] 50 refl))
            (try _ [] [] 100 (ok 8) refl))
          (store _ [] [] 8 refl refl))
        (acquires _ refl))
      (exchange _ guard 8 9 refl refl)

drop_guard-Lineage_example :
    (made : ℕ) × Attempt ℕ counter dropped renewed made × Lineage ℕ counter dropped made renewed 9
drop_guard-Lineage_example =
    drop_guard-Lineage ℕ counter held renewed guard 9 held-Reach refl refl renewed-Reach refl

-- A call on a new link, with a timeout of 100 milliseconds.
abbrev called : World ℕ counter
called = record { link = new ℕ counter; waiter = wait_connected counter 5 100; now = 5 }

-- It sleeps; the link connects; it has not been polled since.
abbrev asleep : World ℕ counter
asleep = record { link = free; waiter = record { deadline = 105; phase = sleeping 0 }; now = 30 }

asleep-Run : Run ℕ counter ℕ called asleep
unfolding wait_connected register look_at new reconnect_task tried stored
asleep-Run =
    goes_on
      (goes_on
        (goes_on (goes_on (goes_on begin (registers _ refl)) (looks _ 0 refl refl)) (passes _ 25))
        (links _ _ (try (new ℕ counter) [] [] 50 (ok 7) refl)))
      (links _ free (store _ [] [] 7 refl refl))

poll_outcome_example : Outcome counter 105 asleep 0 (poll ℕ counter 30 free 0 asleep.waiter).phase
poll_outcome_example =
    poll_outcome counter counter-IsLawful (new ℕ counter) 5 100 asleep 0 asleep-Run refl

connected-Finishes_example : Finishes counter ℕ asleep
connected-Finishes_example =
    connected-Finishes counter counter-IsLawful (new ℕ counter) 5 100 asleep 7 asleep-Run
      (λ r e. cc) refl refl

abbrev credentials : Credentials toy_ed25519
credentials = record {
  private_key = private;
  auth_header = local;
  verification_key = cluster_keys.public;
}

try_connect-node :
    try_connect plain_net toy_noise toy_ed25519 toy_yatlv false credentials node
      (ok (header_frame, []))
    ≡ ok (sender (0 ∷ 0 ∷ 0 ∷ 1 ∷ 9 ∷ []), receiver (0 ∷ 1 ∷ 9 ∷ []))
unfolding try_connect checked check_node_id
try_connect-node = rw is_connected

abbrev opened_stream : Result (Bytes × Bytes) (Error plain_net)
opened_stream = ok (header_frame, [])

Authenticated-try_connect_example :
    (input : Bytes) × (output : Bytes) × (h : AuthHeader) × (hs₀ : HandshakeContext plain_net
      toy_noise)
    × (hs₁ : HandshakeContext plain_net toy_noise) × (hs₂ : HandshakeContext plain_net toy_noise)
    × (opened_stream ≡ ok (input, output))
    × (connect plain_net toy_noise toy_ed25519 toy_yatlv false input output private local
          cluster_keys.public
        ≡ ok ((sender (0 ∷ 0 ∷ 0 ∷ 1 ∷ 9 ∷ []), receiver (0 ∷ 1 ∷ 9 ∷ [])), into_details h))
    × Authenticated plain_net toy_noise toy_ed25519 toy_yatlv cluster_keys.public h hs₀ hs₁
    × IsValid h
    × (h.node_id ≡ node)
    × (send plain_net toy_noise local.bytes hs₁ ≡ (ok tt, hs₂))
    × (into_split plain_net toy_noise hs₂
        ≡ ok (sender (0 ∷ 0 ∷ 0 ∷ 1 ∷ 9 ∷ []), (receiver (0 ∷ 1 ∷ 9 ∷ [])).packets))
    × ((receiver (0 ∷ 1 ∷ 9 ∷ [])).read_buf ≡ [])
    × (false ≡ false)
Authenticated-try_connect_example =
    Authenticated-try_connect plain_net toy_noise toy_ed25519 toy_yatlv false credentials node
      (ok (header_frame, [])) (sender (0 ∷ 0 ∷ 0 ∷ 1 ∷ 9 ∷ [])) (receiver (0 ∷ 1 ∷ 9 ∷ []))
      try_connect-node

abbrev link_of : ℕ → NodeId → ℕ
link_of connector id = connector

abbrev others : List (NodeId × (Unit {0} → ℕ))
others = (record { bytes = 9 ∷ [] }, λ u. 4) ∷ (node, λ u. 3) ∷ []

peer_later_example :
    let (link, peers) = peer link_of node (λ u. 5) [] in
    peer link_of node (λ u. 6) (after_calls link_of others peers)
    ≡ (link, after_calls link_of others peers)
peer_later_example = peer_later link_of node (λ u. 5) (λ u. 6) others []
