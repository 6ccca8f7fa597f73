-- ===== src/Pool/Peers.antt =====
-- `ConnectionPool::peer` of pool.rs, called again and again.
use snowpack.Prelude.{
  ◌≡◌, refl, sym, ap, ◌∙◌, inl, inr, List, [], ◌∷◌, Bool-cases, Option, none, some, bytes_eq,
  bytes_eq-eq, bytes_eq_refl,
}
use snowpack.NodeId.{NodeId}
use snowpack.Pool.Target.{Peers, entry, or_insert_with, peer}

module _ {Connector Link : Type 0} (new_link : Connector → NodeId → Link) where
  -- The map after these calls.
  unfoldable pub after_calls :
      List (NodeId × (Unit {0} → Connector)) → Peers new_link → Peers new_link
  after_calls [] peers = peers
  after_calls ((id, make) ∷ calls) peers = after_calls calls (peer new_link id make peers).1

  entry-inserted :
      (o : Option Link) (id target : NodeId) (make : Unit {0} → Connector) (peers : Peers new_link)
      (link : Link)
      → entry new_link id peers ≡ o
      → entry new_link target peers ≡ some link
      → entry new_link target (or_insert_with new_link o id make peers).1 ≡ some link
  unfolding or_insert_with entry
  entry-inserted (some l) id target make peers link e there = there
  entry-inserted none id target make peers link e there =
      elim (Bool-cases (bytes_eq id.bytes target.bytes)) [
        | inl same ↦
            let one : id ≡ target = ap (λ b. record { bytes = b }) (bytes_eq-eq _ _ same) in
            let missing : none ≡ some link = sym e ∙ ap (λ i. entry new_link i peers) one ∙ there in
            absurd cc
        | inr other ↦ rw other there
      ]

  entry-peer :
      (id target : NodeId) (make : Unit {0} → Connector) (peers : Peers new_link) (link : Link)
      → entry new_link target peers ≡ some link
      → entry new_link target (peer new_link id make peers).1 ≡ some link
  unfolding peer
  entry-peer id target make peers link there =
      entry-inserted (entry new_link id peers) id target make peers link refl there

  entry-after_calls :
      (calls : List (NodeId × (Unit {0} → Connector))) (target : NodeId) (peers : Peers new_link)
      (link : Link)
      → entry new_link target peers ≡ some link
      → entry new_link target (after_calls calls peers) ≡ some link
  unfolding after_calls
  entry-after_calls [] target peers link there = there
  entry-after_calls ((id, make) ∷ calls) target peers link there =
      entry-after_calls calls target (peer new_link id make peers).1 link
        (entry-peer id target make peers link there)

  inserted :
      (o : Option Link) (target : NodeId) (make : Unit {0} → Connector) (peers : Peers new_link)
      → entry new_link target peers ≡ o
      → let (link, peers') = or_insert_with new_link o target make peers in
        entry new_link target peers' ≡ some link
  unfolding or_insert_with entry
  inserted (some l) target make peers e = e
  inserted none target make peers e = rw (bytes_eq_refl target.bytes) refl

  found :
      (target : NodeId) (make : Unit {0} → Connector) (peers : Peers new_link) (link : Link)
      → entry new_link target peers ≡ some link
      → peer new_link target make peers ≡ (link, peers)
  unfolding peer or_insert_with
  found target make peers link e = rw e refl

  -- A call of peer for a node id returns the link of an earlier call for it, whatever calls for
  -- whatever ids come between and whatever connector it would make, and does not change the map.
  pub peer_later :
      (target : NodeId) (make make' : Unit {0} → Connector)
      (calls : List (NodeId × (Unit {0} → Connector))) (peers : Peers new_link)
      → let (link, peers') = peer new_link target make peers in
        peer new_link target make' (after_calls calls peers') ≡ (link, after_calls calls peers')
  unfolding peer
  peer_later target make make' calls peers =
      let (link, peers') = peer new_link target make peers in
      found target make' (after_calls calls peers') link (
        entry-after_calls calls target peers' link
          (inserted (entry new_link target peers) target make peers refl))
