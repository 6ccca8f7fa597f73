-- ===== src/Pool/Target.antt =====
-- `try_connect` and `ConnectionPool::peer` of pool.rs: which peer a link connects to, and which link a
-- node id has.
use snowpack.Prelude.{
  ◌≡◌, ◌∙◌, ap, refl, subst, inl, inr, List, [], ◌∷◌, Bool, false, Option, none, some, Result, ok,
  err, ◌>>=◌, map_err, bytes_eq, bytes_eq_refl, if◌then◌else◌,
}
use snowpack.External.Net.{Net}
use snowpack.External.Noise.{Noise}
use snowpack.External.Ed25519.{Ed25519}
use snowpack.External.Yatlv.{Yatlv}
use snowpack.NodeId.{NodeId}
use snowpack.Noise.{TransportPrivateKey}
use snowpack.Sign.{SignatureVerificationKey}
use snowpack.Auth.{SignedAuthHeader, AuthHeader, AuthDetails, check_node_id, into_details}
use snowpack.Auth.Header.{IsValid}
use snowpack.Auth.Credential.{check_node_id_lem}
use snowpack.Packets.Error.{Error, bad_auth}
use snowpack.Packets.Tx.{PacketTx}
use snowpack.Messages.{MessageRx}
use snowpack.Handshake.{HandshakeContext, send, into_split}
use snowpack.Handshake.Entry.{connect}
use snowpack.Handshake.Peer.{Authenticated, map_err-eq_ok}
use snowpack.Handshake.Sound.{Authenticated-connect}

pub record Credentials (c : Ed25519) : Type 0 where
  pub private_key : TransportPrivateKey
  pub auth_header : SignedAuthHeader
  pub verification_key : SignatureVerificationKey c

bind-eq_ok :
    {A B E : Type 0} (r : Result A E) (f : A → Result B E) (b : B)
    → (r >>= f) ≡ ok b
    → (a : A) × (r ≡ ok a) × (f a ≡ ok b)
bind-eq_ok (ok a) f b e = (a, refl, e)
bind-eq_ok (err q) f b e = cc

expected_id :
    (h : AuthHeader) (target : NodeId)
    → check_node_id (into_details h) target ≡ ok tt
    → h.node_id ≡ target
expected_id h target e = elim (check_node_id_lem h target) [
  | inl passed ↦ passed.1
  | inr refused ↦ absurd cc
]

module _ (x : Net) (y : Noise x) (c : Ed25519) (z : Yatlv) where
  abbrev pub Halves : Type 0
  Halves = PacketTx x × MessageRx x

  unfoldable pub checked : NodeId → Halves × AuthDetails → Result Halves (Error x)
  checked target (halves, auth_details) = do
    done ← map_err bad_auth (check_node_id auth_details target)
    ok halves

  -- The stream is what the connector returned.
  unfoldable pub try_connect :
      Bool
      → Credentials c
      → NodeId
      → Result (x.Input × x.Output) (Error x)
      → Result Halves (Error x)
  unfolding checked
  try_connect late creds target opened = do
    stream ← opened
    peer ←
        connect x y c z late stream.0 stream.1 creds.private_key creds.auth_header
          creds.verification_key
    checked target peer

  checked-eq_ok :
      (target : NodeId) (peer : Halves × AuthDetails) (halves : Halves)
      → checked target peer ≡ ok halves
      → (check_node_id peer.1 target ≡ ok tt) × (peer.0 ≡ halves)
  unfolding checked
  checked-eq_ok target (found, details) halves e =
      let (done, passed, same) =
        bind-eq_ok (map_err bad_auth (check_node_id details target)) (λ done. ok found) halves e in
      (map_err-eq_ok bad_auth (check_node_id details target) done passed, cc)

  -- When try_connect returns a connection, the connector opened a stream, and connect on this
  -- stream returned, in time, this very connection with the details of a header that the peer
  -- sent, which verifies under the cluster key, is valid, names the static key that the handshake
  -- authenticated and names the target node; the link's own header went out after that, and the
  -- halves come from the handshake as it was in the end, with nothing read yet.
  pub Authenticated-try_connect :
      (late : Bool) (creds : Credentials c) (target : NodeId)
      (stream : Result (x.Input × x.Output) (Error x)) (tx : PacketTx x) (rx : MessageRx x)
      → try_connect late creds target stream ≡ ok (tx, rx)
      → (input : x.Input) × (output : x.Output) × (h : AuthHeader) × (hs₀ : HandshakeContext x y)
        × (hs₁ : HandshakeContext x y) × (hs₂ : HandshakeContext x y) × (stream
            ≡ ok (input, output))
        × (connect x y c z late input output creds.private_key creds.auth_header
              creds.verification_key
            ≡ ok ((tx, rx), into_details h))
        × Authenticated x y c z creds.verification_key h hs₀ hs₁
        × IsValid h
        × (h.node_id ≡ target)
        × (send x y creds.auth_header.bytes hs₁ ≡ (ok tt, hs₂))
        × (into_split x y hs₂ ≡ ok (tx, rx.packets))
        × (rx.read_buf ≡ [])
        × (late ≡ false)
  unfolding try_connect
  Authenticated-try_connect late creds target stream tx rx e =
      let (s, opened, e₁) = bind-eq_ok stream _ (tx, rx) e in
      let (peer, reached, e₂) =
        bind-eq_ok
          (connect x y c z late s.0 s.1 creds.private_key creds.auth_header creds.verification_key)
          (checked target) (tx, rx) e₁ in
      let (expected, same) = checked-eq_ok target peer (tx, rx) e₂ in
      let (h, hs₀, hs₁, hs₂, found, valid, details, sent, split, empty, intime) =
        Authenticated-connect x y c z creds.verification_key late s.0 s.1 creds.private_key
          creds.auth_header tx rx peer.1 (reached ∙ ap (λ q. ok (q, peer.1)) same) in
      (
        s.0,
        s.1,
        h,
        hs₀,
        hs₁,
        hs₂,
        opened,
        reached ∙ ap (λ q. ok (q, peer.1)) same ∙ ap (λ d. ok ((tx, rx), d)) details,
        found,
        valid,
        expected_id h target (subst (λ d. check_node_id d target ≡ ok tt) details expected),
        sent,
        split,
        empty,
        intime,
      )

-- `peer`: the map of a pool, and links that are told apart by what `PeerLink::new` returned for a connector.
module _ {Connector Link : Type 0} (new_link : Connector → NodeId → Link) where
  abbrev pub Peers : Type 0
  Peers = List (NodeId × Link)

  -- `HashMap::get`.
  unfoldable pub entry : NodeId → Peers → Option Link
  entry target [] = none
  entry target ((id, link) ∷ peers) =
      if bytes_eq id.bytes target.bytes then some link else entry target peers

  unfoldable pub or_insert_with :
      Option Link → NodeId → (Unit {0} → Connector) → Peers → Link × Peers
  or_insert_with (some link) target make_connector peers = (link, peers)
  or_insert_with none target make_connector peers =
      let link = new_link (make_connector tt) target in (link, (target, link) ∷ peers)

  unfoldable pub peer : NodeId → (Unit {0} → Connector) → Peers → Link × Peers
  unfolding entry or_insert_with
  peer target make_connector peers = or_insert_with (entry target peers) target make_connector peers

  peer_again :
      (o : Option Link) (target : NodeId) (make make' : Unit {0} → Connector) (peers : Peers)
      → entry target peers ≡ o
      → let (link, peers') = or_insert_with o target make peers in
        peer target make' peers' ≡ (link, peers')
  unfolding peer entry or_insert_with
  peer_again (some link) target make make' peers e = rw e
  peer_again none target make make' peers e = rw (bytes_eq_refl target.bytes)

  -- A second call of peer for the same node id returns the link of the first, whatever connector
  -- it would make, and does not change the map.
  peer_twice :
      (target : NodeId) (make make' : Unit {0} → Connector) (peers : Peers)
      → let (link, peers') = peer target make peers in peer target make' peers' ≡ (link, peers')
  unfolding peer
  peer_twice target make make' peers = peer_again (entry target peers) target make make' peers refl
