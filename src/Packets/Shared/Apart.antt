-- ===== src/Packets/Shared/Apart.antt =====
-- The halves of packets.rs around a shared transport state, against halves with a state each.
use snowpack.Prelude.{◌≡◌, refl, sym, ap, subst, ◌∙◌, List, [], ◌∷◌, Result, ok, err}
use snowpack.External.Net.{Net}
use snowpack.External.Duplex.{IsDuplex}
use snowpack.PacketState.Header.{PacketHeader}
use snowpack.Packets.Error.{Error}
use snowpack.Packets.Tx.{Send}
use snowpack.Packets.Rx.{PacketRx, read_packet, payload}
use snowpack.Packets.Shared.{
  Endpoint, Event, Answer, prepares, sends, aborts, reads, with_tx, with_rx, shared, shared_tx,
  shared_rx, apart, apart_tx, apart_rx, run_all, sent, got, with_payload,
}
use snowpack.Packets.Shared.Local.{
  AlikeTx, AlikeRx, Local, Local-prepare_message, Local-send_packet, Local-abort_message,
  read_packet_apart, SameWriting-read_packet,
}

module _ (x : Net) (d : IsDuplex x) where
  open d use {SameWriting, SameReading}

  -- The halves hold one state, and the others hold their own.
  pub record Tracks (ep own : Endpoint x) : Type 0 where
    pub one : ep.tx.writer.cipher ≡ ep.rx.cipher
    pub alike_tx : AlikeTx x d ep.tx own.tx
    pub alike_rx : AlikeRx x d ep.rx own.rx

  -- What a step of both comes to.
  abbrev Together : (a b : Answer x × Endpoint x) → Type 0
  Together a b = (a.0 ≡ b.0) × Tracks a.1 b.1

  shared-apart_tx :
      (m : Send x) (ep own : Endpoint x)
      → Local x d m
      → Tracks ep own
      → Together (shared_tx x m ep) (apart_tx x m own)
  unfolding shared_tx apart_tx
  shared-apart_tx m ep own local t =
      let u = own.tx.writer.cipher in
      let (same_r, alike) = local.writing ep.tx u t.alike_tx.1 in
      let own_is : m own.tx ≡ m (with_tx x u ep.tx) = ap m t.alike_tx.0 in
      (
        ap sent (same_r ∙ sym (ap (λ q. q.0) own_is)),
        record {
          one = refl;
          alike_tx = subst (λ q. AlikeTx x d (m ep.tx).1 q.1) (sym own_is) alike;
          alike_rx = (
            t.alike_rx.0,
            local.reading ep.tx own.rx.cipher
                (subst (λ c. SameReading c own.rx.cipher) (sym t.one) t.alike_rx.1),
          );
        },
      )

  alike_payload :
      (r : Result PacketHeader (Error x)) (a b : PacketRx x)
      → AlikeRx x d a b
      → with_payload x r a ≡ with_payload x r b
  unfolding with_payload payload
  alike_payload (err f) a b h = refl
  alike_payload (ok header) a b h = sym (ap (λ q. ok (header, payload x q)) h.0)

  shared-apart_rx :
      (ep own : Endpoint x) → Tracks ep own → Together (shared_rx x ep) (apart_rx x own)
  unfolding shared_rx apart_rx
  shared-apart_rx ep own t =
      let u = own.rx.cipher in
      let (same_r, alike) = read_packet_apart x d ep.rx u t.alike_rx.1 in
      let own_is : read_packet x own.rx ≡ read_packet x (with_rx x u ep.rx) =
        ap (read_packet x) t.alike_rx.0 in
      let alike' = subst (λ q. AlikeRx x d (read_packet x ep.rx).1 q.1) (sym own_is) alike in
      (
        ap (λ r. got (with_payload x r (read_packet x ep.rx).1))
              (same_r ∙ sym (ap (λ q. q.0) own_is))
            ∙ ap got (alike_payload _ _ _ alike'),
        record {
          one = refl;
          alike_tx = (
            t.alike_tx.0,
            SameWriting-read_packet x d ep.rx own.tx.writer.cipher
                (subst (λ c. SameWriting c own.tx.writer.cipher) t.one t.alike_tx.1),
          );
          alike_rx = alike';
        },
      )

  shared-apart :
      (event : Event x) (ep own : Endpoint x)
      → Tracks ep own
      → Together (shared x event ep) (apart x event own)
  unfolding shared apart
  shared-apart (prepares t) ep own h = shared-apart_tx _ ep own (Local-prepare_message x d t) h
  shared-apart (sends payload last) ep own h =
      shared-apart_tx _ ep own (Local-send_packet x d payload last) h
  shared-apart aborts ep own h = shared-apart_tx _ ep own (Local-abort_message x d) h
  shared-apart reads ep own h = shared-apart_rx ep own h

  -- A run of both.
  run_all-Tracks :
      (events : List (Event x)) (ep own : Endpoint x)
      → Tracks ep own
      → ((run_all x (shared x) events ep).0 ≡ (run_all x (apart x) events own).0)
        × Tracks (run_all x (shared x) events ep).1 (run_all x (apart x) events own).1
  unfolding run_all
  run_all-Tracks [] ep own t = (refl, t)
  run_all-Tracks (event ∷ events) ep own t =
      let (same, t₁) = shared-apart event ep own t in
      let (answers, t₂) = run_all-Tracks events (shared x event ep).1 (apart x event own).1 t₁ in
      ((λ i. same i ∷ answers i), t₂)

  -- Whatever the stream and the messages are, and in any order of calls on the two halves, packet
  -- by packet, halves around one transport state give the same answers and the same payloads,
  -- errors included, as halves with a copy of it each; they write the same bytes, and stay equal
  -- but for the cipher, which each half has in common with its copy in its own direction. This is
  -- for a transport state whose directions are independent, as snow documents.
  pub run_all-shared :
      (events : List (Event x)) (ep : Endpoint x)
      → ep.tx.writer.cipher ≡ ep.rx.cipher
      → ((run_all x (shared x) events ep).0 ≡ (run_all x (apart x) events ep).0)
        × Tracks (run_all x (shared x) events ep).1 (run_all x (apart x) events ep).1
  run_all-shared events ep one = run_all-Tracks events ep ep (record {
    one = one;
    alike_tx = (refl, d.SameWriting-refl ep.tx.writer.cipher);
    alike_rx = (refl, d.SameReading-refl ep.rx.cipher);
  })
