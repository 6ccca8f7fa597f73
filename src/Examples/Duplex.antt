-- ===== src/Examples/Duplex.antt =====
-- A concrete transport state with two directions, and a run of an endpoint around it.
use snowpack.Prelude.{ℕ, ◌≡◌, refl, ap, List, [], ◌∷◌, Bytes, false, Result, replicate}
use snowpack.External.Net.{Net}
use snowpack.External.Duplex.{IsDuplex}
use snowpack.PacketState.Builder
use snowpack.PacketState.Reader
use snowpack.Packets.Shared.{
  Endpoint, Event, prepares, sends, aborts, reads, run_all, shared, apart,
}
use snowpack.Packets.Shared.Apart.{Tracks, run_all-shared}
use snowpack.Examples.Link.{plain_net, Fault, encrypt, decrypt}

-- The cipher that writes, and the one that reads.
abbrev pub Pair : Type 0
Pair = ℕ × ℕ

abbrev pub write_with : Result ℕ Fault × Bytes × ℕ → ℕ → Result ℕ Fault × Bytes × Pair
write_with (n, buffer, w) r = (n, buffer, (w, r))

abbrev pub read_with : Result ℕ Fault × Bytes × ℕ → ℕ → Result ℕ Fault × Bytes × Pair
read_with (n, buffer, r) w = (n, buffer, (w, r))

abbrev pub two_way : Net
two_way = record plain_net {
  Cipher = Pair;
  write_message = λ t p buffer. write_with (encrypt t.0 p buffer) t.1;
  read_message = λ t m buffer. read_with (decrypt t.1 m buffer) t.0;
}

two_way-IsDuplex : IsDuplex two_way
two_way-IsDuplex = record {
  SameWriting = λ t u. t.0 ≡ u.0;
  SameReading = λ t u. t.1 ≡ u.1;
  SameWriting-refl = λ t. refl;
  SameReading-refl = λ t. refl;
  write_message_same = λ t u p buffer h. (
    ap (λ w. (encrypt w p buffer).0) h,
    ap (λ w. (encrypt w p buffer).1) h,
    ap (λ w. (encrypt w p buffer).2) h,
  );
  SameReading-write_message = λ t u p buffer h. h;
  read_message_same = λ t u m buffer h. (
    ap (λ r. (decrypt r m buffer).0) h,
    ap (λ r. (decrypt r m buffer).1) h,
    ap (λ r. (decrypt r m buffer).2) h,
  );
  SameWriting-read_message = λ t u m buffer h. h;
}

abbrev pub endpoint : Endpoint two_way
endpoint = record {
  tx = record {
    builder = Builder.new;
    writer = record { cipher = (10, 20); write = []; write_buf = [] };
  };
  rx = record {
    cipher = (10, 20);
    packet_reader = Reader.new;
    input = 0 ∷ 18 ∷ 0 ∷ 6 ∷ replicate 16 20;
    ciphertext_buf = [];
    plaintext_buf = [];
    payload_end = 0;
  };
}

abbrev pub events : List (Event two_way)
events = prepares 5 ∷ sends (1 ∷ []) false ∷ reads ∷ aborts ∷ reads ∷ []

run_all-shared_example :
    ((run_all two_way (shared two_way) events endpoint).0
      ≡ (run_all two_way (apart two_way) events endpoint).0)
    × Tracks two_way two_way-IsDuplex
        (run_all two_way (shared two_way) events endpoint).1
        (run_all two_way (apart two_way) events endpoint).1
run_all-shared_example = run_all-shared two_way two_way-IsDuplex events endpoint refl
