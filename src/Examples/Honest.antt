-- ===== src/Examples/Honest.antt =====
-- A concrete pair of honest peers: a static key is its private key, and a message carries it in the
-- clear.
use snowpack.Prelude.{
  ℕ, zero, suc, ◌+◌, ◌<◌, ◌≤◌, ◌≡◌, refl, ap, ◌∙◌, ◌++◌, [], Bytes, Option, none, some, Result, ok,
  err, length, take, drop, length-append, take-append_of_length, drop-append_of_length, ltb, not,
  ◌&&◌, if◌then◌else◌, arith,
}
use snowpack.External.Noise.{Noise, IsHonest}
use snowpack.Examples.Link.{plain_net, plain_net-IsHealthy, Fault, fault}

pub record Side : Type 0 where
  pub step : ℕ
  pub own : Bytes
  pub peer : Option Bytes

-- The static key, from the second message on.
abbrev pub carried : ℕ → Bytes → Bytes
carried zero own = []
carried (suc k) own = own

abbrev pub overhead : ℕ → ℕ
overhead zero = 0
overhead (suc k) = 32

abbrev pub message : Side → Bytes → Bytes
message s p = carried s.step s.own ++ p

abbrev pub wrote : Side → Bytes → Side
wrote s p = record s { step = s.step + 1 }

abbrev pub seen : ℕ → Bytes → Option Bytes → Option Bytes
seen zero m peer = peer
seen (suc k) m peer = some (take 32 m)

abbrev pub took : Side → Bytes → Side
took s m = record s { step = s.step + 1; peer = seen s.step m s.peer }

abbrev pub write : Side → Bytes → Bytes → Result ℕ Fault × Bytes × Side
write s p buffer =
    let m = message s p in
    if not (ltb (length buffer) (length m)) && not (ltb 65535 (length m))
    then (ok (length m), m ++ drop (length m) buffer, wrote s p)
    else (err fault, buffer, s)

abbrev pub read : Side → Bytes → Bytes → Result ℕ Fault × Bytes × Side
read s m buffer =
    let p = drop (overhead s.step) m in
    if not (ltb (length buffer) (length p)) && not (ltb (length m) (overhead s.step))
    then (ok (length p), p ++ drop (length p) buffer, took s m)
    else (err fault, buffer, s)

abbrev transport : Side → Result ℕ Fault
transport s = if ltb s.step 3 then err fault else ok 10

abbrev pub open_noise : Noise plain_net
open_noise = record {
  Handshake = Side;
  build_initiator = λ key. ok (record { step = 0; own = key; peer = none });
  build_responder = λ key. ok (record { step = 0; own = key; peer = none });
  write_message = write;
  read_message = read;
  get_remote_static = λ s. s.peer;
  into_transport_mode = transport;
}

-- Who writes next, what it knows, and what the other one knows.
abbrev writer_at : ℕ → (a b : Bytes) → Side
writer_at zero a b = record { step = 0; own = a; peer = none }
writer_at (suc zero) a b = record { step = 1; own = b; peer = none }
writer_at (suc (suc zero)) a b = record { step = 2; own = a; peer = some b }
writer_at (suc (suc (suc k))) a b = record { step = 3; own = b; peer = some a }

abbrev reader_at : ℕ → (a b : Bytes) → Side
reader_at zero a b = record { step = 0; own = b; peer = none }
reader_at (suc zero) a b = record { step = 1; own = a; peer = none }
reader_at (suc (suc zero)) a b = record { step = 2; own = b; peer = none }
reader_at (suc (suc (suc k))) a b = record { step = 3; own = a; peer = some b }

pub record Stage (k : ℕ) (a b : Bytes) (w r : Side) : Type 0 where
  pub length_a : length a ≡ 32
  pub length_b : length b ≡ 32
  pub writer : w ≡ writer_at k a b
  pub reader : r ≡ reader_at k a b

pub length-message :
    (k : ℕ) (a b : Bytes) (w r : Side) (p : Bytes)
    → Stage k a b w r
    → length (message w p) ≡ overhead k + length p
length-message zero a b w r p s = rw s.writer (omega arith)
length-message (suc zero) a b w r p s = rw s.writer (omega (arith, length-append b p, s.length_b))
length-message (suc (suc zero)) a b w r p s =
    rw s.writer (omega (arith, length-append a p, s.length_a))
length-message (suc (suc (suc k))) a b w r p s =
    rw s.writer (omega (arith, length-append b p, s.length_b))

pub write-ok :
    (k : ℕ) (a b : Bytes) (w r : Side) (p buffer : Bytes)
    → k < 3
    → Stage k a b w r
    → overhead k + length p + 16 ≤ 65535
    → overhead k + length p + 16 ≤ length buffer
    → write w p buffer
      ≡ (ok (length (message w p)), message w p ++ drop (length (message w p)) buffer, wrote w p)
write-ok k a b w r p buffer turn s fits room = ground (arith, length-message k a b w r p s)

step-reader : (k : ℕ) (a b : Bytes) → k < 3 → (reader_at k a b).step ≡ k
step-reader zero a b h = refl
step-reader (suc zero) a b h = refl
step-reader (suc (suc zero)) a b h = refl
step-reader (suc (suc (suc k))) a b h = absurd (omega arith)

payload-message :
    (k : ℕ) (a b : Bytes) (w r : Side) (p : Bytes)
    → Stage k a b w r
    → drop (overhead k) (message w p) ≡ p
payload-message zero a b w r p s = rw s.writer refl
payload-message (suc zero) a b w r p s = rw s.writer (drop-append_of_length 32 b p s.length_b)
payload-message (suc (suc zero)) a b w r p s = rw s.writer (drop-append_of_length 32 a p s.length_a)
payload-message (suc (suc (suc k))) a b w r p s =
    rw s.writer (drop-append_of_length 32 b p s.length_b)

pub read-ok :
    (k : ℕ) (a b : Bytes) (w r : Side) (p buffer : Bytes)
    → k < 3
    → Stage k a b w r
    → overhead k + length p + 16 ≤ 65535
    → length p ≤ length buffer
    → read r (message w p) buffer
      ≡ (ok (length p), p ++ drop (length p) buffer, took r (message w p))
read-ok k a b w r p buffer turn s fits room =
    let at : r.step ≡ k = ap (λ q. q.step) s.reader ∙ step-reader k a b turn in
    rw (at, payload-message k a b w r p s) (ground (arith, at, length-message k a b w r p s))

pub Stage-took :
    (k : ℕ) (a b : Bytes) (w r : Side) (p : Bytes)
    → k < 3
    → Stage k a b w r
    → Stage (suc k) a b (took r (message w p)) (wrote w p)
Stage-took zero a b w r p h s = record {
  length_a = s.length_a;
  length_b = s.length_b;
  writer = rw (s.writer, s.reader) refl;
  reader = rw s.writer refl;
}
Stage-took (suc zero) a b w r p h s = record {
  length_a = s.length_a;
  length_b = s.length_b;
  writer = rw (s.writer, s.reader, take-append_of_length 32 b p s.length_b) refl;
  reader = rw s.writer refl;
}
Stage-took (suc (suc zero)) a b w r p h s = record {
  length_a = s.length_a;
  length_b = s.length_b;
  writer = rw (s.writer, s.reader, take-append_of_length 32 a p s.length_a) refl;
  reader = rw s.writer refl;
}
Stage-took (suc (suc (suc k))) a b w r p h s = absurd (omega arith)

unfoldable pub open_noise-IsHonest : IsHonest plain_net plain_net-IsHealthy open_noise
unfolding plain_net-IsHealthy
open_noise-IsHonest = record {
  public_key = λ key. key;
  length-public_key = λ key h. h;
  initiator = λ key. record { step = 0; own = key; peer = none };
  responder = λ key. record { step = 0; own = key; peer = none };
  build_initiator-ok = λ key h. refl;
  build_responder-ok = λ key h. refl;
  Stage = Stage;
  Stage-built =
      λ a b h_a h_b. record { length_a = h_a; length_b = h_b; writer = refl; reader = refl };
  overhead = overhead;
  message = message;
  wrote = wrote;
  took = took;
  length-message = length-message;
  write_message-ok = write-ok;
  read_message-ok = read-ok;
  Stage-took = Stage-took;
  static_of_responder = λ a b w r s. ap (λ q. q.peer) s.writer;
  static_of_initiator = λ a b w r s. ap (λ q. q.peer) s.writer;
  transport = λ s. 10;
  into_transport_mode-ok = λ a b w r s. (rw s.writer refl, rw s.reader refl, refl, refl);
}
