-- ===== src/Examples/Link.antt =====
-- A concrete `Net` without faults: a cipher that appends its nonce, and byte strings for streams.
use snowpack.Prelude.{
  ℕ, zero, suc, ◌+◌, ◌-◌, ◌*◌, ◌%◌, ◌<◌, ◌≤◌, ◌≡◌, refl, ◌++◌, [], ◌∷◌, Bytes, Result, ok, err,
  length, take, drop, replicate, ltb, bytes_eq, bytes_eq_refl, ◌&&◌, not, if◌then◌else◌,
  length-append, take-append_of_length, drop-append_of_length, take-append-drop, length-take, arith,
  sym, ap, length-replicate,
}
use snowpack.External.Net.{Net, IsHealthy}

pub data Fault : Type 0 where
  fault : Fault

-- A cipher is the number of messages that its nonces are enough for.
abbrev pub tag : ℕ → Bytes
tag t = replicate 16 (t % 256)

abbrev pub encrypt : ℕ → Bytes → Bytes → Result ℕ Fault × Bytes × ℕ
encrypt t payload buffer =
    let n = length payload + 16 in
    if ltb 0 t && not (ltb 65535 n) && not (ltb (length buffer) n)
    then (ok n, payload ++ tag t ++ drop n buffer, t - 1)
    else (err fault, buffer, t)

abbrev pub decrypt : ℕ → Bytes → Bytes → Result ℕ Fault × Bytes × ℕ
decrypt t message buffer =
    let n = length message - 16 in
    if not (ltb (length message) 16)
      && bytes_eq (drop n message) (tag t)
      && not (ltb (length buffer) n)
    then (ok n, take n message ++ drop n buffer, t - 1)
    else (err fault, buffer, t)

abbrev pub read_u16 : Bytes → Result ℕ Fault × Bytes
read_u16 (hi ∷ lo ∷ rest) = (ok (hi * 256 + lo), rest)
read_u16 input = (err fault, input)

abbrev pub read_exact : Bytes → Bytes → Result (Unit {0}) Fault × Bytes × Bytes
read_exact input buffer =
    if ltb (length input) (length buffer)
    then (err fault, buffer, input)
    else (ok tt, take (length buffer) input, drop (length buffer) input)

abbrev pub plain_net : Net
plain_net = record {
  IoError = Fault;
  SnowError = Fault;
  Cipher = ℕ;
  write_message = encrypt;
  read_message = decrypt;
  Input = Bytes;
  read_u16 = read_u16;
  read_exact = read_exact;
  Output = Bytes;
  write_all = λ o bs. (ok tt, o ++ bs);
  flush = λ o. (ok tt, o);
  Source = Bytes;
  read = λ s room. (ok (take room s), drop room s);
}

pub nothing_left : (s : Bytes) (room : ℕ) → 0 < room → take room s ≡ [] → s ≡ []
nothing_left [] room h e = refl
nothing_left (b ∷ bs) zero h e = absurd (omega arith)
nothing_left (b ∷ bs) (suc n) h e = absurd (omega (arith, ap length e))

abbrev seal : ℕ → Bytes → Bytes
seal t p = p ++ tag t

pub length-seal : (t : ℕ) (p : Bytes) → length (seal t p) ≡ length p + 16
length-seal t p = omega (arith, length-append p (tag t), length-replicate 16 (t % 256))

pub encrypt-ok :
    (t : ℕ) (p buffer : Bytes)
    → 0 < t
    → length p + 16 ≤ 65535
    → length p + 16 ≤ length buffer
    → encrypt t p buffer ≡ (ok (length p + 16), seal t p ++ drop (length p + 16) buffer, t - 1)
encrypt-ok t p buffer h fits room = ground arith

pub decrypt-seal :
    (t : ℕ) (p buffer : Bytes)
    → length p ≤ length buffer
    → decrypt t (seal t p) buffer ≡ (ok (length p), p ++ drop (length p) buffer, t - 1)
decrypt-seal t p buffer room =
    let n : length (seal t p) - 16 ≡ length p = omega (arith, length-seal t p) in
    rw
      (
        n,
        drop-append_of_length (length p) p (tag t) refl,
        take-append_of_length (length p) p (tag t) refl,
        bytes_eq_refl (tag t),
      )
      (ground (arith, length-seal t p))

unfoldable pub plain_net-IsHealthy : IsHealthy plain_net
plain_net-IsHealthy = record {
  left = λ t. t;
  Paired = λ t u. t ≡ u;
  sealed = seal;
  wrote = λ t. t - 1;
  opened = λ t. t - 1;
  length-sealed = length-seal;
  left-wrote = λ t h. omega arith;
  write_message-ok = encrypt-ok;
  read_message-ok = λ t u p buffer same h fits room. rw (← same) (decrypt-seal t p buffer room);
  Paired-wrote = λ t u h. ap (λ n. n - 1) h;
  pending = λ i. i;
  skip = drop;
  pending-skip = λ n i. refl;
  read_u16-ok = λ i hi lo rest h. rw h refl;
  read_exact-ok = λ i buffer h. ground arith;
  written = λ o. o;
  extend = λ o bs. o ++ bs;
  flushed = λ o. o;
  write_all-ok = λ o bs. refl;
  written-extend = λ o bs. refl;
  flush-ok = λ o. refl;
  written-flushed = λ o. refl;
  content = λ s. s;
  read-ok = λ s room h. (
    take room s,
    drop room s,
    refl,
    sym (take-append-drop room s),
    omega (arith, length-take room s),
    λ e. nothing_left s room h e,
  );
}
