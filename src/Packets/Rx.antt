-- ===== src/Packets/Rx.antt =====
-- `PacketRx` of packets.rs: the receiving half. Its `cipher` is the one that it shares with the
-- sending half, as it is when the method is called.
use snowpack.Prelude.{
  ℕ, [], Bytes, Result, ok, err, map_err, length, take, drop, resize, ltb, if◌then◌else◌,
}
use snowpack.External.Net.{Net}
use snowpack.PacketState.Header.{PacketHeader}
use snowpack.PacketState.Reader.{PacketReader, read}
use snowpack.Packets.Error.{Error, noise, packet}
use snowpack.Packets.Frame.{read_frame}

abbrev pub empty_payload : Bytes
empty_payload = []

module _ (x : Net) where
  pub record PacketRx : Type 0 where
    pub cipher : x.Cipher
    pub packet_reader : PacketReader
    pub input : x.Input
    pub ciphertext_buf : Bytes
    pub plaintext_buf : Bytes
    pub payload_end : ℕ

  abbrev pub Read : Type 0
  Read = Result PacketHeader (Error x) × PacketRx

  -- The plaintext is the first `n` bytes of the buffer.
  unfoldable pub decode : Result ℕ x.SnowError → PacketRx → Read
  decode (err e) rx = (err (noise e), rx)
  decode (ok n) rx =
      let (header, reader') = read rx.packet_reader (take n rx.plaintext_buf) in
      (map_err packet header, record rx { packet_reader = reader'; payload_end = n })

  unfoldable pub decrypt : Result (Unit {0}) (Error x) → PacketRx → Read
  decrypt (err e) rx = (err e, rx)
  decrypt (ok done) rx =
      let buffer = resize (length rx.ciphertext_buf) rx.plaintext_buf in
      let (n, plaintext', cipher') = x.read_message rx.cipher rx.ciphertext_buf buffer in
      decode n (record rx { cipher = cipher'; plaintext_buf = plaintext' })

  unfoldable pub read_packet : PacketRx → Read
  read_packet rx =
      let (r, buffer', input') = read_frame x rx.input rx.ciphertext_buf in
      decrypt r (record rx { input = input'; ciphertext_buf = buffer' })

  unfoldable pub payload : PacketRx → Bytes
  payload rx =
      if ltb 2 rx.payload_end then drop 2 (take rx.payload_end rx.plaintext_buf) else empty_payload
