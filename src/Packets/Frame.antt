-- ===== src/Packets/Frame.antt =====
-- `read_frame` of packets.rs, and the writing of one frame, which `send_packet` and `abort_message`
-- do in the same words.
use snowpack.Prelude.{
  ℕ, ◌+◌, ◌%◌, ◌^◌, ◌++◌, Bytes, Result, ok, err, map_err, length, take, drop, resize, ltb,
  if◌then◌else◌,
}
use snowpack.External.Net.{Net}
use snowpack.PacketState.Header.{frame_header_size, cipher_overhead_size, to_be_bytes}
use snowpack.Packets.Error.{Error, io, noise}

module _ (x : Net) where
  unfoldable pub read_body :
      Result ℕ x.IoError → x.Input → Bytes → Result (Unit {0}) (Error x) × Bytes × x.Input
  read_body (err e) input buffer = (err (io e), buffer, input)
  read_body (ok len) input buffer =
      let (r, buffer', input') = x.read_exact input (resize len buffer) in
      (map_err io r, buffer', input')

  unfoldable pub read_frame : x.Input → Bytes → Result (Unit {0}) (Error x) × Bytes × x.Input
  unfolding read_body
  read_frame input buffer = let (len, input') = x.read_u16 input in read_body len input' buffer

  -- The cipher, the stream and the buffer that a frame is put together in.
  pub record Writer : Type 0 where
    pub cipher : x.Cipher
    pub write : x.Output
    pub write_buf : Bytes

  unfoldable pub flush_frame :
      Result (Unit {0}) x.IoError → x.Output → Result (Unit {0}) (Error x) × x.Output
  flush_frame (err e) write = (err (io e), write)
  flush_frame (ok done) write = let (r, write') = x.flush write in (map_err io r, write')

  -- The length prefix goes in front of the `n` bytes of ciphertext.
  unfoldable pub send_frame : Result ℕ x.SnowError → Writer → Result (Unit {0}) (Error x) × Writer
  unfolding flush_frame
  send_frame (err e) w = (err (noise e), w)
  send_frame (ok n) w =
      let buf = to_be_bytes (n % 2 ^ 16) ++ drop frame_header_size w.write_buf in
      let (sent, write') = x.write_all w.write (take (frame_header_size + n) buf) in
      let (r, write'') = flush_frame sent write' in
      (r, record w { write = write''; write_buf = buf })

  -- `if self.write_buf.len() < frame_len { self.write_buf.resize(frame_len, 0) }`
  unfoldable pub reserve : ℕ → Bytes → Bytes
  reserve frame_len buf = if ltb (length buf) frame_len then resize frame_len buf else buf

  unfoldable pub encrypt_frame : Bytes → Bytes → Writer → Result (Unit {0}) (Error x) × Writer
  encrypt_frame plaintext buf w =
      let (n, body, cipher') = x.write_message w.cipher plaintext (drop frame_header_size buf) in
      send_frame n (record w { cipher = cipher'; write_buf = take frame_header_size buf ++ body })

  unfoldable pub write_packet : Bytes → Writer → Result (Unit {0}) (Error x) × Writer
  write_packet plaintext w =
      let ciphertext_len = length plaintext + cipher_overhead_size in
      let frame_len = frame_header_size + ciphertext_len in
      encrypt_frame plaintext (reserve frame_len w.write_buf) w
