-- ===== src/External/Duplex.antt =====
-- The two directions of a transport state of the crate `snow`.
use snowpack.Prelude.{◌≡◌, Bytes}
use snowpack.External.Net.{Net}

-- A `TransportState` holds a cipher for each direction, and `write_message` and `read_message` each use
-- and change their own.
pub record IsDuplex (x : Net) : Type 1 where
  -- With the same cipher for writing, and with the same cipher for reading.
  pub SameWriting : x.Cipher → x.Cipher → Type 0
  pub SameReading : x.Cipher → x.Cipher → Type 0
  pub SameWriting-refl : (t : x.Cipher) → SameWriting t t
  pub SameReading-refl : (t : x.Cipher) → SameReading t t
  pub write_message_same :
      (t u : x.Cipher) (p buffer : Bytes)
      → SameWriting t u
      → ((x.write_message t p buffer).0 ≡ (x.write_message u p buffer).0)
        × ((x.write_message t p buffer).1 ≡ (x.write_message u p buffer).1)
        × SameWriting (x.write_message t p buffer).2 (x.write_message u p buffer).2
  pub SameReading-write_message :
      (t u : x.Cipher) (p buffer : Bytes)
      → SameReading t u
      → SameReading (x.write_message t p buffer).2 u
  pub read_message_same :
      (t u : x.Cipher) (m buffer : Bytes)
      → SameReading t u
      → ((x.read_message t m buffer).0 ≡ (x.read_message u m buffer).0)
        × ((x.read_message t m buffer).1 ≡ (x.read_message u m buffer).1)
        × SameReading (x.read_message t m buffer).2 (x.read_message u m buffer).2
  pub SameWriting-read_message :
      (t u : x.Cipher) (m buffer : Bytes)
      → SameWriting t u
      → SameWriting (x.read_message t m buffer).2 u
