-- ===== src/Wire.antt =====
-- src/agent/wire.rs: the integers, strings and multiple precision integers of the agent protocol,
-- read from a reader and written to a `Vec<u8>`, where a write never fails.
pub mod RoundTrip
use ssh_keys.Base.{
  ℕ, ◌+◌, ◌%◌, ◌^◌, ◌<◌, ◌≡◌, refl, Bytes, length, List, [], ◌∷◌, ◌++◌, ltb, bit_and, if◌then◌else◌,
}
use ssh_keys.Outcome.{Outcome, ok, err, panic, Message, text, unwrap}
use ssh_keys.Packages.{ByteOrder, Openssl}
use ssh_keys.Reader.{Input, Reader, ◌>>=◌, pure, lift, wrapping, read_exact}
use ssh_keys.Text.{from_utf8}

-- `read_u8` of a byte that has been read.
abbrev pub first_byte : Bytes → ℕ
first_byte [] = 0
first_byte (b ∷ bs) = b

-- `vec.write_u8(v)`
abbrev pub write_u8 : Bytes → ℕ → Bytes
write_u8 buf v = buf ++ (v ∷ [])

unfoldable pub read_u8 : Reader ℕ
read_u8 = do b ← read_exact 1; pure (first_byte b)

module _ (bo : ByteOrder) where
  unfoldable pub read_u32 : Reader ℕ
  read_u32 = do b ← read_exact 4; pure (bo.u32_from_be b)

  abbrev pub write_u32 : Bytes → ℕ → Bytes
  write_u32 buf v = buf ++ bo.u32_to_be v

  unfoldable pub read_string : Reader Bytes
  read_string = do
    len ← wrapping (text "read len") read_u32
    wrapping (text "read content") (read_exact len)

  unfoldable pub read_string_utf8 : Reader Bytes
  read_string_utf8 = do
    content ← read_string
    wrapping (text "decode string") (lift (from_utf8 content))

  -- `data.len() as u32` keeps the low 32 bits of the length.
  unfoldable pub write_string : Bytes → Bytes → Bytes
  write_string buf content = write_u32 buf (length content % 2 ^ 32) ++ content

module _ (bo : ByteOrder) (ssl : Openssl) where
  unfoldable pub read_mpint : Reader ssl.BigNum
  read_mpint = do content ← read_string bo; lift (unwrap (ssl.from_slice content))

-- `bytes[0]` panics on no bytes; a first byte with its top bit set gets a zero before it.
unfoldable pub sign_byte : Bytes → Outcome Bytes
sign_byte [] = panic
sign_byte (b ∷ bs) = ok (if ltb 0 (bit_and b 0x80) then 0 ∷ b ∷ bs else b ∷ bs)

module _ (bo : ByteOrder) (ssl : Openssl) where
  abbrev written : Bytes → Outcome Bytes → Outcome Bytes
  written buf (ok bytes) = ok (write_string bo buf bytes)
  written buf (err e) = err e
  written buf panic = panic

  unfoldable pub write_mpint : Bytes → ssl.BigNum → Outcome Bytes
  unfolding sign_byte
  write_mpint buf bn = written buf (sign_byte (ssl.to_vec bn))
