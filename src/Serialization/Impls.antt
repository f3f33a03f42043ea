-- ===== src/Serialization/Impls.antt =====
-- serialization/src/impls.rs: the bytes of numbers, truth values, hashes and byte strings. `serialize`
-- gives the bytes that it appends to the stream. What `byteorder` writes and reads is a parameter.
-- The types that wrap C strings and signed numbers are not modelled.
use rust_randchain_prototype.Prelude.{
  ℕ, zero, suc, ◌<◌, ◌≡◌, Bool, true, false, List, [], ◌∷◌, length, H256, to_bytes, of_bytes,
  bytes_bound,
}
use rust_randchain_prototype.Serialization.Reader.{
  malformed_data, read_slice, Parser, ◌>>=◌, answer, refuse,
}

-- `WriteBytesExt` and `ReadBytesExt` with `LittleEndian`: the bytes of a number of a width, and back.
pub record LittleEndian : Type 0 where
  pub write : ℕ → ℕ → List ℕ
  pub read : List ℕ → ℕ

pub record LittleEndianLaws (order : LittleEndian) : Type 0 where
  pub width : (w n : ℕ) → length (order.write w n) ≡ w
  pub read_back : (w n : ℕ) → n < bytes_bound w → order.read (order.write w n) ≡ n

unfoldable pub serialize_u8 : ℕ → List ℕ
serialize_u8 n = n ∷ []

abbrev head_or_zero : List ℕ → ℕ
head_or_zero [] = 0
head_or_zero (b ∷ bs) = b

-- `read_u8`
unfoldable pub deserialize_u8 : Parser ℕ
deserialize_u8 = read_slice 1 >>= λ bytes. answer (head_or_zero bytes)

unfoldable pub serialize_bool : Bool → List ℕ
serialize_bool true = 1 ∷ []
serialize_bool false = 0 ∷ []

unfoldable pub bool_of : ℕ → Parser Bool
bool_of zero = answer false
bool_of (suc zero) = answer true
bool_of (suc (suc n)) = refuse malformed_data

unfoldable pub deserialize_bool : Parser Bool
unfolding bool_of
deserialize_bool = deserialize_u8 >>= bool_of

-- A hash is its 32 bytes.
unfoldable pub serialize_h256 : H256 → List ℕ
serialize_h256 h = to_bytes 32 h

unfoldable pub deserialize_h256 : Parser H256
deserialize_h256 = read_slice 32 >>= λ bytes. answer (of_bytes bytes)

module _ (order : LittleEndian) where
  unfoldable pub serialize_u16 : ℕ → List ℕ
  serialize_u16 n = order.write 2 n

  unfoldable pub serialize_u32 : ℕ → List ℕ
  serialize_u32 n = order.write 4 n

  unfoldable pub serialize_u64 : ℕ → List ℕ
  serialize_u64 n = order.write 8 n

  unfoldable pub deserialize_u16 : Parser ℕ
  deserialize_u16 = read_slice 2 >>= λ bytes. answer (order.read bytes)

  unfoldable pub deserialize_u32 : Parser ℕ
  deserialize_u32 = read_slice 4 >>= λ bytes. answer (order.read bytes)

  unfoldable pub deserialize_u64 : Parser ℕ
  deserialize_u64 = read_slice 8 >>= λ bytes. answer (order.read bytes)
