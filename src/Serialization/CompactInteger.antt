-- ===== src/Serialization/CompactInteger.antt =====
-- serialization/src/compact_integer.rs: a number of 64 bits in one, three, five or nine bytes.
use rust_randchain_prototype.Prelude.{ℕ, List, ◌++◌, leb, ◌==◌, if◌then◌else◌}
use rust_randchain_prototype.Serialization.Reader.{Parser, ◌>>=◌, answer}
use rust_randchain_prototype.Serialization.Impls.{
  LittleEndian, serialize_u8, serialize_u16, serialize_u32, serialize_u64, deserialize_u8,
  deserialize_u16, deserialize_u32, deserialize_u64,
}

unfoldable pub serialized_size : ℕ → ℕ
serialized_size n =
    if leb n 252 then 1 else if leb n 65535 then 3 else if leb n 4294967295 then 5 else 9

module _ (order : LittleEndian) where
  unfoldable pub serialize : ℕ → List ℕ
  serialize n =
      if leb n 252
      then serialize_u8 n
      else if leb n 65535
      then serialize_u8 253 ++ serialize_u16 order n
      else if leb n 4294967295
      then serialize_u8 254 ++ serialize_u32 order n
      else serialize_u8 255 ++ serialize_u64 order n

  -- The `match` on the first byte.
  unfoldable pub after_first : ℕ → Parser ℕ
  after_first i =
      if leb i 252
      then answer i
      else if i == 253
      then deserialize_u16 order
      else if i == 254
      then deserialize_u32 order
      else deserialize_u64 order

  unfoldable pub deserialize : Parser ℕ
  unfolding after_first
  deserialize = deserialize_u8 >>= after_first
