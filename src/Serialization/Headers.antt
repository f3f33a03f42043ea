-- ===== src/Serialization/Headers.antt =====
-- The encoding of headers and blocks: chain/src/block_header.rs, block.rs and indexed_block.rs, with the
-- instance for `Integer` of serialization/src/impls.rs. The bytes of a `VrfPk` and of an `Integer` are
-- what `ecvrf` and `rug` make of them.
use rust_randchain_prototype.Prelude.{
  ℕ, Option, none, some, List, ◌++◌, ◌==◌, if◌then◌else◌, length,
}
use rust_randchain_prototype.Blocks.{BlockHeader}
use rust_randchain_prototype.Serialization.Reader.{Parser, ◌>>=◌, answer, refuse, malformed_data}
use rust_randchain_prototype.Serialization.Impls.{
  LittleEndian, serialize_u32, deserialize_u32, serialize_h256, deserialize_h256,
}
use rust_randchain_prototype.Serialization.Lists.{
  serialize_bytes, deserialize_bytes, serialized_bytes_size, append_list, read_list,
}

-- `VrfPk::to_bytes`, `VrfPk::from_bytes`, and `Integer::to_digits` and `from_digits`, most significant
-- digit first.
pub record Foreign (Pk Int : Type 0) : Type 0 where
  pub pk_bytes : Pk → List ℕ
  pub pk_from_bytes : List ℕ → Option Pk
  pub to_digits : Int → List ℕ
  pub from_digits : List ℕ → Int

-- chain/src/block.rs
pub record Block (Pk Int : Type 0) : Type 0 where
  pub block_header : BlockHeader Pk Int
  pub proof : List Int

module _ {Pk Int : Type 0} (order : LittleEndian) (foreign : Foreign Pk Int) where
  unfoldable pub serialize_integer : Int → List ℕ
  serialize_integer i = serialize_bytes order (foreign.to_digits i)

  unfoldable pub integer_size : Int → ℕ
  integer_size i = serialized_bytes_size (foreign.to_digits i)

  unfoldable pub deserialize_integer : Parser Int
  deserialize_integer = deserialize_bytes order >>= λ digits. answer (foreign.from_digits digits)

  unfoldable pub pubkey_of : List ℕ → Parser Pk
  pubkey_of bytes =
      if length bytes == 32
      then elim (foreign.pk_from_bytes bytes) [ none ↦ refuse malformed_data | some pk ↦ answer pk ]
      else refuse malformed_data

  unfoldable pub deserialize_pubkey : Parser Pk
  unfolding pubkey_of
  deserialize_pubkey = deserialize_bytes order >>= pubkey_of

  unfoldable pub serialize_header : BlockHeader Pk Int → List ℕ
  unfolding serialize_integer
  serialize_header h =
      serialize_u32 order h.version
      ++ (serialize_h256 h.previous_header_hash
          ++ (serialize_u32 order h.time
              ++ (serialize_u32 order h.bits
                  ++ (serialize_bytes order (foreign.pk_bytes h.pubkey)
                      ++ (serialize_u32 order h.iterations ++ serialize_integer h.randomness)))))

  unfoldable pub deserialize_header : Parser (BlockHeader Pk Int)
  unfolding deserialize_pubkey deserialize_integer
  deserialize_header = do
    version ← deserialize_u32 order
    previous ← deserialize_h256
    time ← deserialize_u32 order
    bits ← deserialize_u32 order
    pubkey ← deserialize_pubkey
    iterations ← deserialize_u32 order
    randomness ← deserialize_integer
    answer (record {
      version = version;
      previous_header_hash = previous;
      time = time;
      bits = bits;
      pubkey = pubkey;
      iterations = iterations;
      randomness = randomness;
    })

  unfoldable pub serialize_block : Block Pk Int → List ℕ
  unfolding serialize_header serialize_integer
  serialize_block b = serialize_header b.block_header ++ append_list order serialize_integer b.proof

  unfoldable pub deserialize_block : Parser (Block Pk Int)
  unfolding deserialize_header deserialize_integer
  deserialize_block = do
    header ← deserialize_header
    proof ← read_list order deserialize_integer
    answer (record { block_header = header; proof = proof })
