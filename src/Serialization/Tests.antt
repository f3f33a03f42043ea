-- ===== src/Serialization/Tests.antt =====
-- The encoding on small values, with concrete choices for `byteorder`, `ecvrf` and `rug`: two keys, and
-- numbers of four bytes.
use rust_randchain_prototype.Prelude.{
  ℕ, suc, ◌==◌, ◌<◌, ◌^◌, ◌≡◌, refl, ap, Bool, true, false, Option, none, some, List, [], ◌∷◌,
  arith, length, to_bytes, of_bytes, length-to_bytes, of_bytes-to_bytes, bytes_bound, success,
}
use rust_randchain_prototype.Serialization.Reader.{deserialize}
use rust_randchain_prototype.Serialization.Slices.{Reads}
use rust_randchain_prototype.Serialization.Impls.{
  LittleEndian, LittleEndianLaws, serialize_u8, serialize_u32,
}
use rust_randchain_prototype.Serialization.CompactInteger
use rust_randchain_prototype.Serialization.Headers.{
  Foreign, Block, serialize_block, deserialize_block,
}
use rust_randchain_prototype.Serialization.RoundTrip.{compact-Reads}
use rust_randchain_prototype.Serialization.BlockTrip.{
  ForeignLaws, Fits, deserialize-serialize_block,
}

abbrev pub little : LittleEndian
little = record { write = to_bytes; read = of_bytes }

pub little_laws : LittleEndianLaws little
little_laws = record { width = length-to_bytes; read_back = of_bytes-to_bytes }

-- The example of the source's tests.
compact_bytes : CompactInteger.serialize little 65536 ≡ 254 ∷ 0 ∷ 0 ∷ 1 ∷ 0 ∷ []
unfolding CompactInteger.serialize serialize_u8 serialize_u32 to_bytes
compact_bytes = refl

compact-Reads_example :
    Reads (CompactInteger.deserialize little) (CompactInteger.serialize little 65536) 65536
    × (length (CompactInteger.serialize little 65536) ≡ CompactInteger.serialized_size 65536)
compact-Reads_example = compact-Reads little little_laws 65536 (omega arith)

abbrev key_bytes : Bool → List ℕ
key_bytes true = 1 ∷ to_bytes 31 0
key_bytes false = 0 ∷ to_bytes 31 0

abbrev key_of : List ℕ → Option Bool
key_of [] = none
key_of (b ∷ bs) = some (b == 1)

abbrev foreign : Foreign Bool ℕ
foreign = record {
  pk_bytes = key_bytes;
  pk_from_bytes = key_of;
  to_digits = to_bytes 4;
  from_digits = of_bytes;
}

abbrev FourBytes : ℕ → Type 0
FourBytes n = n < bytes_bound 4

foreign_laws : ForeignLaws foreign FourBytes
foreign_laws = record {
  pk_width = width;
  pk_back = back;
  digits_back = of_bytes-to_bytes 4;
  digits_count = count;
}
  where
    width : (key : Bool) → length (key_bytes key) ≡ 32
    width true = ap suc (length-to_bytes 31 0)
    width false = ap suc (length-to_bytes 31 0)

    back : (key : Bool) → key_of (key_bytes key) ≡ some key
    back true = refl
    back false = refl

    count : (n : ℕ) → length (to_bytes 4 n) < 2 ^ 64
    count n = omega (arith, length-to_bytes 4 n)

abbrev block : Block Bool ℕ
block = record {
  block_header = record {
    version = 1;
    previous_header_hash = 70000;
    time = 4;
    bits = 5;
    pubkey = true;
    iterations = 100000;
    randomness = 8;
  };
  proof = 7 ∷ 300 ∷ [];
}

block-Fits : Fits FourBytes block.block_header
block-Fits = record {
  version_fits = omega arith;
  hash_fits = omega arith;
  time_fits = omega arith;
  bits_fit = omega arith;
  iterations_fit = omega arith;
  randomness_natural = omega arith;
}

deserialize-serialize_block_example :
    deserialize (deserialize_block little foreign) (serialize_block little foreign block)
    ≡ success block
deserialize-serialize_block_example =
    deserialize-serialize_block little little_laws foreign FourBytes foreign_laws block block-Fits
      (omega arith, (omega arith, tt)) (omega arith)
