-- ===== src/Serialization/Lists.antt =====
-- `append_list` and `serialized_list_size` of serialization/src/stream.rs, `read_list` and
-- `read_list_max` of serialization/src/reader.rs, and the byte strings of serialization/src/impls.rs. Room
-- for the elements is taken to be there: `Vec::with_capacity` and `Bytes::new_with_len` are asked for it
-- before an element is read. Lengths fit into 64 bits.
use rust_randchain_prototype.Prelude.{
  ℕ, zero, suc, ◌+◌, List, [], ◌∷◌, ◌++◌, ltb, if◌then◌else◌, length,
}
use rust_randchain_prototype.Serialization.Reader.{
  Parser, ◌>>=◌, answer, refuse, read_slice, malformed_data,
}
use rust_randchain_prototype.Serialization.Impls.{LittleEndian}
use rust_randchain_prototype.Serialization.CompactInteger

unfoldable pub serialize_all : {A : Type 0} → (A → List ℕ) → List A → List ℕ
serialize_all serialize [] = []
serialize_all serialize (x ∷ xs) = serialize x ++ serialize_all serialize xs

unfoldable pub total_size : {A : Type 0} → (A → ℕ) → List A → ℕ
total_size size [] = 0
total_size size (x ∷ xs) = size x + total_size size xs

unfoldable pub serialized_list_size : {A : Type 0} → (A → ℕ) → List A → ℕ
unfolding total_size
serialized_list_size size xs = CompactInteger.serialized_size (length xs) + total_size size xs

-- The loop `for _ in 0..len`.
unfoldable pub read_elements : {A : Type 0} → Parser A → ℕ → Parser (List A)
read_elements element zero = answer []
read_elements element (suc n) = do x ← element; xs ← read_elements element n; answer (x ∷ xs)

unfoldable pub serialized_bytes_size : List ℕ → ℕ
serialized_bytes_size bytes = CompactInteger.serialized_size (length bytes) + length bytes

module _ (order : LittleEndian) where
  unfoldable pub append_list : {A : Type 0} → (A → List ℕ) → List A → List ℕ
  unfolding serialize_all
  append_list serialize xs =
      CompactInteger.serialize order (length xs) ++ serialize_all serialize xs

  unfoldable pub read_list : {A : Type 0} → Parser A → Parser (List A)
  unfolding read_elements
  read_list element = CompactInteger.deserialize order >>= read_elements element

  unfoldable pub read_list_max : {A : Type 0} → Parser A → ℕ → Parser (List A)
  unfolding read_elements
  read_list_max element max = CompactInteger.deserialize order >>= λ len.
      if ltb max len then refuse malformed_data else read_elements element len

  -- `Serializable` and `Deserializable` for `Bytes`.
  unfoldable pub serialize_bytes : List ℕ → List ℕ
  serialize_bytes bytes = CompactInteger.serialize order (length bytes) ++ bytes

  unfoldable pub deserialize_bytes : Parser (List ℕ)
  deserialize_bytes = CompactInteger.deserialize order >>= read_slice
