-- ===== src/Serialization/RoundTrip.antt =====
-- What was serialized is read back, whatever follows it, and the size that is announced is the size.
use rust_randchain_prototype.Prelude.{
  ℕ, suc, ◌^◌, ◌<◌, ◌≡◌, refl, ap, subst, inl, inr, true, List, [], ◌∷◌, ◌++◌, append-nil, arith,
  leb, Bool-cases, length, H256, to_bytes, of_bytes, length-to_bytes, of_bytes-to_bytes,
  bytes_bound,
}
use rust_randchain_prototype.Serialization.Reader.{Parser, ◌>>=◌, answer, read_slice}
use rust_randchain_prototype.Serialization.Slices.{
  Reads, read_slice-Reads, bind-Reads, map-Reads, answer-Reads,
}
use rust_randchain_prototype.Serialization.Impls.{
  LittleEndian, LittleEndianLaws, serialize_u8, deserialize_u8, serialize_u16, deserialize_u16,
  serialize_u32, deserialize_u32, serialize_u64, deserialize_u64, serialize_h256, deserialize_h256,
}
use rust_randchain_prototype.Serialization.CompactInteger
use rust_randchain_prototype.Serialization.Lists.{
  serialize_all, read_elements, append_list, read_list, serialize_bytes, deserialize_bytes,
}

-- Every element has a property.
abbrev pub All : {A : Type 0} → (A → Type 0) → List A → Type 0
All P [] = Unit
All P (x ∷ xs) = P x × All P xs

pub h256-Reads : (h : H256) → h < bytes_bound 32 → Reads deserialize_h256 (serialize_h256 h) h
unfolding deserialize_h256 serialize_h256
h256-Reads h small =
    subst (λ v. Reads (read_slice 32 >>= λ bytes. answer (of_bytes bytes)) (to_bytes 32 h) v)
      (of_bytes-to_bytes 32 h small)
      (map-Reads (read_slice 32) of_bytes (to_bytes 32 h) (to_bytes 32 h) (
        subst (λ n. Reads (read_slice n) (to_bytes 32 h) (to_bytes 32 h)) (length-to_bytes 32 h)
          (read_slice-Reads (to_bytes 32 h))))

u8-Reads : (n : ℕ) → Reads deserialize_u8 (serialize_u8 n) n
unfolding deserialize_u8 serialize_u8
u8-Reads n = map-Reads (read_slice 1) _ (n ∷ []) (n ∷ []) (read_slice-Reads (n ∷ []))

module _ (order : LittleEndian) (laws : LittleEndianLaws order) where
  number-Reads :
      (w n : ℕ)
      → n < bytes_bound w
      → Reads (read_slice w >>= λ bytes. answer (order.read bytes)) (order.write w n) n
  number-Reads w n small =
      subst (λ v. Reads (read_slice w >>= λ bytes. answer (order.read bytes)) (order.write w n) v)
        (laws.read_back w n small)
        (map-Reads (read_slice w) order.read (order.write w n) (order.write w n) (
          subst (λ k. Reads (read_slice k) (order.write w n) (order.write w n)) (laws.width w n)
            (read_slice-Reads (order.write w n))))

  pub u32-Reads : (n : ℕ) → n < 2 ^ 32 → Reads (deserialize_u32 order) (serialize_u32 order n) n
  unfolding deserialize_u32 serialize_u32
  u32-Reads n small = number-Reads 4 n (omega (arith, small))

  u16-Reads : (n : ℕ) → n < 2 ^ 16 → Reads (deserialize_u16 order) (serialize_u16 order n) n
  unfolding deserialize_u16 serialize_u16
  u16-Reads n small = number-Reads 2 n (omega (arith, small))

  u64-Reads : (n : ℕ) → n < 2 ^ 64 → Reads (deserialize_u64 order) (serialize_u64 order n) n
  unfolding deserialize_u64 serialize_u64
  u64-Reads n small = number-Reads 8 n (omega (arith, small))

  -- A first byte and the number behind it.
  marked-Reads :
      (mark n : ℕ) (bytes : List ℕ)
      → Reads (CompactInteger.after_first order mark) bytes n
      → Reads (CompactInteger.deserialize order) (serialize_u8 mark ++ bytes) n
  unfolding CompactInteger.deserialize
  marked-Reads mark n bytes h =
      bind-Reads deserialize_u8 (CompactInteger.after_first order) (serialize_u8 mark) bytes mark n
        (u8-Reads mark) h

  small-Reads :
      (n : ℕ) → leb n 252 ≡ true → Reads (CompactInteger.deserialize order) (serialize_u8 n) n
  unfolding CompactInteger.after_first
  small-Reads n e =
      subst (λ l. Reads (CompactInteger.deserialize order) l n) (append-nil (serialize_u8 n))
        (marked-Reads n n [] (rw (e, CompactInteger.after_first) (answer-Reads n)))

  -- A number of 64 bits is read back from its compact form, whatever follows it, and the form has the
  -- announced length.
  pub compact-Reads :
      (n : ℕ)
      → n < 2 ^ 64
      → Reads (CompactInteger.deserialize order) (CompactInteger.serialize order n) n
        × (length (CompactInteger.serialize order n) ≡ CompactInteger.serialized_size n)
  unfolding CompactInteger.serialize CompactInteger.serialized_size CompactInteger.after_first
      serialize_u8 serialize_u16 serialize_u32 serialize_u64
  compact-Reads n small = elim (Bool-cases (leb n 252)) [
    | inl e ↦ rw e (small-Reads n e, refl)
    | inr e ↦ elim (Bool-cases (leb n 65535)) [
      | inl f ↦
          rw (e, f)
            (
              marked-Reads 253 n (serialize_u16 order n) (u16-Reads n (ground (arith, f))),
              ap suc (laws.width 2 n),
            )
      | inr f ↦ elim (Bool-cases (leb n 4294967295)) [
        | inl g ↦
            rw (e, f, g)
              (
                marked-Reads 254 n (serialize_u32 order n) (u32-Reads n (ground (arith, g))),
                ap suc (laws.width 4 n),
              )
        | inr g ↦
            rw (e, f, g)
              (
                marked-Reads 255 n (serialize_u64 order n) (u64-Reads n small),
                ap suc (laws.width 8 n),
              )
      ]
    ]
  ]

  -- A byte string is read back.
  pub bytes-Reads :
      (bytes : List ℕ)
      → length bytes < 2 ^ 64
      → Reads (deserialize_bytes order) (serialize_bytes order bytes) bytes
  unfolding deserialize_bytes serialize_bytes
  bytes-Reads bytes small =
      bind-Reads (CompactInteger.deserialize order) read_slice
        (CompactInteger.serialize order (length bytes)) bytes (length bytes) bytes
        (compact-Reads (length bytes) small).0 (read_slice-Reads bytes)

  -- Elements that are read back one by one are read back in a row.
  pub read_elements-Reads :
      {A : Type 0} (element : Parser A) (serialize : A → List ℕ) (xs : List A)
      → All (λ x. Reads element (serialize x) x) xs
      → Reads (read_elements element (length xs)) (serialize_all serialize xs) xs
  unfolding read_elements serialize_all
  read_elements-Reads element serialize [] each = answer-Reads []
  read_elements-Reads element serialize (x ∷ xs) each =
      bind-Reads element (λ y. read_elements element (length xs) >>= λ ys. answer (y ∷ ys))
        (serialize x) (serialize_all serialize xs) x (x ∷ xs) each.0
        (map-Reads (read_elements element (length xs)) (λ ys. x ∷ ys) (serialize_all serialize xs)
          xs (read_elements-Reads element serialize xs each.1))

  -- A list of elements that are read back one by one is read back, whatever follows it.
  pub read_list-append_list :
      {A : Type 0} (element : Parser A) (serialize : A → List ℕ) (xs : List A)
      → All (λ x. Reads element (serialize x) x) xs
      → length xs < 2 ^ 64
      → Reads (read_list order element) (append_list order serialize xs) xs
  unfolding read_list append_list
  read_list-append_list element serialize xs each small =
      bind-Reads (CompactInteger.deserialize order) (read_elements element)
        (CompactInteger.serialize order (length xs)) (serialize_all serialize xs) (length xs) xs
        (compact-Reads (length xs) small).0 (read_elements-Reads element serialize xs each)
