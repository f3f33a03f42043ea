-- ===== src/Serialization/BlockTrip.antt =====
-- Headers and blocks are read back from their bytes.
use rust_randchain_prototype.Prelude.{
  ℕ, ◌^◌, ◌<◌, ◌≡◌, refl, sym, ap, ◌∙◌, subst, true, Option, none, some, List, [], ◌∷◌, append-nil,
  arith, ◌==◌, if◌then◌else◌, length, bytes_bound, success, failure,
}
use rust_randchain_prototype.Blocks.{BlockHeader}
use rust_randchain_prototype.Serialization.Reader.{
  Reader, Parser, new, deserialize, is_finished, unread_data, read_slice, read_exact, read_some,
}
use rust_randchain_prototype.Serialization.Slices.{
  Reads, unread, bind-Reads, map-Reads, answer-Reads,
}
use rust_randchain_prototype.Serialization.Impls.{
  LittleEndian, LittleEndianLaws, serialize_u32, deserialize_u32, serialize_h256, deserialize_h256,
}
use rust_randchain_prototype.Serialization.Lists.{
  serialize_bytes, deserialize_bytes, append_list, read_list,
}
use rust_randchain_prototype.Serialization.RoundTrip.{
  All, h256-Reads, u32-Reads, bytes-Reads, read_list-append_list,
}
use rust_randchain_prototype.Serialization.Headers.{
  Foreign, Block, serialize_integer, deserialize_integer, pubkey_of, deserialize_pubkey,
  serialize_header, deserialize_header, serialize_block, deserialize_block,
}

-- What the encoding relies on of `ecvrf` and `rug`: a key has 32 bytes that give it back, and the digits
-- of a number that is not negative give it back; the digits of any number are fewer than 2 ^ 64.
pub record ForeignLaws {Pk Int : Type 0} (foreign : Foreign Pk Int) (IsNatural : Int → Type 0)
    : Type 0 where
  pub pk_width : (pk : Pk) → length (foreign.pk_bytes pk) ≡ 32
  pub pk_back : (pk : Pk) → foreign.pk_from_bytes (foreign.pk_bytes pk) ≡ some pk
  pub digits_back : (i : Int) → IsNatural i → foreign.from_digits (foreign.to_digits i) ≡ i
  pub digits_count : (i : Int) → length (foreign.to_digits i) < 2 ^ 64

-- The numbers of a header fit into their words, and its randomness is not negative.
pub record Fits {Pk Int : Type 0} (IsNatural : Int → Type 0) (h : BlockHeader Pk Int) : Type 0 where
  pub version_fits : h.version < 2 ^ 32
  pub hash_fits : h.previous_header_hash < bytes_bound 32
  pub time_fits : h.time < 2 ^ 32
  pub bits_fit : h.bits < 2 ^ 32
  pub iterations_fit : h.iterations < 2 ^ 32
  pub randomness_natural : IsNatural h.randomness

finished : (r : Reader) → unread r ≡ [] → (is_finished r).0 ≡ true
unfolding is_finished read_slice read_exact read_some
finished r e = go r.buffer r.peeked e
  where
    go :
        (buffer : List ℕ) (peeked : Option ℕ)
        → unread (record { buffer = buffer; peeked = peeked }) ≡ []
        → (is_finished (record { buffer = buffer; peeked = peeked })).0 ≡ true
    go [] none e = refl
    go (b ∷ bs) none e = cc
    go buffer (some p) e = cc

-- What is read from its bytes alone leaves nothing unread.
pub deserialize-Reads :
    {A : Type 0} (parser : Parser A) (bytes : List ℕ) (a : A)
    → Reads parser bytes a
    → deserialize parser bytes ≡ success a
unfolding deserialize new
deserialize-Reads parser bytes a h =
    let (r', e, left) = h (new bytes) [] (sym (append-nil bytes)) in
    ap
      (λ x. elim x.0 [
        | failure err ↦ failure err
        | success v ↦ if (is_finished x.1).0 then success v else failure unread_data
      ])
      e
    ∙ ap (λ test. if test then success a else failure unread_data) (finished r' left)

module _ {Pk Int : Type 0} (order : LittleEndian) (laws : LittleEndianLaws order)
    (foreign : Foreign Pk Int) (IsNatural : Int → Type 0)
    (foreign_laws : ForeignLaws foreign IsNatural) where
  integer-Reads :
      (i : Int)
      → IsNatural i
      → Reads (deserialize_integer order foreign) (serialize_integer order foreign i) i
  unfolding deserialize_integer serialize_integer
  integer-Reads i natural =
      subst (λ v. Reads (deserialize_integer order foreign) (serialize_integer order foreign i) v)
        (foreign_laws.digits_back i natural)
        (map-Reads (deserialize_bytes order) foreign.from_digits
          (serialize_bytes order (foreign.to_digits i)) (foreign.to_digits i)
          (bytes-Reads order laws (foreign.to_digits i) (foreign_laws.digits_count i)))

  pubkey-Reads :
      (pk : Pk)
      → Reads (deserialize_pubkey order foreign) (serialize_bytes order (foreign.pk_bytes pk)) pk
  unfolding deserialize_pubkey pubkey_of
  pubkey-Reads pk =
      let small : length (foreign.pk_bytes pk) < 2 ^ 64 = omega (arith, foreign_laws.pk_width pk) in
      let wide : (length (foreign.pk_bytes pk) == 32) ≡ true =
        ground (arith, foreign_laws.pk_width pk) in
      subst (λ l. Reads (deserialize_pubkey order foreign) l pk)
        (append-nil (serialize_bytes order (foreign.pk_bytes pk)))
        (bind-Reads (deserialize_bytes order) (pubkey_of order foreign)
          (serialize_bytes order (foreign.pk_bytes pk)) [] (foreign.pk_bytes pk) pk
          (bytes-Reads order laws (foreign.pk_bytes pk) small)
          (rw (wide, foreign_laws.pk_back pk, pubkey_of) (answer-Reads pk)))

  header-Reads :
      (h : BlockHeader Pk Int)
      → Fits IsNatural h
      → Reads (deserialize_header order foreign) (serialize_header order foreign h) h
  unfolding deserialize_header serialize_header
  header-Reads h fits =
      bind-Reads (deserialize_u32 order) _ (serialize_u32 order h.version) _ h.version h
        (u32-Reads order laws h.version fits.version_fits)
        (bind-Reads deserialize_h256 _ (serialize_h256 h.previous_header_hash) _
          h.previous_header_hash h (h256-Reads h.previous_header_hash fits.hash_fits)
          (bind-Reads (deserialize_u32 order) _ (serialize_u32 order h.time) _ h.time h
            (u32-Reads order laws h.time fits.time_fits)
            (bind-Reads (deserialize_u32 order) _ (serialize_u32 order h.bits) _ h.bits h
              (u32-Reads order laws h.bits fits.bits_fit)
              (bind-Reads (deserialize_pubkey order foreign) _
                (serialize_bytes order (foreign.pk_bytes h.pubkey)) _ h.pubkey h
                (pubkey-Reads h.pubkey)
                (bind-Reads (deserialize_u32 order) _ (serialize_u32 order h.iterations) _
                  h.iterations h (u32-Reads order laws h.iterations fits.iterations_fit)
                  (map-Reads (deserialize_integer order foreign)
                    (λ randomness. record h { randomness = randomness })
                    (serialize_integer order foreign h.randomness) h.randomness
                    (integer-Reads h.randomness fits.randomness_natural)))))))

  integers-Reads :
      (xs : List Int)
      → All IsNatural xs
      → All
          (λ x. Reads (deserialize_integer order foreign) (serialize_integer order foreign x) x)
          xs
  integers-Reads [] natural = tt
  integers-Reads (x ∷ xs) natural = (integer-Reads x natural.0, integers-Reads xs natural.1)

  -- A block whose header's numbers fit into their words, whose proof has fewer than 2 ^ 64 numbers, and none
  -- of whose big numbers is negative, is read back from its bytes, and nothing is left of them.
  pub deserialize-serialize_block :
      (b : Block Pk Int)
      → Fits IsNatural b.block_header
      → All IsNatural b.proof
      → length b.proof < 2 ^ 64
      → deserialize (deserialize_block order foreign) (serialize_block order foreign b) ≡ success b
  unfolding deserialize_block serialize_block
  deserialize-serialize_block b fits natural small =
      deserialize-Reads (deserialize_block order foreign) (serialize_block order foreign b) b (
        bind-Reads (deserialize_header order foreign) _
          (serialize_header order foreign b.block_header) _ b.block_header b
          (header-Reads b.block_header fits)
          (map-Reads (read_list order (deserialize_integer order foreign))
            (λ proof. record { block_header = b.block_header; proof = proof })
            (append_list order (serialize_integer order foreign) b.proof) b.proof
            (read_list-append_list order laws (deserialize_integer order foreign)
              (serialize_integer order foreign) b.proof (integers-Reads b.proof natural) small)))
