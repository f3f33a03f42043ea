-- ===== src/Serialization/Reader.antt =====
-- `Reader` of serialization/src/reader.rs over a slice of bytes. `io::Read` for a slice gives as many
-- bytes as there are, up to the length of the buffer; `read_exact` asks until the buffer is full.
-- `read_with_proxy`, whose proxy only looks at the bytes, is not modelled.
use rust_randchain_prototype.Prelude.{
  ℕ, zero, suc, ◌-◌, Bool, true, false, Option, none, some, List, [], ◌∷◌, ◌++◌, if◌then◌else◌,
  length, take, drop, Result, success, failure,
}

pub data Error : Type 0 where
  malformed_data unexpected_end unread_data : Error

pub record Reader : Type 0 where
  pub buffer : List ℕ
  pub peeked : Option ℕ

unfoldable pub new : List ℕ → Reader
new buffer = record { buffer = buffer; peeked = none }

-- `Read for Reader`, into a buffer of `n` bytes; the arms of its `match`.
unfoldable pub read_peeked : ℕ → ℕ → Reader → List ℕ × Reader
read_peeked zero p r = ([], r)
read_peeked (suc n) p r = (p ∷ take n r.buffer, record { buffer = drop n r.buffer; peeked = none })

unfoldable pub read_some : ℕ → Reader → List ℕ × Reader
unfolding read_peeked
read_some n r = elim r.peeked [
  | none ↦ (take n r.buffer, record { buffer = drop n r.buffer; peeked = none })
  | some p ↦ read_peeked n p r
]

-- `io::Read::read_exact` of `n` bytes, with fuel: a round that goes on has read a byte.
unfoldable pub read_exact : ℕ → ℕ → Reader → List ℕ → Result (List ℕ) Error × Reader
read_exact zero fuel r got = (success got, r)
read_exact (suc n) zero r got = (failure unexpected_end, r)
read_exact (suc n) (suc fuel) r got =
    let (bytes, r') = read_some (suc n) r in
    elim bytes [
      | [] ↦ (failure unexpected_end, r')
      | byte ∷ more ↦ read_exact (n - length more) fuel r' (got ++ (byte ∷ more))
    ]

unfoldable pub read_slice : ℕ → Reader → Result (List ℕ) Error × Reader
unfolding read_exact
read_slice n r = read_exact n n r []

unfoldable pub is_finished : Reader → Bool × Reader
is_finished r = elim r.peeked [
  | some p ↦ (false, r)
  | none ↦
      let (found, r') = read_slice 1 r in
      elim found [
        | success [] ↦ (false, r')
        | success (byte ∷ _) ↦ (false, record r' { peeked = some byte })
        | failure e ↦ (true, r')
      ]
]

-- Reading a value, and `?`: an error is the answer, with what was read gone.
abbrev pub Parser : Type 0 → Type 0
Parser A = Reader → Result A Error × Reader

infixl 5 ◌>>=◌
unfoldable pub ◌>>=◌ : {A B : Type 0} → Parser A → (A → Parser B) → Parser B
(parser >>= after) r =
    let (answer, r') = parser r in
    elim answer [ failure e ↦ (failure e, r') | success a ↦ after a r' ]

unfoldable pub answer : {A : Type 0} → A → Parser A
answer a r = (success a, r)

unfoldable pub refuse : {A : Type 0} → Error → Parser A
refuse e r = (failure e, r)

-- The free function `deserialize`.
unfoldable pub deserialize : {A : Type 0} → Parser A → List ℕ → Result A Error
unfolding is_finished
deserialize parser buffer =
    let (result, r) = parser (new buffer) in
    elim result [
      | failure e ↦ failure e
      | success a ↦ if (is_finished r).0 then success a else failure unread_data
    ]

-- `skip_while`, with fuel: a round takes one byte.
unfoldable pub skip_while : ℕ → (ℕ → Bool) → Reader → Reader
skip_while zero predicate r = r
skip_while (suc fuel) predicate r =
    let (bytes, r') = read_some 1 r in
    elim bytes [
      | [] ↦ r'
      | byte ∷ _ ↦
          let rest = skip_while fuel predicate r' in
          if predicate byte then rest else record r' { peeked = some byte }
    ]
