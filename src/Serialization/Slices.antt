-- ===== src/Serialization/Slices.antt =====
-- What reading a slice gives, in terms of the bytes that are still unread.
use rust_randchain_prototype.Prelude.{
  ℕ, ◌-◌, ◌≡◌, refl, ap, ◌∙◌, subst, Option, none, some, List, [], ◌∷◌, ◌++◌, append-nil,
  append_assoc, arith, length, take, drop, success, failure,
}
use rust_randchain_prototype.Serialization.Reader.{
  unexpected_end, Reader, read_peeked, read_some, read_exact, read_slice, Parser, ◌>>=◌, answer,
}

abbrev pub unread : Reader → List ℕ
unread r = elim r.peeked [ none ↦ r.buffer | some p ↦ p ∷ r.buffer ]

-- A parser reads `bytes` as `a`, whatever follows them.
abbrev pub Reads : {A : Type 0} → Parser A → List ℕ → A → Type 0
Reads {A = A} parser bytes a =
    (r : Reader) (rest : List ℕ)
    → unread r ≡ bytes ++ rest
    → (r' : Reader) × (parser r ≡ (success a, r')) × (unread r' ≡ rest)

take_prefix : (bs rest : List ℕ) → take (length bs) (bs ++ rest) ≡ bs
take_prefix [] rest = refl
take_prefix (b ∷ bs) rest = ap (λ l. b ∷ l) (take_prefix bs rest)

drop_prefix : (bs rest : List ℕ) → drop (length bs) (bs ++ rest) ≡ rest
drop_prefix [] rest = refl
drop_prefix (b ∷ bs) rest = drop_prefix bs rest

-- One `read` gives all the bytes that are asked for, when they are there.
read_some_prefix :
    (bs rest : List ℕ) (buffer : List ℕ) (peeked : Option ℕ)
    → unread (record { buffer = buffer; peeked = peeked }) ≡ bs ++ rest
    → (r' : Reader) × (read_some (length bs) (record { buffer = buffer; peeked = peeked })
        ≡ (bs, r'))
      × (unread r' ≡ rest)
unfolding read_some read_peeked
read_some_prefix bs rest buffer none e = (
  record { buffer = rest; peeked = none },
  ap (λ l. (take (length bs) l, record { buffer = drop (length bs) l; peeked = none })) e
      ∙ ap (λ l. (l, record { buffer = drop (length bs) (bs ++ rest); peeked = none }))
          (take_prefix bs rest)
      ∙ ap (λ l. (bs, record { buffer = l; peeked = none })) (drop_prefix bs rest),
  refl,
)
read_some_prefix [] rest buffer (some p) e = (record { buffer = buffer; peeked = some p }, refl, e)
read_some_prefix (b ∷ bs) rest buffer (some p) e =
    let same : p ≡ b = cc in
    let others : buffer ≡ bs ++ rest = cc in
    (
      record { buffer = rest; peeked = none },
      ap (λ l. (p ∷ take (length bs) l, record { buffer = drop (length bs) l; peeked = none }))
            others
          ∙ ap (λ l. (p ∷ l, record { buffer = drop (length bs) (bs ++ rest); peeked = none }))
              (take_prefix bs rest)
          ∙ ap (λ l. (p ∷ bs, record { buffer = l; peeked = none })) (drop_prefix bs rest)
          ∙ ap (λ x. (x ∷ bs, record { buffer = rest; peeked = none })) same,
      refl,
    )

-- Reading a slice gives the bytes that are next, whether the first one was peeked at or not.
pub read_slice-Reads : (bs : List ℕ) → Reads (read_slice (length bs)) bs bs
unfolding read_slice read_exact
read_slice-Reads [] r rest e = (r, refl, e)
read_slice-Reads (b ∷ bs) r rest e =
    let (r', found, left) = read_some_prefix (b ∷ bs) rest r.buffer r.peeked e in
    let nothing : length bs - length bs ≡ 0 = omega arith in
    (
      r',
      ap
            (λ x. elim x.0 [
              | [] ↦ (failure unexpected_end, x.1)
              | byte ∷ more ↦ read_exact (length bs - length more) (length bs) x.1 (byte ∷ more)
            ])
            found
          ∙ ap (λ n. read_exact n (length bs) r' (b ∷ bs)) nothing,
      left,
    )

-- Parsers in a row read bytes in a row.
pub bind-Reads :
    {A B : Type 0} (parser : Parser A) (after : A → Parser B) (bytes more : List ℕ) (a : A) (b : B)
    → Reads parser bytes a
    → Reads (after a) more b
    → Reads (parser >>= after) (bytes ++ more) b
unfolding ◌>>=◌
bind-Reads parser after bytes more a b first second r rest e =
    let (mid, found, left) = first r (more ++ rest) (e ∙ append_assoc bytes more rest) in
    let (r', found', left') = second mid rest left in
    (
      r',
      ap (λ x. elim x.0 [ failure err ↦ (failure err, x.1) | success v ↦ after v x.1 ]) found
          ∙ found',
      left',
    )

pub answer-Reads : {A : Type 0} (a : A) → Reads (answer a) [] a
unfolding answer
answer-Reads a r rest e = (r, refl, e)

-- Reading a value and answering a function of it.
pub map-Reads :
    {A B : Type 0} (parser : Parser A) (f : A → B) (bytes : List ℕ) (a : A)
    → Reads parser bytes a
    → Reads (parser >>= λ x. answer (f x)) bytes (f a)
map-Reads parser f bytes a h =
    subst (λ l. Reads (parser >>= λ x. answer (f x)) l (f a)) (append-nil bytes)
      (bind-Reads parser (λ x. answer (f x)) bytes [] a (f a) h (answer-Reads (f a)))
