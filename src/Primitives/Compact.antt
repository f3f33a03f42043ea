-- ===== src/Primitives/Compact.antt =====
-- primitives/src/compact.rs: a 256-bit target in 32 bits. A `U256` of the crate `bigint` is the
-- number it stands for; its operations whose results may not fit into 256 bits, and `bits`, are
-- parameters. `to_f64` is not modelled.
use rust_randchain_prototype.Prelude.{
  ℕ, ◌+◌, ◌-◌, ◌*◌, ◌/◌, ◌%◌, ◌^◌, not, ◌&&◌, ◌||◌, ltb, leb, ◌==◌, if◌then◌else◌, as_u32, Run, ok,
  panic, Result, success, failure,
}

-- What the source uses of `bigint::U256` beyond comparison, division and shifts to the right.
pub record Bigint : Type 0 where
  pub shl : ℕ → ℕ → ℕ
  pub mul : ℕ → ℕ → Run ℕ
  pub bits : ℕ → ℕ

abbrev pub Compact : Type 0
Compact = ℕ

abbrev pub max_u256 : ℕ
max_u256 = 2 ^ 256 - 1

module _ (big : Bigint) where
  -- The word of `to_u256` and the number it stands for.
  unfoldable pub word_and_result : Compact → ℕ × ℕ
  word_and_result c =
      let size = c / 2 ^ 24 in
      let word = c % 2 ^ 23 in
      if leb size 3
      then (word / 2 ^ (8 * (3 - size)), word / 2 ^ (8 * (3 - size)))
      else (word, big.shl word (8 * (size - 3)))

  unfoldable pub to_u256 : Compact → Result ℕ ℕ
  unfolding word_and_result
  to_u256 c =
      let size = c / 2 ^ 24 in
      let (word, result) = word_and_result c in
      let is_negative = not (word == 0) && ((c / 2 ^ 23) % 2 == 1) in
      let is_overflow =
        (not (word == 0) && ltb 34 size)
        || (ltb 255 word && ltb 33 size)
        || (ltb 65535 word && ltb 32 size) in
      if is_negative || is_overflow then failure result else success result

  -- `impl From<Compact> for U256`
  unfoldable pub into_u256 : Compact → ℕ
  unfolding to_u256
  into_u256 c = elim (to_u256 c) [ success v ↦ v | failure v ↦ v ]

  -- The first part of `from_u256`: the size in bytes and the leading bytes.
  unfoldable pub size_and_compact : ℕ → ℕ × ℕ
  size_and_compact val =
      let size = (big.bits val + 7) / 8 in
      let compact =
        if leb size 3
        then as_u32 ((val % 2 ^ 64) * 2 ^ (8 * (3 - size)) % 2 ^ 64)
        else as_u32 (val / 2 ^ (8 * (size - 3))) in
      if (compact / 2 ^ 23) % 2 == 1 then (size + 1, compact / 2 ^ 8) else (size, compact)

  -- The bits of `compact` and of `size << 24` do not meet, so that `|` adds them.
  unfoldable pub from_u256 : ℕ → Run Compact
  unfolding size_and_compact
  from_u256 val =
      let (size, compact) = size_and_compact val in
      if ltb compact (2 ^ 23)
      then (if ltb size 256 then ok (compact + as_u32 (size * 2 ^ 24)) else panic)
      else panic

  unfoldable pub max_value : Run Compact
  unfolding from_u256
  max_value = from_u256 max_u256
