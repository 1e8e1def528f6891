-- ===== src/Storage/Chunks.antt =====
-- Cutting a buffer into chunks: where each begins, how long it is, and how many there are.
use native.Mathlib.Nat.{
  mul-le-mul_left, mul-le-mul_right, mul-lt-mul_of_pos_right, add-mul-mod_self_right, mul_comm,
  suc-mul, zero-add, suc-add, mod-eq_of_lt,
}
use native.Mathlib.Omega.{div_any, arith}
use dovecot_ceph_plugin.Prelude.{
  ℕ, zero, suc, ◌+◌, ◌-◌, ◌*◌, ◌/◌, ◌%◌, ◌<◌, ◌≤◌, pos, to_int, ◌≡◌, refl, ap, ◌∙◌, sym, List, [],
  ◌∷◌, ◌++◌, length, take, drop, take_all, ◌⊎◌, inl, inr, ltb, if◌then◌else◌,
}
use dovecot_ceph_plugin.Storage.{chunk_length, chunk_count, chunk_offset}

take_nil : {A : Type 0} (n : ℕ) → take {A = A} n [] ≡ []
take_nil zero = refl
take_nil (suc n) = refl

take_further : {A : Type 0} (n k : ℕ) (b : List A) → take n b ++ take k (drop n b) ≡ take (n + k) b
take_further zero k b = ap (λ j. take j b) (sym (zero-add k))
take_further (suc n) k [] = take_nil k ∙ sym (take_nil (suc n + k))
take_further (suc n) k (x ∷ b) =
    ap (◌∷◌ x) (take_further n k b) ∙ ap (λ j. take j (x ∷ b)) (sym (suc-add n k))

mul_one_le : (n m : ℕ) → 0 < m → n ≤ n * m
mul_one_le n m h = ground (arith, mul-le-mul_left {m = 1} {n = m} n)

le_times : (i q m : ℕ) → i ≤ q → i * m ≤ q * m
le_times i q m h = mul-le-mul_right m h

lt_times : (i q m : ℕ) → 0 < m → i < q → i * m < q * m
lt_times i q m h k = mul-lt-mul_of_pos_right k h

unfoldable pub count : ℕ → ℕ → ℕ
count size m = size / m + (if ltb 0 (size % m) then 1 else 0)

-- A size of less than 2 ^ 31 and chunks of less than 2 ^ 32 bytes: no conversion changes a value.
module _ (size m : ℕ) (small : size < 2147483648) (positive : 0 < m) (narrow : m < 4294967296) where
  division : size / m * m + size % m ≡ size
  division = ap (λ x. x + size % m) (mul_comm (size / m) m) ∙ div_any size m

  quotient : size / m ≤ size / m * m
  quotient = mul_one_le (size / m) m positive

  pub chunk_count-pos : chunk_count size m ≡ pos (count size m)
  unfolding chunk_count count to_int
  chunk_count-pos = ground (arith, division, quotient)

  pub begins : (i : ℕ) → i < count size m → i * m < size
  unfolding count
  begins i h = ground (arith, division, le_times i (size / m) m, lt_times i (size / m) m positive)

  pub ends_all : size ≤ count size m * m
  unfolding count
  ends_all = ground (arith, division, suc-mul (size / m) m)

  module _ (i : ℕ) (inside : i * m < size) where
    pub chunk_offset-pos : chunk_offset m i ≡ pos (i * m)
    unfolding chunk_offset to_int
    chunk_offset-pos = ground arith

    split_size : size ≡ size - i * m + i * m
    split_size = omega arith

    last_rest : size < suc i * m → size % m ≡ size - i * m
    last_rest h =
        ap (λ x. x % m) split_size
        ∙ add-mul-mod_self_right (size - i * m) i m
        ∙ mod-eq_of_lt (ground (arith, suc-mul i m))

    pub chunk_length-rest :
        chunk_length size m i ≡ (if ltb size (suc i * m) then size - i * m else m)
    unfolding chunk_length
    chunk_length-rest = ground (arith, last_rest, suc-mul i m)

    pub chunk_fits : i * m + chunk_length size m i ≤ size
    chunk_fits = ground (arith, chunk_length-rest, suc-mul i m)

    pub chunk_length-narrow : chunk_length size m i < 4294967296
    chunk_length-narrow = ground (arith, chunk_length-rest, suc-mul i m)

    fills :
        (i * m + chunk_length size m i ≡ suc i * m)
        ⊎ ((size ≤ i * m + chunk_length size m i) × (size ≤ suc i * m))
    fills = ground (arith, chunk_length-rest, suc-mul i m)

    -- A chunk continues the buffer where the chunk before it ended.
    pub chunk_continues :
        {A : Type 0} (b : List A)
        → length b ≡ size
        → take (i * m) b ++ take (chunk_length size m i) (drop (i * m) b) ≡ take (suc i * m) b
    chunk_continues b h = take_further (i * m) (chunk_length size m i) b ∙ elim fills [
      | inl e ↦ ap (λ j. take j b) e
      | inr (p, q) ↦ take_all _ b (rw h p) ∙ sym (take_all _ b (rw h q))
    ]
