-- ===== src/Util/Replace.antt =====
-- src/librmb/rados-util.cpp: replacing a text in a text.
pub mod Removal
use dovecot_ceph_plugin.Prelude.{
  ℕ, zero, suc, ◌+◌, ◌-◌, ◌<◌, ◌≤◌, ◌≡◌, refl, sym, ap, ◌∙◌, Bool, true, false, not, ◌&&◌, Option,
  none, some, List, [], ◌∷◌, ◌++◌, Text, has_prefix, every, keep, length, take, drop, length-append,
  length-take, length-drop, is_empty, arith, ltb, leb, ◌==◌, if◌then◌else◌,
}

-- The first place where a text occurs.
find_here : Text → Text → Option ℕ
find_here find [] = if is_empty find then some 0 else none
find_here find (c ∷ s) =
    if has_prefix find (c ∷ s)
    then some 0
    else elim (find_here find s) [ none ↦ none | some i ↦ some (suc i) ]

-- `source.find(find, i)`.
find_from : Text → Text → ℕ → Option ℕ
find_from source find i =
    if ltb (length source) i
    then none
    else elim (find_here find (drop i source)) [ none ↦ none | some j ↦ some (i + j) ]

-- `source.replace(i, n, replace)`.
replace_at : Text → ℕ → ℕ → Text → Text
replace_at source i n replace = take i source ++ (replace ++ drop (i + n) source)

-- The loop of `find_and_replace` from place `i` on; `none` where it has not ended after as many
-- rounds as the first argument.
pub find_and_replace : ℕ → Text → Text → Text → ℕ → Option Text
find_and_replace zero find replace source i = none
find_and_replace (suc fuel) find replace source i = elim (find_from source find i) [
  | none ↦ some source
  | some j ↦
      find_and_replace fuel find replace (replace_at source j (length find) replace)
        (j + length replace)
]

length-has_prefix : (find s : Text) → has_prefix find s ≡ true → length find ≤ length s
length-has_prefix [] s h = omega arith
length-has_prefix (p ∷ ps) [] h = absurd (ground arith)
length-has_prefix (p ∷ ps) (c ∷ s) h = ground (arith, length-has_prefix ps s)

-- A place that was found, from `low` on, with `n` bytes before `high`.
abbrev Between : ℕ → ℕ → ℕ → Option ℕ → Type 0
Between low n high none = Unit
Between low n high (some j) = (low ≤ j) × (j + n ≤ high)

-- A text that is found ends within the one that is searched.
find_here-Between : (find s : Text) → Between 0 (length find) (length s) (find_here find s)
unfolding find_here
find_here-Between [] [] = ground arith
find_here-Between (p ∷ ps) [] = ground arith
find_here-Between find (c ∷ s) =
    ground (arith, length-has_prefix find (c ∷ s), find_here-Between find s)

find_from-Between :
    (source find : Text) (i : ℕ) → Between i (length find) (length source) (find_from source find i)
unfolding find_from
find_from-Between source find i =
    ground (arith, find_here-Between find (drop i source), length-drop i source)

length-replace_at :
    (source replace : Text) (i n : ℕ)
    → i + n ≤ length source
    → length (replace_at source i n replace) + n ≡ length source + length replace
unfolding replace_at
length-replace_at source replace i n h = omega (
  arith,
  length-append (take i source) (replace ++ drop (i + n) source),
  length-append replace (drop (i + n) source),
  length-take i source,
  length-drop (i + n) source,
)

-- The loop ends for every text that is looked for, unless it is empty: one round more than there
-- are bytes from its start on is enough.
pub find_and_replace_ends :
    (fuel : ℕ) (find replace source : Text) (i : ℕ)
    → 0 < length find
    → length source < fuel + i
    → i ≤ length source
    → (r : Text) × (find_and_replace fuel find replace source i ≡ some r)
unfolding find_and_replace
find_and_replace_ends zero find replace source i filled h low = absurd (omega arith)
find_and_replace_ends (suc fuel) find replace source i filled h low =
    elim (find_from source find i)
        as (λ o.
          Between i (length find) (length source) o
          → (r : Text) × ((elim o [
            | none ↦ some source
            | some j ↦
                find_and_replace fuel find replace (replace_at source j (length find) replace)
                  (j + length replace)
          ])
              ≡ some r)) [
                | none ↦ λ b. (source, refl)
                | some j ↦ λ b.
                    find_and_replace_ends fuel find replace
                      (replace_at source j (length find) replace) (j + length replace) filled
                      (omega (arith, length-replace_at source replace j (length find) b.1))
                      (omega (arith, length-replace_at source replace j (length find) b.1))
              ]
      (find_from-Between source find i)
