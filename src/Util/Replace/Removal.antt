-- ===== src/Util/Replace/Removal.antt =====
-- Removing a byte, as a save removes the hyphens of an identifier.
use dovecot_ceph_plugin.Prelude.{
  ℕ, zero, suc, ◌+◌, ◌<◌, ◌≡◌, refl, ap, false, not, none, some, [], ◌∷◌, ◌++◌, Text, keep, length,
  drop, length-append, take-append_left, drop-append_left, append_assoc, Bool-cases, inl, inr,
  arith, ltb, ◌==◌, ==_iff,
}
use dovecot_ceph_plugin.Util.Replace.{find_here, find_from, replace_at, find_and_replace}

-- A text without the byte.
unfoldable pub without : ℕ → Text → Text
without c = keep (λ x. not (x == c))

-- Where a byte occurs first.
data Occurs (c : ℕ) (s : Text) : Type 0 where
  nowhere : find_here (c ∷ []) s ≡ none → without c s ≡ s → Occurs c s
  at :
      (a b : Text)
      → s ≡ a ++ c ∷ b
      → find_here (c ∷ []) s ≡ some (length a)
      → without c s ≡ a ++ without c b
      → Occurs c s

Occurs-next : (c x : ℕ) (s : Text) → x == c ≡ false → Occurs c s → Occurs c (x ∷ s)
unfolding find_here without
Occurs-next c x s ne (nowhere f k) = nowhere (ground arith) (ground arith)
Occurs-next c x s ne (at a b e f k) = at (x ∷ a) b (ap (◌∷◌ x) e) (ground arith) (ground arith)

occurs : (c : ℕ) (s : Text) → Occurs c s
unfolding find_here without
occurs c [] = nowhere refl refl
occurs c (x ∷ s) = elim (Bool-cases (x == c)) [
  | inl e ↦ at [] s (ap (λ y. y ∷ s) ((==_iff x c).0 e)) (ground arith) (ground arith)
  | inr e ↦ Occurs-next c x s e (occurs c s)
]

find_from-append :
    (pre rest find : Text)
    → find_from (pre ++ rest) find (length pre)
      ≡ elim (find_here find rest) [ none ↦ none | some j ↦ some (length pre + j) ]
unfolding find_from
find_from-append pre rest find = rw (short pre rest, drop-append_left pre rest) refl
  where
    short : (xs ys : Text) → ltb (length (xs ++ ys)) (length xs) ≡ false
    short xs ys = ground (arith, length-append xs ys)

drop_past : (x b : Text) (c : ℕ) → drop (length x + 1) (x ++ c ∷ b) ≡ b
drop_past [] b c = refl
drop_past (y ∷ x) b c =
    let e : suc (length x) + 1 ≡ suc (length x + 1) = omega arith in rw e (drop_past x b c)

replace_at-append : (x b : Text) (c : ℕ) → replace_at (x ++ c ∷ b) (length x) 1 [] ≡ x ++ b
unfolding replace_at
replace_at-append x b c = rw (take-append_left x (c ∷ b), drop_past x b c) refl

end_of : (x : Text) → length x + length {A = ℕ} [] ≡ length x
end_of x = omega arith

-- What is left of the text after the first occurrence has gone.
shorter : (a b : Text) (c fuel : ℕ) → length (a ++ c ∷ b) < suc fuel → length b < fuel
shorter a b c fuel h = omega (arith, length-append a (c ∷ b))

remove_from :
    (fuel c : ℕ) (pre rest : Text)
    → length rest < fuel
    → find_and_replace fuel (c ∷ []) [] (pre ++ rest) (length pre) ≡ some (pre ++ without c rest)
unfolding find_and_replace
remove_from zero c pre rest h = absurd (omega arith)
remove_from (suc fuel) c pre rest h = elim (occurs c rest) [
  | nowhere f k ↦ rw (find_from-append pre rest (c ∷ []), find_and_replace, f, k) refl
  | at a b e f k ↦
      rw (find_from-append pre rest (c ∷ []), find_and_replace, f, k)
        (rw
          (
            e,
            ← append_assoc pre a (c ∷ b),
            ← append_assoc pre a (without c b),
            ← length-append pre a,
            replace_at-append (pre ++ a) b c,
            end_of (pre ++ a),
          )
          (remove_from fuel c (pre ++ a) b (shorter a b c fuel (rw (← e) h))))
]

-- Removing a byte everywhere leaves the text without that byte, and the loop ends.
pub find_and_replace_removes :
    (c : ℕ) (source : Text)
    → find_and_replace (suc (length source)) (c ∷ []) [] source 0 ≡ some (without c source)
find_and_replace_removes c source = remove_from (suc (length source)) c [] source (omega arith)
