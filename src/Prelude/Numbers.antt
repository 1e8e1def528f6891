-- ===== src/Prelude/Numbers.antt =====
-- `std::stol` and `std::stoi` in base 10.
use Prim.Native.Nat.{ℕ, zero, suc, ◌+◌, ◌-◌, ◌*◌, ◌^◌}
use mathlib.Core.Bool.{Bool, ◌&&◌, ◌||◌}
use mathlib.Core.Option.{Option, none, some}
use mathlib.Core.List.{[], ◌∷◌}
use dovecot_ceph_plugin.Prelude.Tests.{ltb, leb, ◌==◌, if◌then◌else◌}
use dovecot_ceph_plugin.Prelude.Int.{ℤ, pos, negsuc}
use dovecot_ceph_plugin.Prelude.Bytes.{Text}
use dovecot_ceph_plugin.Prelude.Decimal.{is_digit}

-- `std::isspace` in the C locale.
abbrev pub is_space : ℕ → Bool
is_space c = (c == 32) || (leb 9 c && leb c 13)

-- The number that the digits at the start spell, after those that were read.
digits_from : ℕ → Text → ℕ
digits_from n [] = n
digits_from n (c ∷ s) =
    let rest = digits_from (n * 10 + (c - 48)) s in if is_digit c then rest else n

-- Without a digit there is no number.
unsigned_at : Text → Option ℕ
unfolding digits_from
unsigned_at [] = none
unsigned_at (c ∷ s) = if is_digit c then some (digits_from 0 (c ∷ s)) else none

negate : ℕ → ℤ
negate zero = pos 0
negate (suc n) = negsuc n

signed_at : Text → Option ℤ
unfolding unsigned_at negate
signed_at [] = none
signed_at (c ∷ s) =
    if c == b'-'
    then elim (unsigned_at s) [ none ↦ none | some n ↦ some (negate n) ]
    else elim (unsigned_at (if c == b'+' then s else c ∷ s)) [ none ↦ none | some n ↦ some (pos n) ]

skip_spaces : Text → Text
skip_spaces [] = []
skip_spaces (c ∷ s) = let rest = skip_spaces s in if is_space c then rest else c ∷ s

-- Between -bound and bound - 1.
within : ℕ → ℤ → Option ℤ
within bound (pos n) = if ltb n bound then some (pos n) else none
within bound (negsuc n) = if ltb n bound then some (negsuc n) else none

-- `none` is an exception: no number, or one out of range.
unfoldable pub stol : Text → Option ℤ
unfolding signed_at skip_spaces within
stol s = elim (signed_at (skip_spaces s)) [ none ↦ none | some z ↦ within (2 ^ 63) z ]

unfoldable pub stoi : Text → Option ℤ
unfolding signed_at skip_spaces within
stoi s = elim (signed_at (skip_spaces s)) [ none ↦ none | some z ↦ within (2 ^ 31) z ]
