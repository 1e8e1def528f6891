-- ===== src/Prelude/Decimal.antt =====
-- `std::to_string` of an integer.
use Prim.Native.Nat.{ℕ, zero, suc, ◌+◌, ◌/◌, ◌%◌, ◌<◌}
use mathlib.Core.Path.{◌≡◌, refl}
use mathlib.Core.Bool.{Bool, true, false, ◌&&◌}
use mathlib.Core.List.{[], ◌∷◌}
use native.Mathlib.Omega.{arith}
use dovecot_ceph_plugin.Prelude.Tests.{ltb, leb, if◌then◌else◌}
use dovecot_ceph_plugin.Prelude.Lists.{every, is_empty}
use dovecot_ceph_plugin.Prelude.Int.{ℤ, pos, negsuc}
use dovecot_ceph_plugin.Prelude.Bytes.{Text}

-- `std::isdigit` in the C locale.
abbrev pub is_digit : ℕ → Bool
is_digit c = leb b'0' c && leb c b'9'

-- The digits of a number before those that are already there. One round for each digit.
decimal_onto : ℕ → ℕ → Text → Text
decimal_onto zero n acc = acc
decimal_onto (suc fuel) n acc =
    let rest = decimal_onto fuel (n / 10) ((48 + n % 10) ∷ acc) in
    if ltb n 10 then (48 + n) ∷ acc else rest

unfoldable pub decimal : ℕ → Text
unfolding decimal_onto
decimal n = decimal_onto (n + 1) n []

unfoldable pub decimal_int : ℤ → Text
unfolding decimal
decimal_int (pos n) = decimal n
decimal_int (negsuc n) = b'-' ∷ decimal (n + 1)

decimal_onto_digits :
    (fuel n : ℕ) (acc : Text)
    → n < fuel
    → every is_digit acc ≡ true
    → (every is_digit (decimal_onto fuel n acc) ≡ true)
      × (is_empty (decimal_onto fuel n acc) ≡ false)
unfolding decimal_onto
decimal_onto_digits zero n acc h k = absurd (omega arith)
decimal_onto_digits (suc fuel) n acc h k =
    ground (arith, decimal_onto_digits fuel (n / 10) ((48 + n % 10) ∷ acc))

-- A printed number is a non-empty row of digits.
pub decimal_digits : (n : ℕ) → (every is_digit (decimal n) ≡ true) × (is_empty (decimal n) ≡ false)
unfolding decimal
decimal_digits n = decimal_onto_digits (n + 1) n [] (omega arith) refl
