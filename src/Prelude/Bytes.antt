-- ===== src/Prelude/Bytes.antt =====
-- `std::string` and `bufferlist` as lists of bytes: comparison, search, `std::getline`.
use Prim.Native.Nat.{ℕ, ◌/◌, ◌%◌}
use Prim.Native.Char.{code}
use Prim.Native.String.{String}
use mathlib.Core.Path.{◌≡◌, refl}
use mathlib.Core.Logic.{◌↔◌}
use mathlib.Core.Bool.{Bool, true, false, not, ◌&&◌, ◌||◌}
use mathlib.Core.Option.{Option, none, some}
use mathlib.Core.List.{List, [], ◌∷◌, ◌++◌}
use native.Mathlib.Omega.{arith}
use dovecot_ceph_plugin.Prelude.Tests.{ltb, ◌==◌, if◌then◌else◌}
use dovecot_ceph_plugin.Prelude.Lists.{every, length}

abbrev pub Text : Type 0
Text = List ℕ

-- The bytes of an ASCII literal.
abbrev pub codes : String → Text
codes String.[] = []
codes (String.◌∷◌ c s) = code c ∷ codes s

abbrev pub str_eq : Text → Text → Bool
str_eq [] [] = true
str_eq [] (b ∷ t) = false
str_eq (a ∷ s) [] = false
str_eq (a ∷ s) (b ∷ t) = (a == b) && str_eq s t

pub str_eq_iff : (s t : Text) → (str_eq s t ≡ true) ↔ (s ≡ t)
str_eq_iff [] [] = ((λ h. refl), (λ h. refl))
str_eq_iff [] (b ∷ t) = ((λ h. cc), (λ h. cc))
str_eq_iff (a ∷ s) [] = ((λ h. cc), (λ h. cc))
str_eq_iff (a ∷ s) (b ∷ t) =
    ((λ h. ground (arith, str_eq_iff s t)), (λ h. ground (arith, str_eq_iff s t)))

pub str_eq_refl : (s : Text) → str_eq s s ≡ true
str_eq_refl s = (str_eq_iff s s).1 refl

-- `operator<` of `std::string`, the order of `std::map` and `std::set`.
abbrev pub str_lt : Text → Text → Bool
str_lt [] [] = false
str_lt [] (b ∷ t) = true
str_lt (a ∷ s) [] = false
str_lt (a ∷ s) (b ∷ t) = ltb a b || ((a == b) && str_lt s t)

pub str_lt_ne : (s t : Text) → str_lt s t ≡ true → str_eq s t ≡ false
str_lt_ne [] [] h = cc
str_lt_ne [] (b ∷ t) h = refl
str_lt_ne (a ∷ s) [] h = refl
str_lt_ne (a ∷ s) (b ∷ t) h = ground (arith, str_lt_ne s t)

pub str_lt_asymm : (s t : Text) → str_lt s t ≡ true → str_lt t s ≡ false
str_lt_asymm [] [] h = refl
str_lt_asymm [] (b ∷ t) h = refl
str_lt_asymm (a ∷ s) [] h = cc
str_lt_asymm (a ∷ s) (b ∷ t) h = ground (arith, str_lt_asymm s t)

pub str_lt_trans : (s t u : Text) → str_lt s t ≡ true → str_lt t u ≡ true → str_lt s u ≡ true
str_lt_trans [] [] u h k = cc
str_lt_trans [] (b ∷ t) [] h k = cc
str_lt_trans [] (b ∷ t) (c ∷ u) h k = refl
str_lt_trans (a ∷ s) [] u h k = cc
str_lt_trans (a ∷ s) (b ∷ t) [] h k = cc
str_lt_trans (a ∷ s) (b ∷ t) (c ∷ u) h k = ground (arith, str_lt_trans s t u)

-- `str.compare(0, strlen(prefix), prefix) == 0`.
abbrev pub has_prefix : Text → Text → Bool
has_prefix [] s = true
has_prefix (p ∷ ps) [] = false
has_prefix (p ∷ ps) (c ∷ s) = (p == c) && has_prefix ps s

-- The byte occurs in no place.
abbrev pub free_of : ℕ → Text → Bool
free_of sep = every (λ c. not (c == sep))

-- `find` of one byte: the bytes before it and those after it.
abbrev pub cut : ℕ → Text → Option (Text × Text)
cut sep [] = none
cut sep (c ∷ s) =
    let rest = cut sep s in
    if c == sep then some ([], s) else elim rest [ none ↦ none | some (l, r) ↦ some (c ∷ l, r) ]

abbrev onto_first : ℕ → List Text → List Text
onto_first c [] = (c ∷ []) ∷ []
onto_first c (t ∷ ts) = (c ∷ t) ∷ ts

-- `while (std::getline(stream, item, sep))`: the segments, without an empty one at the end.
unfoldable pub split_on : ℕ → Text → List Text
split_on sep [] = []
split_on sep (c ∷ s) =
    let rest = split_on sep s in if c == sep then [] ∷ rest else onto_first c rest

pub split_on-append :
    (sep : ℕ) (s r : Text) → free_of sep s ≡ true → split_on sep (s ++ sep ∷ r) ≡ s ∷ split_on sep r
unfolding split_on
split_on-append sep [] r h = ground arith
split_on-append sep (c ∷ s) r h = ground (arith, split_on-append sep s r)

pub split_on_last :
    (sep c : ℕ) (s : Text) → free_of sep (c ∷ s) ≡ true → split_on sep (c ∷ s) ≡ (c ∷ s) ∷ []
unfolding split_on
split_on_last sep c [] h = ground arith
split_on_last sep c (d ∷ s) h = ground (arith, split_on_last sep d s)

-- What `cut` returns puts together to the text, and the first part is free of the byte.
pub cut-append :
    (sep : ℕ) (s r : Text) → free_of sep s ≡ true → cut sep (s ++ sep ∷ r) ≡ some (s, r)
cut-append sep [] r h = ground arith
cut-append sep (c ∷ s) r h = ground (arith, cut-append sep s r)

pub free_of-append :
    (sep : ℕ) (s r : Text)
    → free_of sep s ≡ true
    → free_of sep r ≡ true
    → free_of sep (s ++ r) ≡ true
free_of-append sep [] r h k = k
free_of-append sep (c ∷ s) r h k = ground (arith, free_of-append sep s r)

-- `encode` of a string: its length in four bytes, the lowest first, and its bytes.
unfoldable pub encode : Text → Text
encode s =
    let n = length s in (n % 256) ∷ (n / 256 % 256) ∷ (n / 65536 % 256) ∷ (n / 16777216 % 256) ∷ s

-- `str.c_str()` read as a string: what stands before the first NUL.
abbrev pub c_str : Text → Text
c_str [] = []
c_str (c ∷ s) = let rest = c_str s in if c == 0 then [] else c ∷ rest

pub c_str-append_nul : (s : Text) → free_of 0 s ≡ true → c_str (s ++ 0 ∷ []) ≡ s
c_str-append_nul [] h = refl
c_str-append_nul (c ∷ s) h = ground (arith, c_str-append_nul s)

pub str_lt_total : (s t : Text) → str_eq s t ≡ false → str_lt t s ≡ false → str_lt s t ≡ true
str_lt_total [] [] h k = cc
str_lt_total [] (b ∷ t) h k = refl
str_lt_total (a ∷ s) [] h k = cc
str_lt_total (a ∷ s) (b ∷ t) h k = ground (arith, str_lt_total s t)
