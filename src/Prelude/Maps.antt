-- ===== src/Prelude/Maps.antt =====
-- `std::map<std::string, V>` and `std::set<std::string>` as lists in the order of iteration.
use mathlib.Core.Path.{◌≡◌, refl}
use mathlib.Core.Bool.{Bool, true, false}
use mathlib.Core.Option.{Option, none, some}
use mathlib.Core.List.{List, [], ◌∷◌, ◌++◌}
use native.Mathlib.Omega.{arith}
use dovecot_ceph_plugin.Prelude.Tests.{if◌then◌else◌}
use dovecot_ceph_plugin.Prelude.Lists.{All}
use dovecot_ceph_plugin.Prelude.Bytes.{
  Text, str_eq, str_eq_iff, str_lt, str_lt_ne, str_lt_asymm, str_lt_trans, str_lt_total,
}

abbrev pub Map {ℓ} : Type ℓ → Type ℓ
Map V = List (Text × V)

module _ {ℓ} {V : Type ℓ} where
  -- `m.find(k)`.
  unfoldable pub lookup : Text → Map V → Option V
  lookup k [] = none
  lookup k ((j, v) ∷ m) = if str_eq j k then some v else lookup k m

  -- `m[k] = v`.
  unfoldable pub insert : Text → V → Map V → Map V
  insert k v [] = (k, v) ∷ []
  insert k v ((j, w) ∷ m) =
      let rest = insert k v m in
      if str_eq j k then (k, v) ∷ m else if str_lt k j then (k, v) ∷ (j, w) ∷ m else (j, w) ∷ rest

  -- `m.erase(k)`.
  unfoldable pub erase : Text → Map V → Map V
  erase k [] = []
  erase k ((j, w) ∷ m) = let rest = erase k m in if str_eq j k then rest else (j, w) ∷ rest

  pub lookup-insert :
      (k j : Text) (v : V) (m : Map V)
      → lookup j (insert k v m) ≡ (if str_eq k j then some v else lookup j m)
  unfolding insert lookup
  lookup-insert k j v ((i, w) ∷ rest) =
      ground (arith, lookup-insert k j v rest, str_eq_iff k j, str_eq_iff i k, str_eq_iff i j)
  lookup-insert k j v [] = refl

  pub lookup-erase :
      (k j : Text) (m : Map V) → lookup j (erase k m) ≡ (if str_eq k j then none else lookup j m)
  unfolding lookup erase
  lookup-erase k j [] = ground arith
  lookup-erase k j ((i, w) ∷ m) =
      ground (arith, str_eq_iff k j, str_eq_iff i k, str_eq_iff i j, lookup-erase k j m)

-- A set in increasing order.
abbrev pub TextSet : Type 0
TextSet = List Text

unfoldable pub member : Text → TextSet → Bool
member k [] = false
member k (j ∷ m) = if str_eq j k then true else member k m

-- `s.insert(k)`.
unfoldable pub add : Text → TextSet → TextSet
add k [] = k ∷ []
add k (j ∷ m) =
    let rest = add k m in if str_eq j k then j ∷ m else if str_lt k j then k ∷ j ∷ m else j ∷ rest

-- `s.erase(k)`.
unfoldable pub remove : Text → TextSet → TextSet
remove k [] = []
remove k (j ∷ m) = let rest = remove k m in if str_eq j k then rest else j ∷ rest

pub member-add :
    (k j : Text) (m : TextSet) → member j (add k m) ≡ (if str_eq k j then true else member j m)
unfolding member add
member-add k j [] = refl
member-add k j (i ∷ m) =
    ground (arith, str_eq_iff k j, str_eq_iff i k, str_eq_iff i j, member-add k j m)

pub member-remove :
    (k j : Text) (m : TextSet) → member j (remove k m) ≡ (if str_eq k j then false else member j m)
unfolding member remove
member-remove k j [] = ground arith
member-remove k j (i ∷ m) =
    ground (arith, str_eq_iff k j, str_eq_iff i k, str_eq_iff i j, member-remove k j m)

-- Strictly increasing from a bound.
abbrev pub Above : Text → TextSet → Type 0
Above k [] = Unit {0}
Above k (j ∷ m) = (str_lt k j ≡ true) × Above j m

-- Strictly increasing: the invariant of `std::set`.
abbrev pub IsIncreasing : TextSet → Type 0
IsIncreasing [] = Unit {0}
IsIncreasing (k ∷ m) = Above k m

Above-weaken : (k j : Text) (m : TextSet) → str_lt k j ≡ true → Above j m → Above k m
Above-weaken k j [] h a = tt
Above-weaken k j (i ∷ m) h a = (str_lt_trans k j i h a.0, a.1)

-- A new greatest element goes to the end.
pub add_greatest : (m : TextSet) (k : Text) → All (λ j. str_lt j k ≡ true) m → add k m ≡ m ++ k ∷ []
unfolding add
add_greatest [] k h = refl
add_greatest (j ∷ m) k h = ground (arith, str_lt_ne j k, str_lt_asymm j k, add_greatest m k h.1)

module _ {ℓ} {V : Type ℓ} where
  -- The keys increase strictly from a bound: what `std::map` keeps.
  abbrev pub KeysAbove : Text → Map V → Type 0
  KeysAbove k [] = Unit {0}
  KeysAbove k ((j, v) ∷ m) = (str_lt k j ≡ true) × KeysAbove j m

  abbrev pub IsOrdered : Map V → Type 0
  IsOrdered [] = Unit {0}
  IsOrdered ((k, v) ∷ m) = KeysAbove k m

  insert-KeysAbove :
      (b k : Text) (v : V) (m : Map V)
      → str_lt b k ≡ true
      → KeysAbove b m
      → KeysAbove b (insert k v m)
  unfolding insert
  insert-KeysAbove b k v [] h a = (h, tt)
  insert-KeysAbove b k v ((j, w) ∷ m) h a =
      ground (arith, str_eq_iff j k, str_lt_total j k, insert-KeysAbove j k v m)

  pub insert-IsOrdered : (k : Text) (v : V) (m : Map V) → IsOrdered m → IsOrdered (insert k v m)
  unfolding insert
  insert-IsOrdered k v [] a = tt
  insert-IsOrdered k v ((j, w) ∷ m) a =
      ground (arith, str_eq_iff j k, str_lt_total j k, insert-KeysAbove j k v m)

  KeysAbove-weaken : (k j : Text) (m : Map V) → str_lt k j ≡ true → KeysAbove j m → KeysAbove k m
  KeysAbove-weaken k j [] h a = tt
  KeysAbove-weaken k j ((i, w) ∷ m) h a = (str_lt_trans k j i h a.0, a.1)

  -- A key below all of the map's is not in it.
  pub lookup_below : (k : Text) (m : Map V) → KeysAbove k m → lookup k m ≡ none
  unfolding lookup
  lookup_below k [] a = refl
  lookup_below k ((j, w) ∷ m) a = ground (
    arith,
    str_eq_iff j k,
    str_eq_iff k j,
    str_lt_ne k j a.0,
    lookup_below k m (KeysAbove-weaken k j m a.0 a.1),
  )
