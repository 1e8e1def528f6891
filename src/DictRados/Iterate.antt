-- ===== src/DictRados/Iterate.antt =====
-- src/dict-rados/dict-rados.cpp: walking over the entries that the queries of an iteration found.
use dovecot_ceph_plugin.Prelude.{
  ℕ, zero, suc, ◌<◌, ◌≡◌, refl, ap, ◌++◌, Bool, true, false, not, Option, none, some, List, [], ◌∷◌,
  Text, Map, c_str, arith, length, drop, free_of, keep, map, Bool-cases, inl, inr, if◌then◌else◌, ℤ,
  minus_one, pos,
}

-- `kv_map`, without its return value, which only the set-up tests.
pub record KvMap : Type 0 where
  pub key : Text
  pub map : Map Text

-- `flags`, as far as they are read, and the two iterators: `entries` is what `map_iter` has
-- before it in the current map, of key `key`, and `results` the maps after that one.
pub record IterateContext : Type 0 where
  pub failed : Bool
  pub recurse : Bool
  pub exact_key : Bool
  pub no_value : Bool
  pub key : Text
  pub entries : Map Text
  pub results : List KvMap

-- Whether `rados_dict_iterate` passes over an entry.
unfoldable pub is_hidden : Bool → Bool → Text → Text → Bool
is_hidden recurse exact_key key name =
    if recurse
    then false
    else if exact_key
    then false
    else not (free_of b'/' (drop (length key) name))

-- The body of `rados_dict_iterate` on the iterators: the entry found, and the iterators after it.
unfoldable pub advance :
    Bool
    → Bool
    → Text
    → List KvMap
    → Map Text
    → Option ((Text × Text) × (Text × Map Text × List KvMap))
advance recurse exact_key key [] [] = none
advance recurse exact_key key (r ∷ results) [] = advance recurse exact_key r.key results r.map
advance recurse exact_key key [] ((name, value) ∷ entries) =
    elim (is_hidden recurse exact_key key name) [
      | true ↦ advance recurse exact_key key [] entries
      | false ↦ some ((name, value), (key, entries, []))
    ]
advance recurse exact_key key (r ∷ results) ((name, value) ∷ entries) =
    elim (is_hidden recurse exact_key key name) [
      | true ↦ advance recurse exact_key key (r ∷ results) entries
      | false ↦ some ((name, value), (key, entries, r ∷ results))
    ]

-- `rados_dict_iterate`: `none` is FALSE; the value is absent where it is not wanted. Both texts are
-- copied up to their first NUL.
unfoldable pub iterate : IterateContext → Option ((Text × Option Text) × IterateContext)
unfolding advance
iterate ctx =
    if ctx.failed
    then none
    else elim (advance ctx.recurse ctx.exact_key ctx.key ctx.results ctx.entries) [
      | none ↦ none
      | some ((name, value), (key, entries, results)) ↦ some (
        (c_str name, (if ctx.no_value then none else some (c_str value))),
        record ctx { key = key; entries = entries; results = results },
      )
    ]

-- `rados_dict_iterate_deinit`.
unfoldable pub iterate_deinit : IterateContext → ℤ
iterate_deinit ctx = if ctx.failed then minus_one else pos 0

-- Calls until one returns FALSE, at most as many as the first argument.
unfoldable pub iterate_all : ℕ → IterateContext → List (Text × Option Text)
unfolding iterate
iterate_all zero ctx = []
iterate_all (suc n) ctx = elim (iterate ctx) [
  | none ↦ []
  | some (entry, ctx') ↦ entry ∷ iterate_all n ctx'
]

module _ (recurse exact_key : Bool) where
  -- The entries that are still to come, by a filter of each map.
  abbrev pub visible : Text → Map Text → Map Text
  visible key = keep λ e. not (is_hidden recurse exact_key key e.0)

  abbrev pub all_visible : List KvMap → Map Text
  all_visible [] = []
  all_visible (r ∷ results) = visible r.key r.map ++ all_visible results

  abbrev pub Advances : Map Text → Option ((Text × Text) × (Text × Map Text × List KvMap)) → Type 0
  Advances rest none = rest ≡ []
  Advances rest (some (e, (key, entries, results))) =
      rest ≡ e ∷ (visible key entries ++ all_visible results)

  -- The next entry is the first of those that are visible, and the others are left.
  advance-Advances :
      (key : Text) (results : List KvMap) (entries : Map Text)
      → Advances
          (visible key entries ++ all_visible results)
          (advance recurse exact_key key results entries)
  unfolding advance
  advance-Advances key [] [] = refl
  advance-Advances key (r ∷ results) [] = advance-Advances r.key results r.map
  advance-Advances key [] ((name, value) ∷ entries) =
      elim (Bool-cases (is_hidden recurse exact_key key name)) [
        | inl h ↦ rw (h, advance) (advance-Advances key [] entries)
        | inr h ↦ rw (h, advance) refl
      ]
  advance-Advances key (r ∷ results) ((name, value) ∷ entries) =
      elim (Bool-cases (is_hidden recurse exact_key key name)) [
        | inl h ↦ rw (h, advance) (advance-Advances key (r ∷ results) entries)
        | inr h ↦ rw (h, advance) refl
      ]

-- What an iteration has still to give.
abbrev pub remaining : IterateContext → Map Text
remaining ctx =
    visible ctx.recurse ctx.exact_key ctx.key ctx.entries
    ++ all_visible ctx.recurse ctx.exact_key ctx.results

abbrev pub given : Bool → Text × Text → Text × Option Text
given no_value (name, value) = (c_str name, (if no_value then none else some (c_str value)))

abbrev pub Gives : IterateContext → Option ((Text × Option Text) × IterateContext) → Type 0
Gives ctx none = remaining ctx ≡ []
Gives ctx (some (entry, ctx')) =
    (e : Text × Text) × (entry ≡ given ctx.no_value e)
    × (remaining ctx ≡ e ∷ remaining ctx')
    × (ctx'.failed ≡ false)
    × (ctx'.no_value ≡ ctx.no_value)

iterate-Gives : (ctx : IterateContext) → ctx.failed ≡ false → Gives ctx (iterate ctx)
unfolding iterate
iterate-Gives ctx ok =
    rw (ok, iterate)
      (from (advance ctx.recurse ctx.exact_key ctx.key ctx.results ctx.entries)
        (advance-Advances ctx.recurse ctx.exact_key ctx.key ctx.results ctx.entries))
  where
    from :
        (r : Option ((Text × Text) × (Text × Map Text × List KvMap)))
        → Advances ctx.recurse ctx.exact_key (remaining ctx) r
        → Gives ctx (elim r [
          | none ↦ none
          | some ((name, value), (key, entries, results)) ↦ some (
            (c_str name, (if ctx.no_value then none else some (c_str value))),
            record ctx { key = key; entries = entries; results = results },
          )
        ])
    from none h = h
    from (some ((name, value), (key, entries, results))) h = ((name, value), refl, h, ok, refl)

-- An iteration whose queries succeeded gives every visible entry of its maps once, in their
-- order: its key, and its value where values are wanted, each up to its first NUL. Then it ends. Enough
-- calls are more than there are visible entries.
pub iterate_all_lem :
    (n : ℕ) (ctx : IterateContext)
    → ctx.failed ≡ false
    → length (remaining ctx) < n
    → iterate_all n ctx ≡ map (given ctx.no_value) (remaining ctx)
unfolding iterate_all
iterate_all_lem zero ctx ok h = absurd (omega arith)
iterate_all_lem (suc n) ctx ok h = from (iterate_all_lem n) (iterate ctx) (iterate-Gives ctx ok)
  where
    from :
        ((c : IterateContext)
          → c.failed ≡ false
          → length (remaining c) < n
          → iterate_all n c ≡ map (given c.no_value) (remaining c))
        → (r : Option ((Text × Option Text) × IterateContext)) → Gives ctx r
        → elim r as (λ _. List (Text × Option Text)) [
          | none ↦ []
          | some (entry, ctx') ↦ entry ∷ iterate_all n ctx'
        ]
          ≡ map (given ctx.no_value) (remaining ctx)
    from ih none g = rw g refl
    from ih (some (entry, ctx')) (e, same, rest, ok', nv) =
        let shorter : length (remaining ctx') < n = omega (arith, ap length rest) in
        rw (same, rest, ih ctx' ok' shorter, nv) refl
