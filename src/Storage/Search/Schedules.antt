-- ===== src/Storage/Search/Schedules.antt =====
-- The result of a search does not depend on how its threads take turns.
use dovecot_ceph_plugin.Prelude.{
  ◌≡◌, refl, sym, ap, ◌∙◌, List, [], ◌∷◌, ◌++◌, Text, TextSet, add, str_eq_iff, str_lt_ne,
  str_lt_asymm, str_lt_trans, str_lt_total, arith,
}
use dovecot_ceph_plugin.Storage.Search.{
  Step, insert_next, Runs, ended, joined, runs, insert_names, insert_in_order,
}

-- Two names are inserted in either order.
add-add : (a b : Text) (m : TextSet) → add a (add b m) ≡ add b (add a m)
unfolding add
add-add a b [] = ground (arith, str_eq_iff a b, str_eq_iff b a, str_lt_total a b, str_lt_asymm a b)
add-add a b (j ∷ m) = ground (
  arith,
  add-add a b m,
  str_eq_iff a b,
  str_eq_iff b a,
  str_eq_iff j a,
  str_eq_iff j b,
  str_lt_total a b,
  str_lt_total j a,
  str_lt_total j b,
  str_lt_asymm a b,
  str_lt_asymm b a,
  str_lt_asymm a j,
  str_lt_asymm b j,
  str_lt_ne a j,
  str_lt_ne b j,
  str_lt_trans a b j,
  str_lt_trans b a j,
)

insert_names-add :
    (xs : List Text) (oid : Text) (m : TextSet)
    → insert_names xs (add oid m) ≡ add oid (insert_names xs m)
unfolding insert_names
insert_names-add [] oid m = refl
insert_names-add (x ∷ xs) oid m =
    ap (insert_names xs) (add-add x oid m) ∙ insert_names-add xs oid (add x m)

insert_in_order-add :
    (ts : List (List Text)) (oid : Text) (m : TextSet)
    → insert_in_order ts (add oid m) ≡ add oid (insert_in_order ts m)
unfolding insert_in_order
insert_in_order-add [] oid m = refl
insert_in_order-add (t ∷ ts) oid m =
    ap (insert_in_order ts) (insert_names-add t oid m)
    ∙ insert_in_order-add ts oid (insert_names t m)

-- A name that any thread has next may as well be inserted first.
insert_in_order_next :
    (before after : List (List Text)) (oid : Text) (oids : List Text) (m : TextSet)
    → insert_in_order (before ++ (oid ∷ oids) ∷ after) m
      ≡ insert_in_order (before ++ oids ∷ after) (add oid m)
unfolding insert_in_order insert_names
insert_in_order_next [] after oid oids m = refl
insert_in_order_next (t ∷ before) after oid oids m =
    insert_in_order_next before after oid oids (insert_names t m)
    ∙ ap (insert_in_order (before ++ oids ∷ after)) (sym (insert_names-add t oid m))

insert_in_order_ended :
    (before after : List (List Text)) (m : TextSet)
    → insert_in_order (before ++ [] ∷ after) m ≡ insert_in_order (before ++ after) m
unfolding insert_in_order insert_names
insert_in_order_ended [] after m = refl
insert_in_order_ended (t ∷ before) after m = insert_in_order_ended before after (insert_names t m)

step_lem :
    (ts us : List (List Text)) (s t : TextSet)
    → Step ts s us t
    → insert_in_order ts s ≡ insert_in_order us t
step_lem _ _ _ _ (insert_next before after oid oids oid_list) =
    insert_in_order_next before after oid oids oid_list

-- However the threads take turns, the set that they leave is the one that they leave when each
-- runs alone, one after another.
pub Runs-insert_in_order :
    (ts : List (List Text)) (s result : TextSet) → Runs ts s result → result ≡ insert_in_order ts s
unfolding insert_in_order
Runs-insert_in_order _ _ _ (ended oid_list) = refl
Runs-insert_in_order _ _ _ (joined before after oid_list result r) =
    Runs-insert_in_order _ _ _ r ∙ sym (insert_in_order_ended before after oid_list)
Runs-insert_in_order _ _ _ (runs ts us s t result st r) =
    Runs-insert_in_order _ _ _ r ∙ sym (step_lem ts us s t st)
