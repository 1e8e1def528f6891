-- ===== src/DictRados/Calls.antt =====
-- The calls that a transaction collects, and what they mean one after another.
use dovecot_ceph_plugin.Prelude.{
  ◌≡◌, refl, ◌∙◌, ◌⊎◌, inl, inr, true, false, Option, none, some, List, [], ◌∷◌, Text, Map, TextSet,
  arith, has_prefix, str_eq, lookup, insert, member, add, remove, lookup-insert, member-add,
  member-remove, IsOrdered, insert-IsOrdered, All, str_lt, Bool-cases, if◌then◌else◌,
}
use dovecot_ceph_plugin.DictRados.{
  Transaction, transaction_init, path_private, path_shared, dict_set, dict_unset,
}

-- A key of one of the two name spaces of the dictionary.
abbrev pub IsKey : Text → Type 0
IsKey k = (has_prefix path_private k ≡ true) ⊎ (has_prefix path_shared k ≡ true)

-- The calls that a transaction collects.
pub data Call : Type 0 where
  sets : Text → Text → Call
  unsets : Text → Call

abbrev pub Called : Call → Type 0
Called (sets k v) = IsKey k
Called (unsets k) = IsKey k

unfoldable pub step : Call → Transaction → Transaction
unfolding dict_set dict_unset
step (sets k v) ctx = dict_set k v ctx
step (unsets k) ctx = dict_unset k ctx

unfoldable pub steps : List Call → Transaction → Transaction
unfolding step
steps [] ctx = ctx
steps (c ∷ cs) ctx = steps cs (step c ctx)

-- The meaning: a dictionary is a function, and the calls act on it one after another.
abbrev pub View : Type 0
View = Text → Option Text

unfoldable pub act : Call → View → View
act (sets k v) d j = if str_eq k j then some v else d j
act (unsets k) d j = if str_eq k j then none else d j

unfoldable pub acts : List Call → View → View
unfolding act
acts [] d = d
acts (c ∷ cs) d = acts cs (act c d)

-- What the collected changes amount to: first the values, then the removals.
abbrev pub put : Map Text → View → View
put m d j = elim (lookup j m) [ none ↦ d j | some v ↦ some v ]

abbrev pub drop_all : TextSet → View → View
drop_all u d j = if member j u then none else d j

abbrev pub pending : Transaction → View → View
pending ctx d = drop_all ctx.unset_set (put ctx.set_map d)

pending-step :
    (c : Call) (ctx : Transaction) (d : View) (j : Text)
    → pending (step c ctx) d j ≡ act c (pending ctx d) j
unfolding step act
pending-step (sets k v) ctx d j =
    ground (arith, member-remove k j ctx.unset_set, lookup-insert k j v ctx.set_map)
pending-step (unsets k) ctx d j = ground (arith, member-add k j ctx.unset_set)

act_cong : (c : Call) (d e : View) → ((j : Text) → d j ≡ e j) → (j : Text) → act c d j ≡ act c e j
unfolding act
act_cong (sets k v) d e h j = ground (arith, h j)
act_cong (unsets k) d e h j = ground (arith, h j)

pub acts_cong :
    (cs : List Call) (d e : View)
    → ((j : Text) → d j ≡ e j)
    → (j : Text) → acts cs d j ≡ acts cs e j
unfolding acts
acts_cong [] d e h j = h j
acts_cong (c ∷ cs) d e h j = acts_cong cs (act c d) (act c e) (act_cong c d e h) j

pub pending-steps :
    (cs : List Call) (ctx : Transaction) (d : View) (j : Text)
    → pending (steps cs ctx) d j ≡ acts cs (pending ctx d) j
unfolding steps acts
pending-steps [] ctx d j = refl
pending-steps (c ∷ cs) ctx d j =
    pending-steps cs (step c ctx) d j
    ∙ acts_cong cs (pending (step c ctx) d) (act c (pending ctx d)) (pending-step c ctx d) j

abbrev pub MapKeys : Map Text → Type 0
MapKeys [] = Unit {0}
MapKeys ((k, v) ∷ m) = IsKey k × MapKeys m

abbrev pub SetKeys : TextSet → Type 0
SetKeys [] = Unit {0}
SetKeys (k ∷ u) = IsKey k × SetKeys u

insert-MapKeys : (k v : Text) (m : Map Text) → IsKey k → MapKeys m → MapKeys (insert k v m)
unfolding insert
insert-MapKeys k v [] h a = (h, tt)
insert-MapKeys k v ((j, x) ∷ m) h a = elim (Bool-cases (str_eq j k)) [
  | inl e ↦ rw e (h, a.1)
  | inr e ↦ elim (Bool-cases (str_lt k j)) [
    | inl p ↦ rw (e, p) (h, a)
    | inr p ↦ rw (e, p) (a.0, insert-MapKeys k v m h a.1)
  ]
]

add-SetKeys : (k : Text) (u : TextSet) → IsKey k → SetKeys u → SetKeys (add k u)
unfolding add
add-SetKeys k [] h a = (h, tt)
add-SetKeys k (j ∷ u) h a = elim (Bool-cases (str_eq j k)) [
  | inl e ↦ rw e a
  | inr e ↦ elim (Bool-cases (str_lt k j)) [
    | inl p ↦ rw (e, p) (h, a)
    | inr p ↦ rw (e, p) (a.0, add-SetKeys k u h a.1)
  ]
]

remove-SetKeys : (k : Text) (u : TextSet) → SetKeys u → SetKeys (remove k u)
unfolding remove
remove-SetKeys k [] a = tt
remove-SetKeys k (j ∷ u) a = elim (Bool-cases (str_eq j k)) [
  | inl e ↦ rw e (remove-SetKeys k u a.1)
  | inr e ↦ rw e (a.0, remove-SetKeys k u a.1)
]

-- A transaction of settings and removals, ready to be committed.
pub record IsReady (ctx : Transaction) : Type 0 where
  pub map_keys : MapKeys ctx.set_map
  pub ordered : IsOrdered ctx.set_map
  pub set_keys : SetKeys ctx.unset_set
  pub no_incs : ctx.atomic_inc_map ≡ []
  pub found : ctx.atomic_inc_not_found ≡ false

step-IsReady : (c : Call) (ctx : Transaction) → Called c → IsReady ctx → IsReady (step c ctx)
unfolding step
step-IsReady (sets k v) ctx h r = record {
  map_keys = insert-MapKeys k v ctx.set_map h r.map_keys;
  ordered = insert-IsOrdered k v ctx.set_map r.ordered;
  set_keys = remove-SetKeys k ctx.unset_set r.set_keys;
  no_incs = r.no_incs;
  found = r.found;
}
step-IsReady (unsets k) ctx h r = record {
  map_keys = r.map_keys;
  ordered = r.ordered;
  set_keys = add-SetKeys k ctx.unset_set h r.set_keys;
  no_incs = r.no_incs;
  found = r.found;
}

pub steps-IsReady :
    (cs : List Call) (ctx : Transaction) → All Called cs → IsReady ctx → IsReady (steps cs ctx)
unfolding steps
steps-IsReady [] ctx h r = r
steps-IsReady (c ∷ cs) ctx h r = steps-IsReady cs (step c ctx) h.1 (step-IsReady c ctx h.0 r)

pub transaction_init-IsReady : IsReady transaction_init
unfolding transaction_init
transaction_init-IsReady = record {
  map_keys = tt;
  ordered = tt;
  set_keys = tt;
  no_incs = refl;
  found = refl;
}

pub pending-transaction_init : (d : View) (j : Text) → pending transaction_init d j ≡ d j
unfolding transaction_init lookup member
pending-transaction_init d j = refl
