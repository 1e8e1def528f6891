-- ===== src/Librados/Memory.antt =====
-- A store in memory, at which the laws of `Librados/Laws` hold. The witnesses run on it.
use dovecot_ceph_plugin.Prelude.{
  map, ℤ, pos, negsuc, ◌+◌, ◌≡◌, ◌≢◌, refl, ◌++◌, true, false, ◌&&◌, leb, is_neg, is_zero, arith,
  Option, none, some, List, [], ◌∷◌, Text, Map, TextSet, str_eq, str_eq_iff, str_eq_refl, lookup,
  insert, erase, lookup-insert, lookup-erase, length, take, drop, Bool-cases, inl, inr,
  if◌then◌else◌,
}
use dovecot_ceph_plugin.Librados.{Librados, WriteStep, setxattr}
use dovecot_ceph_plugin.Librados.Objects.{Object, or_new, insert_all, apply_steps}
use dovecot_ceph_plugin.Librados.Laws.{OmapLaws, ObjectLaws}

-- An object for a namespace and a name.
abbrev pub Objects : Type 0
Objects = Text → Text → Option Object

abbrev pub no_objects : Objects
no_objects c oid = none

abbrev pub store : Text → Text → Option Object → Objects → Objects
store c oid x s c' oid' = if str_eq c c' && str_eq oid oid' then x else s c' oid'

abbrev erase_all : TextSet → Map Text → Map Text
erase_all [] m = m
erase_all (k ∷ u) m = erase_all u (erase k m)

abbrev run_steps : Text → Text → List (WriteStep Text) → Objects → ℤ × Objects
run_steps c oid sts s = elim (apply_steps s sts (or_new (s c oid))) [
  | none ↦ (negsuc 1, s)
  | some y ↦ (pos 0, store c oid (some y) s)
]

abbrev get_xattrs : Option Object → ℤ × Map Text
get_xattrs none = (negsuc 1, [])
get_xattrs (some x) = (pos 0, x.xattrs)

abbrev get_omap : Option Object → ℤ × Map Text
get_omap none = (negsuc 1, [])
get_omap (some x) = (pos 0, x.omap)

abbrev pub memory : Librados
memory = record {
  State = Objects;
  IoCtx = Text;
  set_namespace = λ ns c. ns;
  operate = run_steps;
  aio_operate = λ c oid sts s. let (r, s') = run_steps c oid sts s in (pos 0, r, s');
  append_data = λ c oid bl len s.
      let x = or_new (s c oid) in
      (pos 0, store c oid (some (record x { content = x.content ++ take len bl })) s);
  write_full = λ c oid bl s.
      let x = or_new (s c oid) in (pos 0, store c oid (some (record x { content = bl })) s);
  read = λ c oid s. elim (s c oid) [
    | none ↦ (negsuc 1, [], s)
    | some x ↦ (pos (length x.content), x.content, s)
  ];
  stat = λ c oid s. elim (s c oid) [
    | none ↦ (negsuc 1, 0, pos 0, s)
    | some x ↦ (pos 0, length x.content, x.changed_at, s)
  ];
  remove =
      λ c oid s. elim (s c oid) [ none ↦ (negsuc 1, s) | some x ↦ (pos 0, store c oid none s) ];
  getxattrs = λ c oid s. let (r, m) = get_xattrs (s c oid) in (r, m, s);
  setxattr_now = λ c oid k v s. run_steps c oid (setxattr k v ∷ []) s;
  omap_get_vals_by_keys = λ c oid ks s. let (r, m) = get_omap (s c oid) in (r, m, s);
  omap_get_keys = λ c oid s. let (r, m) = get_omap (s c oid) in (r, map (λ kv. kv.0) m, s);
  omap_set_now = λ c oid m s.
      let x = or_new (s c oid) in
      (pos 0, store c oid (some (record x { omap = insert_all m x.omap })) s);
  omap_rm_keys = λ c oid ks s.
      let x = or_new (s c oid) in
      (pos 0, store c oid (some (record x { omap = erase_all ks x.omap })) s);
  substr_of =
      λ bl off len. if leb (off + len) (length bl) then some (take len (drop off bl)) else none;
  exec = λ c oid cls method bl s. (pos 0, s);
}

abbrev value_in : Text → Option Object → Option Text
value_in k none = none
value_in k (some x) = lookup k x.omap

ne_false : (k j : Text) → k ≢ j → str_eq k j ≡ false
ne_false k j h = elim (Bool-cases (str_eq k j)) [
  | inl e ↦ absurd (h ((str_eq_iff k j).0 e))
  | inr e ↦ e
]

empty_lookup : (j : Text) → lookup {V = Text} j [] ≡ none
unfolding lookup
empty_lookup j = refl

value_or_new : (k : Text) (x : Option Object) → lookup k (or_new x).omap ≡ value_in k x
value_or_new k none = empty_lookup k
value_or_new k (some x) = refl

-- An object that changes leaves a key alone which it holds as before.
pub store_value :
    (c e oid oid' j : Text) (x : Object) (s : Objects)
    → lookup j x.omap ≡ value_in j (s c oid)
    → value_in j (store c oid (some x) s e oid') ≡ value_in j (s e oid')
store_value c e oid oid' j x s h = elim (Bool-cases (str_eq c e)) [
  | inr p ↦ rw p
  | inl p ↦ elim (Bool-cases (str_eq oid oid')) [
    | inr q ↦ rw (p, q)
    | inl q ↦ rw (p, q, ← (str_eq_iff c e).0 p, ← (str_eq_iff oid oid').0 q) h
  ]
]

pub other_insert :
    (k j v : Text) (x : Option Object)
    → k ≢ j
    → lookup j (insert k v (or_new x).omap) ≡ value_in j x
other_insert k j v x h = rw (lookup-insert k j v (or_new x).omap, ne_false k j h) (value_or_new j x)

pub other_erase :
    (k j : Text) (x : Option Object) → k ≢ j → lookup j (erase k (or_new x).omap) ≡ value_in j x
other_erase k j x h = rw (lookup-erase k j (or_new x).omap, ne_false k j h) (value_or_new j x)

abbrev pub memory_omap : OmapLaws memory
memory_omap = record {
  value = λ s c oid k. value_in k (s c oid);
  set_self = λ c oid k v s.
      rw (
        str_eq_refl c,
        str_eq_refl oid,
        lookup-insert k k v (or_new (s c oid)).omap,
        str_eq_refl k,
      );
  set_other =
      λ c e oid oid' k j v s h. store_value c e oid oid' j _ s (other_insert k j v (s c oid) h);
  rm_self = λ c oid k s.
      rw (str_eq_refl c, str_eq_refl oid, lookup-erase k k (or_new (s c oid)).omap, str_eq_refl k);
  rm_other = λ c e oid oid' k j s h. store_value c e oid oid' j _ s (other_erase k j (s c oid) h);
}

abbrev pub MemoryApart : Text → Text → Text → Text → Type 0
MemoryApart c oid d oid' = str_eq c d && str_eq oid oid' ≡ false

store_self : (c oid : Text) (x : Option Object) (s : Objects) → store c oid x s c oid ≡ x
store_self c oid x s = rw (str_eq_refl c, str_eq_refl oid)

store_apart :
    (c oid d oid' : Text) (x : Option Object) (s : Objects)
    → MemoryApart c oid d oid'
    → store c oid x s d oid' ≡ s d oid'
store_apart c oid d oid' x s h = rw h

pub run_ok :
    (c oid : Text) (sts : List (WriteStep Text)) (s : Objects)
    → is_neg (run_steps c oid sts s).0 ≡ false
    → (run_steps c oid sts s).1 c oid ≡ apply_steps s sts (or_new (s c oid))
run_ok c oid sts s h = ground (arith, str_eq_refl c, str_eq_refl oid)

pub run_done :
    (c oid : Text) (sts : List (WriteStep Text)) (s : Objects)
    → is_zero (run_steps c oid sts s).0 ≡ true
    → (run_steps c oid sts s).1 c oid ≡ apply_steps s sts (or_new (s c oid))
run_done c oid sts s h = ground (arith, str_eq_refl c, str_eq_refl oid)

pub run_failed :
    (c oid : Text) (sts : List (WriteStep Text)) (s : Objects)
    → is_neg (run_steps c oid sts s).0 ≡ true
    → (run_steps c oid sts s).1 c oid ≡ s c oid
run_failed c oid sts s h = ground arith

pub run_apart :
    (c d oid oid' : Text) (sts : List (WriteStep Text)) (s : Objects)
    → MemoryApart c oid d oid'
    → (run_steps c oid sts s).1 d oid' ≡ s d oid'
run_apart c d oid oid' sts s h = ground (arith, store_apart c oid d oid')

pub apart_in_memory : (ns ns' oid oid' : Text) → ns ≢ ns' → str_eq ns ns' && str_eq oid oid' ≡ false
apart_in_memory ns ns' oid oid' h = rw (ne_false ns ns' h)

pub removed :
    (c oid : Text) (s : Objects)
    → is_zero (memory.remove c oid s).0 ≡ true
    → (memory.remove c oid s).1 c oid ≡ none
removed c oid s h = ground (arith, str_eq_refl c, str_eq_refl oid)

pub not_removed :
    (c oid : Text) (s : Objects)
    → is_zero (memory.remove c oid s).0 ≡ false
    → (memory.remove c oid s).1 c oid ≡ s c oid
not_removed c oid s h = ground arith

pub remove_apart :
    (c d oid oid' : Text) (s : Objects)
    → MemoryApart d oid' c oid
    → (memory.remove c oid s).1 d oid' ≡ s d oid'
remove_apart c d oid oid' s h =
    ground (arith, str_eq_iff c d, str_eq_iff d c, str_eq_iff oid oid', str_eq_iff oid' oid)

abbrev pub memory_objects : ObjectLaws memory
memory_objects = record {
  object = λ s c oid. s c oid;
  Apart = MemoryApart;
  apart_namespaces = λ c ns ns' oid oid' h. apart_in_memory ns ns' oid oid' h;
  operate_ok = λ c oid sts s h. run_ok c oid sts s h;
  operate_failed = λ c oid sts s h. run_failed c oid sts s h;
  aio_ok = λ c oid sts s h k. run_done c oid sts s k;
  aio_apart = λ c d oid oid' sts s h. run_apart c d oid oid' sts s h;
  remove_ok = λ c oid s h. removed c oid s h;
  remove_failed = λ c oid s h. not_removed c oid s h;
  remove_apart = λ c d oid oid' s h. remove_apart c d oid oid' s h;
  append_ok = λ c oid bl len s h k. rw (str_eq_refl c, str_eq_refl oid);
  substr_of_inside = λ bl off len h. ground arith;
}
