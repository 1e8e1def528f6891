-- ===== src/DictRados/Deploy.antt =====
-- The loops that send a transaction's changes to the store.
use dovecot_ceph_plugin.Prelude.{
  ◌≡◌, refl, ◌∙◌, inl, inr, true, ◌||◌, Option, none, some, [], ◌∷◌, Text, Map, TextSet, arith,
  has_prefix, str_eq, str_eq_iff, str_eq_refl, lookup, member, IsOrdered, KeysAbove, lookup_below,
  Bool-cases, if◌then◌else◌,
}
use dovecot_ceph_plugin.Librados.{Librados}
use dovecot_ceph_plugin.Librados.Laws.{OmapLaws}
use dovecot_ceph_plugin.DictRados.{
  Dictionary, Transaction, is_private, path_private, route, deploy_sets, deploy_unsets,
}
use dovecot_ceph_plugin.DictRados.Calls.{IsKey, View, put, drop_all, MapKeys, SetKeys}

module _ (L : Librados) (d : Dictionary L) (w : OmapLaws L) where
  -- Opening a name space gives a fixed handle and changes no value.
  pub record IsOpening : Type 1 where
    pub private_handle : L.IoCtx
    pub shared_handle : L.IoCtx
    pub private_io : (s : L.State) → (d.private_io_ctx s).0 ≡ private_handle
    pub shared_io : (s : L.State) → (d.shared_io_ctx s).0 ≡ shared_handle
    pub private_keeps :
        (s : L.State) (c : L.IoCtx) (oid j : Text)
        → w.value (d.private_io_ctx s).1 c oid j ≡ w.value s c oid j
    pub shared_keeps :
        (s : L.State) (c : L.IoCtx) (oid j : Text)
        → w.value (d.shared_io_ctx s).1 c oid j ≡ w.value s c oid j

module _ (L : Librados) (d : Dictionary L) (w : OmapLaws L) (o : IsOpening L d w) where
  abbrev pub oid_of : Text → Text
  oid_of key = if has_prefix path_private key then d.private_oid else d.shared_oid

  abbrev pub io_of : Text → L.IoCtx
  io_of key = if has_prefix path_private key then o.private_handle else o.shared_handle

  -- What the dictionary holds under a key.
  abbrev pub view : L.State → View
  view s j = w.value s (io_of j) (oid_of j) j

  abbrev opened : Text → L.State → L.State
  opened key s =
      if has_prefix path_private key then (d.private_io_ctx s).1 else (d.shared_io_ctx s).1

  abbrev dirtied : Text → Transaction → Transaction
  dirtied key ctx = record ctx {
    dirty_private = has_prefix path_private key || ctx.dirty_private;
    dirty_shared = if has_prefix path_private key then ctx.dirty_shared else true;
  }

  route_lem :
      (key : Text) (ctx : Transaction) (s : L.State)
      → IsKey key
      → route L d key ctx s ≡ some (oid_of key, io_of key, dirtied key ctx, opened key s)
  unfolding route
  route_lem key ctx s (inl h) = rw (h, route, is_private) (rw (h, o.private_io s) refl)
  route_lem key ctx s (inr h) = elim (Bool-cases (has_prefix path_private key)) [
    | inl p ↦ rw (p, route, is_private) (rw (p, o.private_io s) refl)
    | inr p ↦ rw (p, h, route, is_private) (rw (p, h, o.shared_io s) refl)
  ]

  view-opened : (key j : Text) (s : L.State) → view (opened key s) j ≡ view s j
  view-opened key j s = elim (Bool-cases (has_prefix path_private key)) [
    | inl p ↦ rw p (o.private_keeps s (io_of j) (oid_of j) j)
    | inr p ↦ rw p (o.shared_keeps s (io_of j) (oid_of j) j)
  ]

  view-set :
      (k v j : Text) (s : L.State)
      → view (L.omap_set_now (io_of k) (oid_of k) ((k, v) ∷ []) (opened k s)).1 j
        ≡ (if str_eq k j then some v else view s j)
  view-set k v j s = elim (Bool-cases (str_eq k j)) [
    | inl e ↦
        rw (← (str_eq_iff k j).0 e, str_eq_refl k)
          (w.set_self (io_of k) (oid_of k) k v (opened k s))
    | inr e ↦ rw e (
        w.set_other (io_of k) (io_of j) (oid_of k) (oid_of j) k j v (opened k s)
          (λ p. cc ((str_eq_iff k j).1 p))
        ∙ view-opened k j s)
  ]

  view-rm :
      (k j : Text) (s : L.State)
      → view (L.omap_rm_keys (io_of k) (oid_of k) (k ∷ []) (opened k s)).1 j
        ≡ (if str_eq k j then none else view s j)
  view-rm k j s = elim (Bool-cases (str_eq k j)) [
    | inl e ↦
        rw (← (str_eq_iff k j).0 e, str_eq_refl k) (w.rm_self (io_of k) (oid_of k) k (opened k s))
    | inr e ↦ rw e (
        w.rm_other (io_of k) (io_of j) (oid_of k) (oid_of j) k j (opened k s)
          (λ p. cc ((str_eq_iff k j).1 p))
        ∙ view-opened k j s)
  ]

  -- The loops end, with the map and the set of the transaction as they were, in a store that
  -- shows `target`.
  pub record Deployed (r : Option (Transaction × L.State)) (ctx : Transaction) (target : View)
      : Type 0 where
    pub ctx' : Transaction
    pub store : L.State
    pub result : r ≡ some (ctx', store)
    pub same_set : ctx'.set_map ≡ ctx.set_map
    pub same_unset : ctx'.unset_set ≡ ctx.unset_set
    pub same_incs : ctx'.atomic_inc_map ≡ ctx.atomic_inc_map
    pub same_flag : ctx'.atomic_inc_not_found ≡ ctx.atomic_inc_not_found
    pub shows : (j : Text) → view store j ≡ target j

  deploy_sets-cons :
      (k v : Text) (m : Map Text) (ctx : Transaction) (s : L.State)
      → IsKey k
      → deploy_sets L d ((k, v) ∷ m) ctx s
        ≡ deploy_sets L d m
            (dirtied k ctx)
            (L.omap_set_now (io_of k) (oid_of k) ((k, v) ∷ []) (opened k s)).1
  unfolding deploy_sets
  deploy_sets-cons k v m ctx s h = rw (route_lem k ctx s h, deploy_sets)

  put-cons :
      (k v : Text) (m : Map Text) (d e : View) (j : Text)
      → KeysAbove k m
      → e j ≡ (if str_eq k j then some v else d j)
      → put m e j ≡ put ((k, v) ∷ m) d j
  unfolding lookup
  put-cons k v m d e j a h = elim (Bool-cases (str_eq k j)) [
    | inl p ↦ ground (arith, lookup_below k m a, str_eq_iff k j)
    | inr p ↦ ground arith
  ]

  KeysAbove-IsOrdered : (k : Text) (m : Map Text) → KeysAbove k m → IsOrdered m
  KeysAbove-IsOrdered k [] a = tt
  KeysAbove-IsOrdered k ((j, v) ∷ m) a = a.1

  -- Each value of the map goes into the store.
  pub deploy_sets_lem :
      (m : Map Text) (ctx : Transaction) (s : L.State)
      → MapKeys m
      → IsOrdered m
      → Deployed (deploy_sets L d m ctx s) ctx (put m (view s))
  unfolding deploy_sets lookup
  deploy_sets_lem [] ctx s h a = record {
    ctx' = ctx;
    store = s;
    result = refl;
    same_set = refl;
    same_unset = refl;
    same_incs = refl;
    same_flag = refl;
    shows = λ j. refl;
  }
  deploy_sets_lem ((k, v) ∷ m) ctx s h a =
      let s1 = (L.omap_set_now (io_of k) (oid_of k) ((k, v) ∷ []) (opened k s)).1 in
      let rest = deploy_sets_lem m (dirtied k ctx) s1 h.1 (KeysAbove-IsOrdered k m a) in
      record {
        ctx' = rest.ctx';
        store = rest.store;
        result = deploy_sets-cons k v m ctx s h.0 ∙ rest.result;
        same_set = rest.same_set;
        same_unset = rest.same_unset;
        same_incs = rest.same_incs;
        same_flag = rest.same_flag;
        shows = λ j. rest.shows j ∙ put-cons k v m (view s) (view s1) j a (view-set k v j s);
      }

  deploy_unsets-cons :
      (k : Text) (u : TextSet) (ctx : Transaction) (s : L.State)
      → IsKey k
      → deploy_unsets L d (k ∷ u) ctx s
        ≡ deploy_unsets L d u
            (dirtied k ctx)
            (L.omap_rm_keys (io_of k) (oid_of k) (k ∷ []) (opened k s)).1
  unfolding deploy_unsets
  deploy_unsets-cons k u ctx s h = rw (route_lem k ctx s h, deploy_unsets)

  -- Each key of the set is removed from the store.
  pub deploy_unsets_lem :
      (u : TextSet) (ctx : Transaction) (s : L.State)
      → SetKeys u
      → Deployed (deploy_unsets L d u ctx s) ctx (drop_all u (view s))
  unfolding deploy_unsets member
  deploy_unsets_lem [] ctx s h = record {
    ctx' = ctx;
    store = s;
    result = refl;
    same_set = refl;
    same_unset = refl;
    same_incs = refl;
    same_flag = refl;
    shows = λ j. refl;
  }
  deploy_unsets_lem (k ∷ u) ctx s h =
      let s1 = (L.omap_rm_keys (io_of k) (oid_of k) (k ∷ []) (opened k s)).1 in
      let rest = deploy_unsets_lem u (dirtied k ctx) s1 h.1 in
      record {
        ctx' = rest.ctx';
        store = rest.store;
        result = deploy_unsets-cons k u ctx s h.0 ∙ rest.result;
        same_set = rest.same_set;
        same_unset = rest.same_unset;
        same_incs = rest.same_incs;
        same_flag = rest.same_flag;
        shows = λ j. rest.shows j ∙ ground (arith, view-rm k j s);
      }
