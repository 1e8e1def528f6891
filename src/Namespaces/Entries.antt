-- ===== src/Namespaces/Entries.antt =====
-- The cache agrees with the store.
use mathlib.Core.Bool.{false≢true}
use dovecot_ceph_plugin.Prelude.{
  is_neg, Bool, true, false, ◌≡◌, ◌≢◌, ◌⊎◌, refl, ◌∙◌, sym, Option, none, some, [], Text, Map,
  is_empty, lookup, lookup-insert, str_eq, str_eq_iff, str_eq_refl, arith,
}
use dovecot_ceph_plugin.Namespaces.{Config, fetch, lookup_key, add_namespace_entry}

-- What the store holds under the names of each namespace, the namespace in force, and what the calls
-- do to them: a read and a write go to the namespace in force, and the configuration keeps the
-- namespace of the users.
pub record StoreLaws (C : Config) : Type 1 where
  pub stored : C.State → Text → Text → Text
  pub namespace : C.State → Text
  pub namespace_set : (ns : Text) (s : C.State) → namespace (C.set_io_ctx_namespace ns s) ≡ ns
  pub set_keeps : (ns : Text) (s : C.State) → stored (C.set_io_ctx_namespace ns s) ≡ stored s
  pub set_user_ns :
      (ns : Text) (s : C.State) → C.get_user_ns (C.set_io_ctx_namespace ns s) ≡ C.get_user_ns s
  pub read_gives :
      (uid : Text) (s : C.State)
      → is_neg (C.read_object uid s).0 ≡ false
      → (C.read_object uid s).1 ≡ stored s (namespace s) uid
  pub read_keeps : (uid : Text) (s : C.State) → stored (C.read_object uid s).2 ≡ stored s
  pub read_user_ns :
      (uid : Text) (s : C.State) → C.get_user_ns (C.read_object uid s).2 ≡ C.get_user_ns s
  pub save_gives :
      (uid v : Text) (s : C.State)
      → is_neg (C.save_object uid v s).0 ≡ false
      → stored (C.save_object uid v s).1 (namespace s) uid ≡ v
  pub save_keeps :
      (uid v j : Text) (s : C.State)
      → uid ≢ j
      → stored (C.save_object uid v s).1 (namespace s) j ≡ stored s (namespace s) j
  pub save_failed :
      (uid v j : Text) (s : C.State)
      → is_neg (C.save_object uid v s).0 ≡ true
      → stored (C.save_object uid v s).1 (namespace s) j ≡ stored s (namespace s) j
  pub save_user_ns :
      (uid v : Text) (s : C.State) → C.get_user_ns (C.save_object uid v s).1 ≡ C.get_user_ns s

module _ (C : Config) (w : StoreLaws C) where
  -- What the namespace of the users holds for a user.
  abbrev user_entry : C.State → Text → Text
  user_entry s uid = w.stored s (C.get_user_ns s) uid

  -- What the cache knows is what the namespace of the users holds.
  unfoldable pub IsCurrent : Map Text → C.State → Type 0
  IsCurrent cache s =
      (uid v : Text) → lookup uid cache ≡ some v → w.stored s (C.get_user_ns s) uid ≡ v

  -- The state in which the entries are read and written.
  abbrev in_users : C.State → C.State
  in_users s = C.set_io_ctx_namespace (C.get_user_ns s) s

  -- The empty namespace in force again.
  user_entry-reset :
      (s : C.State) (j : Text) → user_entry (C.set_io_ctx_namespace [] s) j ≡ user_entry s j
  user_entry-reset s j = rw (user_entry, w.set_keeps [] s, w.set_user_ns [] s) refl

  in_users-entry :
      (s : C.State) (j : Text) → w.stored (in_users s) (w.namespace (in_users s)) j ≡ user_entry s j
  in_users-entry s j =
      rw (w.namespace_set (C.get_user_ns s) s, w.set_keeps (C.get_user_ns s) s) refl

  after_read :
      (uid j : Text) (s : C.State)
      → user_entry (C.set_io_ctx_namespace [] (C.read_object uid (in_users s)).2) j ≡ user_entry s j
  after_read uid j s =
      user_entry-reset (C.read_object uid (in_users s)).2 j
      ∙ rw
          (
            user_entry,
            w.read_keeps uid (in_users s),
            w.read_user_ns uid (in_users s),
            w.set_user_ns (C.get_user_ns s) s,
            w.set_keeps (C.get_user_ns s) s,
          )
          refl

  read_entry :
      (uid : Text) (s : C.State)
      → is_neg (C.read_object uid (in_users s)).0 ≡ false
      → (C.read_object uid (in_users s)).1 ≡ user_entry s uid
  read_entry uid s h = w.read_gives uid (in_users s) h ∙ in_users-entry s uid

  fetch-IsCurrent :
      (uid : Text) (cache : Map Text) (s : C.State)
      → IsCurrent cache s
      → IsCurrent (fetch C uid cache s).1 (fetch C uid cache s).2
  unfolding fetch IsCurrent
  fetch-IsCurrent uid cache s h j v e = ground (
    arith,
    after_read uid j s,
    h j v,
    lookup-insert uid j (C.read_object uid (in_users s)).1 cache,
    str_eq_iff uid j,
    read_entry uid s,
  )

  -- A cache that agrees with the entries in the namespace of the users still does after a lookup,
  -- whatever is looked up: the entry is read in that namespace, and the namespace in force is empty
  -- again afterwards where an entry was read.
  pub lookup_key-IsCurrent :
      (configured : Bool) (uid : Text) (cache : Map Text) (s : C.State)
      → IsCurrent cache s
      → IsCurrent (lookup_key C configured uid cache s).1 (lookup_key C configured uid cache s).2
        × ((w.namespace (lookup_key C configured uid cache s).2 ≡ [])
            ⊎ ((lookup_key C configured uid cache s).2 ≡ s))
  unfolding lookup_key fetch
  lookup_key-IsCurrent configured uid cache s h = (
    ground (arith, fetch-IsCurrent uid cache s h),
    ground (arith, w.namespace_set [] (C.read_object uid (in_users s)).2),
  )

  -- The entry of a user after a write in the namespace of the users.
  after_save :
      (uid v j : Text) (s : C.State)
      → user_entry (C.set_io_ctx_namespace [] (C.save_object uid v (in_users s)).1) j
        ≡ w.stored (C.save_object uid v (in_users s)).1 (w.namespace (in_users s)) j
  after_save uid v j s =
      user_entry-reset (C.save_object uid v (in_users s)).1 j
      ∙ rw
          (
            user_entry,
            w.save_user_ns uid v (in_users s),
            w.set_user_ns (C.get_user_ns s) s,
            w.namespace_set (C.get_user_ns s) s,
          )
          refl

  save_other :
      (uid v j : Text) (s : C.State)
      → str_eq uid j ≡ false
      → w.stored (C.save_object uid v s).1 (w.namespace s) j ≡ w.stored s (w.namespace s) j
  save_other uid v j s h = w.save_keeps uid v j s (λ e. false≢true (sym h ∙ (str_eq_iff uid j).1 e))

  -- A cache that agrees with the entries in the namespace of the users still does after an entry was
  -- added, or could not be saved.
  pub add_namespace_entry-IsCurrent :
      (configured : Bool) (uid : Text) (guid : Option Text) (cache : Map Text) (s : C.State)
      → IsCurrent cache s
      → IsCurrent
          (add_namespace_entry C configured uid guid cache s).1
          (add_namespace_entry C configured uid guid cache s).2
  unfolding add_namespace_entry IsCurrent
  add_namespace_entry-IsCurrent configured uid none cache s h j v = h j v
  add_namespace_entry-IsCurrent configured uid (some guid) cache s h j v = ground (
    arith,
    h j v,
    after_save uid guid j s,
    in_users-entry s j,
    lookup-insert uid j guid cache,
    str_eq_iff uid j,
    w.save_gives uid guid (in_users s),
    w.save_failed uid guid j (in_users s),
    save_other uid guid j (in_users s),
  )

module _ (C : Config) where
  -- A namespace that was added is the one that the user is given from then on, by the cache alone:
  -- the lookup changes nothing, as long as the configuration is valid and maps users.
  pub lookup_key-add_namespace_entry :
      (uid v : Text) (guid : Option Text) (cache : Map Text) (s : C.State)
      → (add_namespace_entry C true uid guid cache s).0 ≡ some v
      → is_empty uid ≡ false
      → C.is_config_valid (add_namespace_entry C true uid guid cache s).2 ≡ true
      → C.is_user_mapping (add_namespace_entry C true uid guid cache s).2 ≡ true
      → lookup_key C true uid
          (add_namespace_entry C true uid guid cache s).1
          (add_namespace_entry C true uid guid cache s).2
        ≡ (
          some v,
          (add_namespace_entry C true uid guid cache s).1,
          (add_namespace_entry C true uid guid cache s).2,
        )
  unfolding lookup_key add_namespace_entry
  lookup_key-add_namespace_entry uid v none cache s h filled valid mapped = absurd (ground arith)
  lookup_key-add_namespace_entry uid v (some guid) cache s h filled valid mapped =
      ground (arith, lookup-insert uid uid guid cache, str_eq_refl uid)
