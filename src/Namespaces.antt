-- ===== src/Namespaces.antt =====
-- src/librmb/rados-namespace-manager.cpp: which namespace belongs to a user, with a cache.
pub mod Entries
pub mod Stored
pub mod Tests
use dovecot_ceph_plugin.Prelude.{
  ℤ, is_neg, Bool, true, false, not, ◌||◌, Option, none, some, [], Text, Map, is_empty, lookup,
  insert, if◌then◌else◌,
}

-- The calls on the `RadosDovecotCephCfg` that the manager is given.
pub record Config : Type 1 where
  pub State : Type 0
  pub is_config_valid : State → Bool
  pub is_user_mapping : State → Bool
  pub get_user_ns : State → Text
  pub set_io_ctx_namespace : Text → State → State
  pub read_object : Text → State → ℤ × Text × State
  pub save_object : Text → Text → State → ℤ × State

module _ (C : Config) where
  -- What is asked of the store when the cache does not know the user.
  fetch : Text → Map Text → C.State → Option Text × Map Text × C.State
  fetch uid cache s =
      let (err, bl, s1) = C.read_object uid (C.set_io_ctx_namespace (C.get_user_ns s) s) in
      if is_neg err || is_empty bl
      then (none, cache, C.set_io_ctx_namespace [] s1)
      else (some bl, insert uid bl cache, C.set_io_ctx_namespace [] s1)

  -- `none` is the result false; `configured` is `config != nullptr`.
  pub lookup_key : Bool → Text → Map Text → C.State → Option Text × Map Text × C.State
  lookup_key configured uid cache s =
      if is_empty uid
      then (some uid, cache, s)
      else if not configured
      then (none, cache, s)
      else if not (C.is_config_valid s)
      then (none, cache, s)
      else if not (C.is_user_mapping s)
      then (some uid, cache, s)
      else elim (lookup uid cache) [ some v ↦ (some v, cache, s) | none ↦ fetch uid cache s ]

  -- With what the generator makes, if there is one.
  unfoldable pub add_namespace_entry :
      Bool → Text → Option Text → Map Text → C.State → Option Text × Map Text × C.State
  add_namespace_entry configured uid none cache s = (none, cache, s)
  add_namespace_entry configured uid (some guid) cache s =
      if not configured || not (C.is_config_valid s)
      then (none, cache, s)
      else let (err, s1) = C.save_object uid guid (C.set_io_ctx_namespace (C.get_user_ns s) s) in
        if is_neg err
        then (none, cache, C.set_io_ctx_namespace [] s1)
        else (some guid, insert uid guid cache, C.set_io_ctx_namespace [] s1)
