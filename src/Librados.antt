-- ===== src/Librados.antt =====
-- The calls of librados that the plugin makes. librados is not part of the repository, so every
-- part of the model that makes these calls takes such a record as a parameter, and a theorem
-- that relies on what a call does has a law of `Librados/Laws` among its hypotheses.
pub mod Objects
pub mod Laws
pub mod Memory
pub mod Reading
use dovecot_ceph_plugin.Prelude.{ℕ, ℤ, Option, List, Text, Map, TextSet}

-- One call on an `ObjectWriteOperation`; the operation is the list of the calls made on it.
pub data WriteStep (IoCtx : Type 0) : Type 0 where
  mtime : ℤ → WriteStep IoCtx
  setxattr : Text → Text → WriteStep IoCtx
  omap_set : Map Text → WriteStep IoCtx
  write : ℕ → Text → WriteStep IoCtx
  set_alloc_hint : ℕ → ℕ → WriteStep IoCtx
  copy_from : Text → IoCtx → WriteStep IoCtx

-- `State` is all that the calls read and change. A read fills its buffer by what it returns.
pub record Librados : Type 1 where
  pub State : Type 0
  pub IoCtx : Type 0
  pub set_namespace : Text → IoCtx → IoCtx
  pub operate : IoCtx → Text → List (WriteStep IoCtx) → State → ℤ × State
  -- the result of the call, and that of the completion once it has been waited for
  pub aio_operate : IoCtx → Text → List (WriteStep IoCtx) → State → ℤ × ℤ × State
  pub append_data : IoCtx → Text → Text → ℕ → State → ℤ × State
  pub write_full : IoCtx → Text → Text → State → ℤ × State
  pub read : IoCtx → Text → State → ℤ × Text × State
  -- the size and the time of the last change
  pub stat : IoCtx → Text → State → ℤ × ℕ × ℤ × State
  pub remove : IoCtx → Text → State → ℤ × State
  pub getxattrs : IoCtx → Text → State → ℤ × Map Text × State
  pub setxattr_now : IoCtx → Text → Text → Text → State → ℤ × State
  pub omap_get_vals_by_keys : IoCtx → Text → TextSet → State → ℤ × Map Text × State
  pub omap_get_keys : IoCtx → Text → State → ℤ × TextSet × State
  pub omap_set_now : IoCtx → Text → Map Text → State → ℤ × State
  pub omap_rm_keys : IoCtx → Text → TextSet → State → ℤ × State
  -- `bufferlist::substr_of`, which throws out of range
  pub substr_of : Text → ℕ → ℕ → Option Text
  pub exec : IoCtx → Text → Text → Text → Text → State → ℤ × State
