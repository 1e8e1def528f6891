-- ===== src/Mailbox.antt =====
-- src/storage-rbox/rbox-storage.cpp: a mailbox of Dovecot over the pools.
pub mod Indexes
pub mod Delete
pub mod Tests
use dovecot_ceph_plugin.Prelude.{
  ℕ, Bool, false, not, ◌==◌, Option, none, some, Text, c_str, is_empty,
}
use Prim.Native.Nat.{bit_and}
use dovecot_ceph_plugin.Librados.{Librados}
use dovecot_ceph_plugin.Storage.{Storage}

-- What `struct rbox_storage` keeps of its pools: the two storages, and the io context that its
-- metadata storage was last given.
pub record Pools (L : Librados) : Type 0 where
  pub s : Storage L
  pub alt : Storage L
  pub metadata_io_ctx : L.IoCtx

-- The flag is Dovecot's `MAIL_INDEX_MAIL_FLAG_BACKEND`.
unfoldable pub is_alternate_storage_set : ℕ → ℕ → Bool
is_alternate_storage_set rbox_index_flag_alt flags = not (bit_and flags rbox_index_flag_alt == 0)

-- On the setting `alt_dir`, `none` the null pointer.
unfoldable pub is_alternate_pool_valid : Option Text → Bool
is_alternate_pool_valid none = false
is_alternate_pool_valid (some alt_dir) = not (is_empty (c_str alt_dir))
