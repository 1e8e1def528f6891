-- ===== src/Alt/Unmoved.antt =====
-- What a move to the alternative pool does.
use dovecot_ceph_plugin.Prelude.{Bool, ◌≡◌, some, Text, arith}
use dovecot_ceph_plugin.Librados.{Librados}
use dovecot_ceph_plugin.Storage.{Storage}
use dovecot_ceph_plugin.Alt.{MetadataStorage, copy_read, copy_to_alt, remove_source, move_to_alt}

module _ (L : Librados) (metadata : MetadataStorage L) where
  -- Whatever the calls answer, moving a mail has the result of copying it and leaves the same store:
  -- the mail is never removed from the pool that it came from.
  pub move_to_alt-copy_to_alt :
      (oid : Text) (primary alt_storage : Storage L) (io_ctx : L.IoCtx) (inverse : Bool)
      (s : L.State)
      → move_to_alt L metadata oid (primary, alt_storage) io_ctx inverse s
        ≡ copy_to_alt L metadata oid oid (some (primary, alt_storage)) io_ctx inverse s
  unfolding move_to_alt copy_to_alt copy_read remove_source
  move_to_alt-copy_to_alt oid primary alt_storage io_ctx inverse s = ground arith
