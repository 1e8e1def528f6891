-- ===== src/Alt.antt =====
-- src/librmb/rados-util.cpp: copying and moving a mail to the alternative pool and back.
pub mod Unmoved
pub mod Tests
use dovecot_ceph_plugin.Prelude.{
  ℤ, pos, minus_one, is_neg, is_pos, to_int, Bool, true, false, Option, none, some, List, [], Text,
  Map, length, if◌then◌else◌,
}
use dovecot_ceph_plugin.Librados.{Librados, WriteStep}
use dovecot_ceph_plugin.Storage.{Storage, Mail, read_mail, save_mail_op}

-- The metadata storage that is configured: it reads a mail's metadata over the io context that it
-- was last given, and adds them to a write operation.
pub record MetadataStorage (L : Librados) : Type 0 where
  pub load_metadata : L.IoCtx → Text → L.State → ℤ × Map Text × L.State
  pub save_metadata : Map Text → List (WriteStep L.IoCtx)

module _ (L : Librados) (metadata : MetadataStorage L) where
  -- The mail that is written; its save date is that of a new object.
  copied_mail : Text → Text → Map Text → Mail
  copied_mail dest_oid bl loaded = record {
    oid = dest_oid;
    mail_size = to_int (length bl);
    mail_buffer = bl;
    metadata = loaded;
    extended_metadata = [];
    save_date = minus_one;
  }

  -- The part of `copy_to_alt` after the mail has been read. `io_ctx` is that of the metadata storage.
  copy_read : Text → Text → Text → L.IoCtx → Storage L → L.State → Option (ℤ × L.IoCtx × L.State)
  copy_read src_oid dest_oid bl io_ctx target s =
      let (ret, loaded, s1) = metadata.load_metadata io_ctx src_oid s in
      if is_neg ret
      then some (ret, io_ctx, s1)
      else elim (save_mail_op L (metadata.save_metadata loaded) (copied_mail dest_oid bl loaded)
          target s1) [
            | none ↦ none
            | some (success, s2) ↦
                some ((if success then (if success then pos 0 else pos 1) else pos 0), io_ctx, s2)
          ]

  -- Without one of the storages nothing is done.
  pub copy_to_alt :
      Text
      → Text
      → Option (Storage L × Storage L)
      → L.IoCtx
      → Bool
      → L.State
      → Option (ℤ × L.IoCtx × L.State)
  copy_to_alt src_oid dest_oid none io_ctx inverse s = some (pos 0, io_ctx, s)
  copy_to_alt src_oid dest_oid (some (primary, alt_storage)) io_ctx inverse s =
      let (ret, bl, s1) = read_mail L src_oid (if inverse then alt_storage else primary) s in
      if is_neg ret
      then some (ret, primary.io_ctx, s1)
      else copy_read src_oid dest_oid bl (if inverse then alt_storage.io_ctx else io_ctx)
          (if inverse then primary else alt_storage) s1

  remove_source :
      Text → Storage L × Storage L → Bool → ℤ × L.IoCtx × L.State → ℤ × L.IoCtx × L.State
  remove_source oid (primary, alt_storage) inverse (ret, io_ctx, s) =
      if is_pos ret
      then (let (ret2, s') =
            L.remove (if inverse then alt_storage.io_ctx else primary.io_ctx) oid s in
          (ret2, io_ctx, s'))
      else (ret, io_ctx, s)

  pub move_to_alt :
      Text → Storage L × Storage L → L.IoCtx → Bool → L.State → Option (ℤ × L.IoCtx × L.State)
  move_to_alt oid storages io_ctx inverse s =
      elim (copy_to_alt oid oid (some storages) io_ctx inverse s) [
        | none ↦ none
        | some r ↦ some (remove_source oid storages inverse r)
      ]
