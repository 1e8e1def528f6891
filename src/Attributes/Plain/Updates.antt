-- ===== src/Attributes/Plain/Updates.antt =====
-- Updating metadata that is kept as attributes, and loading it back.
use dovecot_ceph_plugin.Prelude.{
  ℤ, is_neg, is_zero, true, false, ◌≡◌, refl, Option, none, some, List, [], ◌∷◌, Text, Map, c_str,
  str_eq, lookup, insert, lookup-insert, arith, if◌then◌else◌,
}
use dovecot_ceph_plugin.Librados.{Librados}
use dovecot_ceph_plugin.Librados.Objects.{Object, or_new, apply_step, apply_steps}
use dovecot_ceph_plugin.Librados.Laws.{ObjectLaws, AttributeLaws}
use dovecot_ceph_plugin.Metadata.{RadosMetadata}
use dovecot_ceph_plugin.Attributes.{MailObject}
use dovecot_ceph_plugin.Storage.{xattr_steps}
use dovecot_ceph_plugin.Attributes.Plain.{load_metadata, update_metadata}

-- What a key stands for after some updates: the last of them for this key, or what it stood for.
unfoldable pub updated : Text → List RadosMetadata → Option Text → Option Text
updated k [] old = old
updated k (m ∷ ms) old =
    let hit = str_eq (c_str m.key) k in updated k ms (if hit then some m.bl else old)

-- The metadata of the mail that is returned.
abbrev pub metadata_of : Option MailObject → Map Text
metadata_of none = []
metadata_of (some mail) = mail.metadata

is_neg-is_zero : (z : ℤ) → is_zero z ≡ true → is_neg z ≡ false
is_neg-is_zero z h = ground arith

module _ (L : Librados) (w : ObjectLaws L) (r : AttributeLaws L w) (io_ctx : L.IoCtx) where
  pub apply-xattr_steps :
      (f : L.IoCtx → Text → Option Object) (ms : List RadosMetadata) (x : Object)
      → (y : Object) × (apply_steps f (xattr_steps L ms) x ≡ some y)
        × ((k : Text) → lookup k y.xattrs ≡ updated k ms (lookup k x.xattrs))
  unfolding apply_step apply_steps updated
  apply-xattr_steps f [] x = (x, refl, λ k. refl)
  apply-xattr_steps f (m ∷ ms) x =
      let (y, e, h) =
        apply-xattr_steps f ms (record x { xattrs = insert (c_str m.key) m.bl x.xattrs }) in
      (y, e, λ k. rw (h k, lookup-insert (c_str m.key) k m.bl x.xattrs) refl)

  -- What is loaded, where the attributes can be read.
  pub load_metadata_read :
      (mail : MailObject) (s : L.State)
      → is_neg (L.getxattrs io_ctx mail.oid s).0 ≡ false
      → metadata_of (load_metadata L io_ctx (some mail) s).1
        ≡ (or_new (w.object s io_ctx mail.oid)).xattrs
  unfolding load_metadata
  load_metadata_read mail s h = rw (h, r.getxattrs_ok io_ctx mail.oid s h) refl

  update_metadata_done :
      (oid : Text) (to_update : List RadosMetadata) (s : L.State)
      → (update_metadata L io_ctx oid to_update s).0 ≡ true
      → is_zero (L.aio_operate io_ctx oid (xattr_steps L to_update) s).1 ≡ true
      → w.object (update_metadata L io_ctx oid to_update s).1 io_ctx oid
        ≡ apply_steps (w.object s) (xattr_steps L to_update) (or_new (w.object s io_ctx oid))
  unfolding update_metadata
  update_metadata_done oid to_update s called done =
      w.aio_ok io_ctx oid (xattr_steps L to_update) s (is_neg-is_zero _ called) done

  -- Where the call for an update and its completion report success and the attributes can then be
  -- loaded, each key has the value of its last update, and a key without an update the value that it
  -- had.
  pub load_metadata-update_metadata :
      (to_update : List RadosMetadata) (mail : MailObject) (s : L.State) (k : Text)
      → (update_metadata L io_ctx mail.oid to_update s).0 ≡ true
      → is_zero (L.aio_operate io_ctx mail.oid (xattr_steps L to_update) s).1 ≡ true
      → is_neg (L.getxattrs io_ctx mail.oid (update_metadata L io_ctx mail.oid to_update s).1).0
        ≡ false
      → lookup k (
          metadata_of
            (load_metadata L io_ctx
              (some mail)
              (update_metadata L io_ctx mail.oid to_update s).1).1)
        ≡ updated k to_update (lookup k (or_new (w.object s io_ctx mail.oid)).xattrs)
  load_metadata-update_metadata to_update mail s k called done read =
      let (y, e, h) =
        apply-xattr_steps (w.object s) to_update (or_new (w.object s io_ctx mail.oid)) in
      rw (load_metadata_read mail _ read, update_metadata_done mail.oid to_update s called done, e)
        (h k)
