-- ===== src/Attributes.antt =====
-- src/librmb/rados-metadata-storage-*.cpp: where the metadata of a mail object is kept. A module of
-- the storage answers the same calls in two ways: each entry an attribute of the object
-- (`Attributes/Plain`), or one attribute that holds them all as JSON (`Attributes/Ima`).
pub mod Plain
pub mod Ima
pub mod Tests
use dovecot_ceph_plugin.Prelude.{
  ℤ, pos, is_neg, Bool, false, Option, List, [], ◌∷◌, Text, Map, TextSet, insert, if◌then◌else◌,
}
use dovecot_ceph_plugin.Librados.{Librados, WriteStep}
use dovecot_ceph_plugin.Metadata.{RadosMetadata}

-- The parts of a mail that loading its metadata and the rebuild of an index use.
pub record MailObject : Type 0 where
  pub oid : Text
  pub metadata : Map Text
  pub extended_metadata : Map Text
  pub has_completion : Bool
  pub active_op : ℤ
  pub index_ref : Bool
  pub restored : Bool
  pub lost_object : Bool

-- A mail of which only the name is known.
unfoldable pub new_mail_object : Text → MailObject
new_mail_object oid = record {
  oid = oid;
  metadata = [];
  extended_metadata = [];
  has_completion = false;
  active_op = pos 0;
  index_ref = false;
  restored = false;
  lost_object = false;
}

unfoldable pub add_metadata : RadosMetadata → MailObject → MailObject
add_metadata m mail = record mail { metadata = insert m.key m.bl mail.metadata }

-- What a module of the storage does; `none` ends the process.
pub record MetadataModule (L : Librados) : Type 0 where
  pub load_metadata : Option MailObject → L.State → Option (ℤ × Option MailObject × L.State)
  pub set_metadata : RadosMetadata → MailObject → L.State → ℤ × MailObject × L.State
  pub set_metadata_by :
      RadosMetadata → List (WriteStep L.IoCtx) → MailObject → L.State → ℤ × MailObject × L.State
  pub update_metadata : Text → List RadosMetadata → L.State → Option (Bool × L.State)
  pub save_metadata : MailObject → List (WriteStep L.IoCtx)
  pub update_keyword_metadata : Text → Option RadosMetadata → L.State → ℤ × L.State
  pub remove_keyword_metadata : Text → Text → L.State → ℤ × L.State
  pub load_keyword_metadata : Text → TextSet → L.State → ℤ × Map Text × L.State

module _ (L : Librados) (io_ctx : L.IoCtx) where
  -- Of `RadosUtils`: all keys are read, then their values; the map stays where the keys cannot be read.
  unfoldable pub get_all_keys_and_values : Text → Map Text → L.State → ℤ × Map Text × L.State
  get_all_keys_and_values oid kv_map s =
      let (ret, extended_keys, s1) = L.omap_get_keys io_ctx oid s in
      if is_neg ret then (ret, kv_map, s1) else L.omap_get_vals_by_keys io_ctx oid extended_keys s1
