-- ===== src/Attributes/Tests.antt =====
-- Runs of the modules on the store in memory.
use dovecot_ceph_plugin.Prelude.{
  pos, ◌≡◌, refl, some, List, [], ◌∷◌, codes, Text, false, arith, is_neg, lookup,
}
use dovecot_ceph_plugin.Metadata.{RadosMetadata}
use dovecot_ceph_plugin.Librados.Objects.{Object, or_new}
use dovecot_ceph_plugin.Librados.Laws.{AttributeLaws}
use dovecot_ceph_plugin.Librados.Memory.{memory, memory_objects, Objects, no_objects, store}
use dovecot_ceph_plugin.Attributes.{new_mail_object}
use dovecot_ceph_plugin.Attributes.Plain.{load_metadata, update_metadata}
use dovecot_ceph_plugin.Attributes.Plain.Updates.{
  updated, metadata_of, load_metadata-update_metadata,
}

abbrev stored : Object
stored = record {
  content = codes "hello";
  xattrs = (codes "U", codes "4") ∷ [];
  omap = [];
  changed_at = pos 0;
}

abbrev one_object : Objects
one_object = store (codes "inbox") (codes "m1") (some stored) no_objects

read_attributes :
    (c oid : Text) (s : Objects)
    → is_neg (memory.getxattrs c oid s).0 ≡ false
    → (memory.getxattrs c oid s).1 ≡ (or_new (s c oid)).xattrs
read_attributes c oid s h = ground arith

abbrev memory_attributes : AttributeLaws memory memory_objects
memory_attributes = record { getxattrs_ok = λ c oid s h. read_attributes c oid s h }

abbrev new_values : List RadosMetadata
new_values =
    record { key = codes "U"; bl = codes "7" } ∷ record { key = codes "M"; bl = codes "g" } ∷ []

load_metadata-update_metadata_example :
    lookup (codes "U") (
      metadata_of
        (load_metadata memory
          (codes "inbox")
          (some (new_mail_object (codes "m1")))
          (update_metadata memory (codes "inbox") (codes "m1") new_values one_object).1).1)
    ≡ updated
        (codes "U")
        new_values
        (lookup (codes "U") (or_new (one_object (codes "inbox") (codes "m1"))).xattrs)
unfolding update_metadata dovecot_ceph_plugin.Librados.Objects.apply_steps new_mail_object
load_metadata-update_metadata_example =
    load_metadata-update_metadata memory memory_objects memory_attributes (codes "inbox") new_values
      (new_mail_object (codes "m1")) one_object (codes "U") refl refl refl
