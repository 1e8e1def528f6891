-- ===== src/Alt/Tests.antt =====
-- A move on the store in memory.
use dovecot_ceph_plugin.Prelude.{pos, true, false, ◌≡◌, [], codes, some}
use dovecot_ceph_plugin.Librados.Memory.{memory, Objects, no_objects, store}
use dovecot_ceph_plugin.Storage.{Storage}
use dovecot_ceph_plugin.Alt.{MetadataStorage, copy_to_alt, move_to_alt}
use dovecot_ceph_plugin.Alt.Unmoved.{move_to_alt-copy_to_alt}

abbrev no_metadata : MetadataStorage memory
no_metadata = record { load_metadata = λ c oid s. (pos 0, [], s); save_metadata = λ m. [] }

abbrev primary : Storage memory
primary = record {
  is_connected = true;
  io_ctx_created = true;
  io_ctx = codes "mail";
  recovery_io_ctx = codes "index";
  nspace = codes "mail";
  pool_name = codes "mail_storage";
  max_write_size = pos 90;
  max_object_size = pos 134217728;
}

abbrev alternative : Storage memory
alternative = record primary { io_ctx = codes "alt" }

abbrev one_mail : Objects
one_mail =
    store (codes "mail") (codes "m1")
      (some (record { content = codes "hello"; xattrs = []; omap = []; changed_at = pos 0 }))
      no_objects

move_to_alt-copy_to_alt_example :
    move_to_alt memory no_metadata (codes "m1") (primary, alternative) (codes "mail") false one_mail
    ≡ copy_to_alt memory no_metadata
        (codes "m1")
        (codes "m1")
        (some (primary, alternative))
        (codes "mail")
        false
        one_mail
move_to_alt-copy_to_alt_example =
    move_to_alt-copy_to_alt memory no_metadata (codes "m1") primary alternative (codes "mail") false
      one_mail
