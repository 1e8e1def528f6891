-- ===== src/Sync/Tests/Changes.antt =====
-- Runs of the changes that the index hands over.
use dovecot_ceph_plugin.Prelude.{
  ℕ, arith, ◌≡◌, refl, pos, minus_one, true, false, some, List, [], ◌∷◌, codes, lookup,
}
use dovecot_ceph_plugin.Types.{key_to_char}
use dovecot_ceph_plugin.Librados.Objects.{Object}
use dovecot_ceph_plugin.Librados.Memory.{memory, no_objects, Objects, store}
use dovecot_ceph_plugin.Metadata.{convert}
use dovecot_ceph_plugin.Util.{get_key_metadata, get_metadata, buffer_start, flags_to_string}
use dovecot_ceph_plugin.Config.{JsonConfig}
use dovecot_ceph_plugin.Attributes.{MailObject, new_mail_object, get_all_keys_and_values}
use dovecot_ceph_plugin.Attributes.Plain.{plain, load_metadata}
use dovecot_ceph_plugin.Alt as Alt
use dovecot_ceph_plugin.Sync.{SyncCalls, SyncRec, flags, expunge}
use dovecot_ceph_plugin.Sync.Flags.{new_flags, change_flags}
use dovecot_ceph_plugin.Sync.Flags.Stored.{IsChanged, change_flags-stored}
use dovecot_ceph_plugin.Sync.Index.{sync_records}
use dovecot_ceph_plugin.Sync.Index.Swallowed.{is_well, sync_records_quiet}
use dovecot_ceph_plugin.Sync.Begin.{BeginCalls, SyncFlags}
use dovecot_ceph_plugin.Sync.Tests.{pools, index}

abbrev no_metadata : Alt.MetadataStorage memory
no_metadata = record { load_metadata = λ c oid s. (pos 0, [], s); save_metadata = λ m. [] }

abbrev settings : JsonConfig
settings = record {
  valid = true;
  user_mapping = codes "false";
  user_ns = codes "users";
  user_suffix = codes "_u";
  public_namespace = codes "public";
  mail_attributes = codes "MGF";
  update_attributes = codes "true";
  updateable_attributes = codes "F";
  metadata_storage_module = codes "default";
  metadata_storage_attribute = codes "ima";
}

-- The mail's flags were 10 when they were stored, which is the code of a line feed.
abbrev seen : Object
seen = record {
  content = codes "hello";
  xattrs = (codes "F", 0 ∷ []) ∷ [];
  omap = [];
  changed_at = pos 0;
}

abbrev seen_mail : MailObject
seen_mail = record (new_mail_object (codes "m1")) { metadata = (codes "F", 0 ∷ []) ∷ [] }

abbrev one_mail : Objects
one_mail = store (codes "mail") (codes "m1") (some seen) no_objects

-- Taking the flag \Seen away writes nothing.
change_flags-stored_example :
    (new : ℕ) × IsChanged 10 0 8 new
    × (change_flags memory index
          (λ c. plain memory c)
          0
          8
          (codes "m1")
          (codes "mail")
          (pos 0)
          one_mail
        ≡ some (pos 0, one_mail))
unfolding convert flags_to_string new_flags load_metadata new_mail_object get_all_keys_and_values
    get_key_metadata get_metadata buffer_start lookup key_to_char
change_flags-stored_example =
    change_flags-stored memory index (λ c. plain memory c) (codes "mail") 10 0 8 (codes "m1")
      (pos 0) seen_mail (pos 0) one_mail one_mail (omega arith) (omega arith) (omega arith) refl
      refl refl

-- The flags of the mails of uids 1 and 2 change, then the second one is expunged.
abbrev changes : List SyncRec
changes =
    record { uid1 = 1; uid2 = 2; change = flags 8 0 }
    ∷ record { uid1 = 2; uid2 = 2; change = expunge }
    ∷ []

sync_records_quiet_example :
    is_well memory index no_metadata
      (λ c. plain memory c)
      settings
      (sync_records memory index no_metadata
        (λ c. plain memory c)
        settings
        changes
        []
        pools
        no_objects)
    ≡ true
sync_records_quiet_example =
    sync_records_quiet memory index no_metadata (λ c. plain memory c) settings changes [] pools
      no_objects refl

abbrev sound : BeginCalls memory
sound = record {
  view_open = λ s. true;
  read_header = λ s. (pos 0, s);
  mail_index_refresh = λ s. s;
  corrupted_rebuild_count = λ s. 0;
  fsckd = λ s. some false;
  rebuild_in_context = λ force s. some (minus_one, s);
  recent_flags_reset = λ s. s;
  get_sync_flags = λ s. 0;
  flag_require_changes = 1;
  flag_fsync = 2;
  flag_avoid_flag_updates = 4;
  expunged_sync_begin = λ n s. (pos 1, changes, s);
  reset_fscked = λ s. (false, s);
  mailbox_open = λ s. (pos 0, s);
  is_opened = λ s. true;
  want_full_sync = λ n s. true;
  flag_force_resync = 1;
}

-- An index that has lost its UIDVALIDITY.
abbrev broken : SyncCalls memory
broken = record index {
  get_header = λ s. some (record { uid_validity = 0; next_uid = 5; first_recent_uid = 1 });
}

abbrev plain_sync : SyncFlags
plain_sync = record { force = false; fsync = false; force_rebuild = false }

abbrev forced_sync : SyncFlags
forced_sync = record { force = false; fsync = false; force_rebuild = true }
