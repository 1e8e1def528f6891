-- ===== src/Copy/Tests.antt =====
-- Runs of a copy on the store in memory.
use dovecot_ceph_plugin.Prelude.{
  ℤ, pos, true, false, ◌≡◌, ◌≢◌, refl, none, some, [], Text, codes, sym, str_eq_iff,
}
use mathlib.Core.Bool.{true≢false}
use dovecot_ceph_plugin.Types.{key_to_char}
use dovecot_ceph_plugin.Librados.Objects.{apply_steps, new_object}
use dovecot_ceph_plugin.Librados.Memory.{memory, memory_objects, no_objects, Objects, store}
use dovecot_ceph_plugin.Config.{JsonConfig, is_updateable_attribute}
use dovecot_ceph_plugin.Attributes.Ima.{is_update_attributes}
use dovecot_ceph_plugin.Storage.{Storage, aio_operate}
use dovecot_ceph_plugin.Storage.Transfer as Transfer
use dovecot_ceph_plugin.Copy.Rehomed.{IsRehomed}
use dovecot_ceph_plugin.Save.Begin.{
  BeginCalls, NewMail, empty_mail, setup_mail_object, guid_of_data,
}
use dovecot_ceph_plugin.Copy.{
  CopyCalls, Boxes, CopyData, CopyState, set_mailbox_metadata, storage_copy, copy_mail,
}
use dovecot_ceph_plugin.Copy.Objects.{QuietCalls, Outcome, copy_mail-Outcome}

abbrev pool : Text → Storage memory
pool name = record {
  is_connected = true;
  io_ctx_created = true;
  io_ctx = codes "u1";
  recovery_io_ctx = codes "index";
  nspace = codes "u1";
  pool_name = name;
  max_write_size = pos 90;
  max_object_size = pos 134217728;
}

-- The identifiers that are made are all the same.
abbrev begins : BeginCalls memory
begins = record {
  guid_128_generate = λ s. (codes "o2", s);
  guid_128_to_string = λ g. g;
  guid_128_from_string = λ g. g;
  mail_generate_guid_128_hash = λ g. g;
  mail_index_append = λ uid s. (4, s);
  update_flags = λ a b s. s;
  update_keywords = λ a s. s;
  update_modseq = λ a b s. s;
  update_ext = λ a g o s. s;
  mail_alloc = λ s. s;
  set_seq_saving = λ a s. s;
  init_output_stream = λ s. s;
  cache_parse_init = λ s. s;
  ioloop_time = λ s. pos 1511;
  open_rados_connection = λ st s. (pos 0, st, s);
  save_continue = λ s. (pos 0, s);
}

abbrev copies : CopyCalls memory
copies = record {
  get_received_date = λ s. (some (pos 1500), s);
  get_from_envelope = λ s. (some [], s);
  get_guid = λ s. (none, s);
  copy_set_failed = λ s. s;
  mail_set_expunged = λ s. s;
  get_index_record = λ s. (some (codes "o1"), s);
  lookup_key = λ user s. (some user, s);
  open_rados_connection = λ alt_storage p s. (pos 0, p, s);
  keywords_ref = λ s. s;
  save_copy_flags = λ s. s;
  mail_storage_copy = λ s. (pos 0, s);
  copy_cache_fields = λ seq s. s;
  save_context_free = λ s. s;
  now = λ s. pos 1512;
}

abbrev quiet : QuietCalls memory memory_objects begins copies
quiet = record {
  append_keeps = λ uid s. refl;
  flags_keep = λ a b s. refl;
  keywords_keep = λ a s. refl;
  modseq_keep = λ a b s. refl;
  ext_keep = λ a g o s. refl;
  failed_keep = λ s. refl;
  expunged_keep = λ s. refl;
}

abbrev settings : JsonConfig
settings = record {
  valid = true;
  user_mapping = codes "false";
  user_ns = codes "users";
  user_suffix = codes "_u";
  public_namespace = codes "public";
  mail_attributes = codes "MGB";
  update_attributes = codes "true";
  updateable_attributes = codes "B";
  metadata_storage_module = codes "default";
  metadata_storage_attribute = codes "ima";
}

-- From one user's mailbox to another's.
abbrev boxes : Boxes
boxes = record {
  src_owner = some (codes "u1");
  dest_owner = some (codes "u2");
  dest_guid = codes "b2";
  dest_name = codes "Archive";
  is_rbox = true;
  disable_reflink_copy_to = false;
}

abbrev given : CopyData
given = record {
  given = record {
    guid = none;
    uid = 7;
    flags = 8;
    has_keywords = false;
    min_modseq = 0;
    received_date = pos 1500;
  };
  from_envelope = none;
}

abbrev new_mail : NewMail
new_mail = record {
  mail = empty_mail (codes "o2");
  mail_guid = codes "o2";
  mail_oid = codes "o2";
  deprecated_uid = false;
}

abbrev start : CopyState memory
start = record {
  ctx = record {
    mail_count = 0;
    seq = 0;
    rados_mails = [];
    has_transaction = true;
    has_sync_ctx = false;
    dest_mail = false;
    dest_mail_allocated = false;
    copying = true;
    moving = false;
    failed = false;
    finished = false;
  };
  rados_mail = none;
  mail_oid = [];
  mail_guid = [];
  save_log = record { logfile = codes "log"; log_active = true; ofs_open = true; contents = [] };
  pools = record {
    s = pool (codes "mail");
    alt = pool (codes "alt");
    metadata_io_ctx = codes "u1";
  };
}

abbrev one_object : Objects
one_object = store (codes "u1") (codes "o1") (some new_object) no_objects

users_differ : codes "u1" ≢ codes "u2"
users_differ e = true≢false (sym ((str_eq_iff (codes "u1") (codes "u2")).1 e))

copy_mail-Outcome_example :
    (result : ℤ × CopyState memory × Objects) × (copy_mail memory begins copies settings boxes
        (codes "o1")
        (codes "u1")
        (codes "u2")
        given
        false
        start
        one_object
      ≡ some result)
    × Outcome memory memory_objects begins copies quiet settings boxes
        (codes "u2")
        given
        new_mail
        false
        start
        (codes "u2")
        (IsRehomed settings boxes (codes "b2") (pos 1500) (pos 1512) new_object)
        result
    × (result.2 (codes "u1") (codes "o1") ≡ some new_object)
unfolding setup_mail_object guid_of_data empty_mail storage_copy Transfer.copy aio_operate
    apply_steps set_mailbox_metadata is_update_attributes is_updateable_attribute key_to_char
copy_mail-Outcome_example =
    copy_mail-Outcome memory memory_objects begins copies quiet settings boxes (codes "u2") given
      new_mail false start (codes "o1") (codes "u1") one_object one_object new_object refl refl refl
      users_differ refl refl
