-- ===== src/Save/Tests.antt =====
-- Runs of the chunked write on the store in memory.
use dovecot_ceph_plugin.Prelude.{
  pos, ◌≡◌, refl, some, none, [], ◌∷◌, codes, arith, true, false, not, ◌&&◌, ◌||◌, All,
}
use dovecot_ceph_plugin.Librados.{setxattr, write, copy_from}
use dovecot_ceph_plugin.Librados.Reading.{memory_removes}
use dovecot_ceph_plugin.Librados.Objects.{apply_steps, new_object}
use dovecot_ceph_plugin.Librados.Memory.{memory, memory_objects, no_objects, Objects, store}
use dovecot_ceph_plugin.Types.{oldv1_flags, pvt_flags, key_to_char}
use dovecot_ceph_plugin.Util.{validate_metadata}
use dovecot_ceph_plugin.Config.{JsonConfig, is_mail_attribute}
use dovecot_ceph_plugin.Storage.{Storage, Mail, delete_mail, delete_oid}
use dovecot_ceph_plugin.Storage.Chunks.{count}
use dovecot_ceph_plugin.Storage.Write.{bytes}
use dovecot_ceph_plugin.Save.{save_mail_write_append}
use dovecot_ceph_plugin.Save.Entries.{SaveData}
use dovecot_ceph_plugin.Save.Entries.Valid.{saved, passes, validate_metadata-saved}
use dovecot_ceph_plugin.Save.Finish.{SaveContext}
use dovecot_ceph_plugin.Save.Rollback.{TransactionCalls, clean_up_failed}
use dovecot_ceph_plugin.Save.Rollback.Deleted.{all_deleted, IndexLaws, clean_up_failed-IsGone}
use dovecot_ceph_plugin.Save.Append.{IsSized, Saved}
use dovecot_ceph_plugin.Save.Written.{
  save_mail_write_append-Saved, save_mail_write_append_unwritten,
}

abbrev pool : Storage memory
pool = record {
  is_connected = true;
  io_ctx_created = true;
  io_ctx = codes "inbox";
  recovery_io_ctx = codes "index";
  nspace = codes "inbox";
  pool_name = codes "mail_storage";
  max_write_size = pos 90;
  max_object_size = pos 134217728;
}

abbrev mail : Mail
mail = record {
  oid = codes "m1";
  mail_size = pos 5;
  mail_buffer = codes "hello";
  metadata = [];
  extended_metadata = [];
  save_date = pos 0;
}

mail-IsSized : IsSized mail
mail-IsSized = record { size = refl; small = omega arith }

-- Chunks of two bytes.
save_mail_write_append-Saved_example : Saved memory memory_objects pool mail (
    save_mail_write_append memory mail
      (setxattr (codes "M") (codes "Inbox") ∷ [])
      2
      pool
      no_objects)
unfolding bytes
save_mail_write_append-Saved_example =
    save_mail_write_append-Saved memory memory_objects pool mail 2 mail-IsSized (omega arith)
      (omega arith) (setxattr (codes "M") (codes "Inbox") ∷ []) no_objects (tt, tt) (omega arith)
      refl

-- The attributes are to be copied from an object that does not exist.
save_mail_write_append_unwritten_example :
    save_mail_write_append memory mail
      (copy_from (codes "m0") (codes "inbox") ∷ [])
      8
      pool
      no_objects
    ≡ some (
      pos 0,
      (memory.operate (codes "inbox") (codes "m1") (write 0 (codes "hello") ∷ []) no_objects).1,
    )
unfolding count apply_steps
save_mail_write_append_unwritten_example =
    save_mail_write_append_unwritten memory memory_objects pool mail 8 mail-IsSized (omega arith)
      (omega arith) (copy_from (codes "m0") (codes "inbox") ∷ []) no_objects refl refl refl
      (omega arith) refl refl

abbrev described : SaveData
described = record {
  mailbox_guid_text = codes "m1";
  mail_guid_text = codes "g1";
  mail_guid_uuid = codes "g-1";
  deprecated_uid = false;
  mailbox_name = codes "INBOX";
  received_date = pos 1511;
  uidl = none;
  order = 0;
  envelope = some (codes "a@b");
  vsize = none;
  v_offset = 20;
  flags = 8;
  private_flags = 0;
  keywords = [];
}

abbrev settings : JsonConfig
settings = record {
  valid = true;
  user_mapping = codes "false";
  user_ns = codes "users";
  user_suffix = codes "_u";
  public_namespace = codes "public";
  mail_attributes = codes "MGPORZVBUIF";
  update_attributes = codes "false";
  updateable_attributes = codes "";
  metadata_storage_module = codes "default";
  metadata_storage_attribute = codes "ima";
}

validate_metadata-saved_example : validate_metadata (saved settings described (codes "o1") 7) ≡ (
    (not (is_mail_attribute oldv1_flags settings) || passes described.flags)
    && (not (is_mail_attribute pvt_flags settings) || passes described.private_flags))
unfolding is_mail_attribute key_to_char
validate_metadata-saved_example =
    validate_metadata-saved settings described (codes "o1") 7 (record {
      guids = refl;
      mailboxes = refl;
      times = refl;
      physicals = refl;
      virtuals = refl;
      date = (1511, refl);
      v_offset_int = omega arith;
      vsize_int = omega arith;
    })

abbrev transactions : TransactionCalls memory
transactions = record {
  mail_index_expunge = λ seq s. s;
  mail_cache_transaction_reset = λ s. s;
  mail_free = λ s. s;
  sync_begin = λ s. (pos 0, s);
  sync_finish = λ b s. (pos 0, s);
  set_commit_result = λ s. s;
}

abbrev quiet : IndexLaws memory memory_objects transactions
quiet = record { expunge_keeps = λ seq s. refl; reset_keeps = λ s. refl }

abbrev context : SaveContext
context = record {
  mail_count = 1;
  seq = 1;
  rados_mails = mail ∷ [];
  has_transaction = true;
  has_sync_ctx = false;
  dest_mail = false;
  dest_mail_allocated = false;
  copying = false;
  moving = false;
  failed = true;
  finished = true;
}

abbrev one_object : Objects
one_object = store (codes "inbox") (codes "m1") (some new_object) no_objects

clean_up_failed-IsGone_example :
    All
      (λ m.
        (clean_up_failed memory transactions pool context one_object).1 (codes "inbox") m.oid
        ≡ none)
      (mail ∷ [])
    × ((clean_up_failed memory transactions pool context one_object).0.rados_mails ≡ [])
unfolding all_deleted delete_mail delete_oid
clean_up_failed-IsGone_example =
    clean_up_failed-IsGone memory memory_objects memory_removes transactions quiet pool context
      one_object refl
