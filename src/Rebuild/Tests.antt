-- ===== src/Rebuild/Tests.antt =====
-- Rebuilding an index over the store in memory.
use dovecot_ceph_plugin.Prelude.{
  ◌≡◌, refl, pos, true, false, is_neg, some, [], ◌∷◌, Text, Map, TextSet, codes, lookup, keep,
  insert, stoi, arith,
}
use dovecot_ceph_plugin.Types.{key_to_char}
use dovecot_ceph_plugin.Util.{
  validate_metadata, is_numeric, is_numeric_optional, get_key_metadata, get_metadata, buffer_start,
}
use dovecot_ceph_plugin.Librados.Objects.{Object, or_new, apply_steps}
use dovecot_ceph_plugin.Librados.Laws.{AttributeLaws}
use dovecot_ceph_plugin.Librados.Memory.{memory, memory_objects, Objects, no_objects, store}
use dovecot_ceph_plugin.Attributes.{MailObject, new_mail_object}
use dovecot_ceph_plugin.Attributes.Plain.{plain, load_metadata}
use dovecot_ceph_plugin.Attributes.Plain.Updates.{metadata_of}
use dovecot_ceph_plugin.Storage.{xattr_steps}
use dovecot_ceph_plugin.Rebuild.{
  IndexCalls, RadosMails, rebuild_entry, first_uid, finish_entry, add_objects, add_object,
  add_record, before,
}
use dovecot_ceph_plugin.Rebuild.Load.{load_rados_mail_metadata, valid_mails, is_in, listed}
use dovecot_ceph_plugin.Rebuild.Load.Grouping.{load_rados_mail_metadata_lem}
use dovecot_ceph_plugin.Rebuild.Again.{rebuild_entry_again}
use dovecot_ceph_plugin.Rebuild.Retry.{reset_values}
use dovecot_ceph_plugin.Rebuild.Retry.Reassign.{IsReassigned, operate-IsReassigned}

abbrev pub calls : IndexCalls memory
calls = record {
  Box = Text;
  Context = Text;
  mailbox_guid = λ b. b;
  is_creating = λ b. false;
  get_header_ext = λ b s. [];
  set_ext_init_data = λ b h s. s;
  guid_128_generate = λ s. (codes "g", s);
  mailbox_uidvalidity_next = λ b s. (1, s);
  mailbox_set_deleted = λ b s. s;
  mail_storage_set_critical = λ b s. s;
  rebuild_init = λ b s. (b, s);
  rebuild_deinit = λ c s. s;
  transaction_commit = λ c s. (pos 0, s);
  transaction_rollback = λ c s. s;
  view_close = λ c s. s;
  header_next_uid = λ c s. 5;
  header_uid_validity = λ c s. 1;
  update_uid_validity = λ c v s. s;
  mail_index_append = λ c u s. (1, s);
  rebuild_index_metadata = λ c q u s. s;
  update_ext = λ c q g o s. s;
  add_alt_flag = λ c q s. s;
  guid_128_from_string = λ t. some t;
  guid_128_from_uuid_string = λ t. some t;
}

abbrev attributes : Map Text
attributes =
    (codes "G", codes "g1")
    ∷ (codes "M", codes "m1")
    ∷ (codes "R", codes "1511")
    ∷ (codes "U", codes "7")
    ∷ (codes "V", codes "20")
    ∷ (codes "Z", codes "19")
    ∷ []

abbrev stored : Object
stored = record { content = codes "hello"; xattrs = attributes; omap = []; changed_at = pos 0 }

abbrev one_object : Objects
one_object = store (codes "inbox") (codes "o1") (some stored) no_objects

abbrev names : TextSet
names = codes "o1" ∷ codes "o2" ∷ []

load_rados_mail_metadata_lem_example :
    (r : RadosMails) × (s' : Objects) × (load_rados_mail_metadata memory
        (plain memory (codes "inbox"))
        names
        one_object
      ≡ some (r, s'))
    × ((g : Text)
        → listed memory (plain memory (codes "inbox")) (lookup g r)
          ≡ keep
              (is_in memory (plain memory (codes "inbox")) g)
              (valid_mails memory (plain memory (codes "inbox")) names one_object))
load_rados_mail_metadata_lem_example =
    load_rados_mail_metadata_lem memory (plain memory (codes "inbox"))
      (λ mail s.
        let (ret, mail', s') = load_metadata memory (codes "inbox") mail s in
        (ret, mail', s', refl))
      names one_object

abbrev mail : MailObject
mail = record {
  oid = codes "o1";
  metadata = attributes;
  extended_metadata = [];
  has_completion = false;
  active_op = pos 0;
  index_ref = false;
  restored = false;
  lost_object = false;
}

abbrev found : RadosMails
found = (codes "m1", mail ∷ []) ∷ []

rebuild_entry_again_example :
    rebuild_entry memory calls
      (plain memory (codes "inbox"))
      (codes "m1")
      (codes "c2")
      false
      ((codes "m1", record mail { restored = true; index_ref = true } ∷ []) ∷ [])
      6
      no_objects
    ≡ some (
      pos 0,
      (codes "m1", record mail { restored = true; index_ref = true } ∷ []) ∷ [],
      first_uid memory calls (plain memory (codes "inbox")) (codes "c2") 6 no_objects,
      no_objects,
    )
unfolding first_uid rebuild_entry finish_entry add_objects add_object get_key_metadata get_metadata
    buffer_start key_to_char stoi add_record before lookup insert
rebuild_entry_again_example =
    rebuild_entry_again memory calls (plain memory (codes "inbox")) (codes "m1") (codes "c1")
      (codes "c2") false false found _ 2147483647 6 _ one_object _ no_objects (pos 0) (omega arith)
      refl refl

read_attributes :
    (c oid : Text) (s : Objects)
    → is_neg (memory.getxattrs c oid s).0 ≡ false
    → (memory.getxattrs c oid s).1 ≡ (or_new (s c oid)).xattrs
read_attributes c oid s h = ground arith

abbrev memory_attributes : AttributeLaws memory memory_objects
memory_attributes = record { getxattrs_ok = λ c oid s h. read_attributes c oid s h }

operate-IsReassigned_example : IsReassigned (codes "m2") (
    metadata_of
      (load_metadata memory
        (codes "inbox")
        (some (new_mail_object (codes "o1")))
        (memory.operate
          (codes "inbox")
          (codes "o1")
          (xattr_steps memory (reset_values (codes "m2")))
          one_object).1).1)
unfolding validate_metadata is_numeric get_key_metadata get_metadata buffer_start lookup key_to_char
    is_numeric_optional apply_steps reset_values
operate-IsReassigned_example =
    operate-IsReassigned memory memory_objects memory_attributes (codes "inbox") (codes "m2")
      (codes "o1") one_object refl refl refl
