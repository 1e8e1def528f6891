-- ===== src/Mailbox/Tests.antt =====
-- The index of a mailbox that is updated, and a mailbox that is deleted.
use dovecot_ceph_plugin.Prelude.{
  ◌≡◌, refl, ℤ, pos, true, false, none, some, str_eq, arith, [], ◌∷◌, codes, if◌then◌else◌,
}
use dovecot_ceph_plugin.Librados.Memory.{memory, memory_objects, no_objects, Objects}
use dovecot_ceph_plugin.Config.{JsonConfig}
use dovecot_ceph_plugin.Storage.{Storage}
use dovecot_ceph_plugin.Mailbox.Delete.{DeleteCalls, Space, check_space}
use dovecot_ceph_plugin.Mailbox.Delete.Empty.{mails, check_space-keeps}
use dovecot_ceph_plugin.Attributes.Plain.{plain}
use dovecot_ceph_plugin.Rebuild.Tests.{calls}
use dovecot_ceph_plugin.Mailbox.Indexes.{MailHeader, MailboxUpdate, CreateCalls, header_writes}
use dovecot_ceph_plugin.Mailbox.Indexes.Written.{apply_writes, header_writes-raised_header}

abbrev header : MailHeader
header = record { uid_validity = 7; next_uid = 5; first_recent_uid = 2; highest_modseq = 9 }

abbrev creates : CreateCalls memory
creates = record {
  get_header = λ s. header;
  inbox_user = false;
  transaction_begin = λ s. s;
  transaction_commit = λ ws s. (pos 0, s);
  set_index_error = λ s. s;
}

-- The next uid is to be 20, the first recent one 1, which would lower it.
abbrev update : MailboxUpdate
update = record {
  mailbox_guid = codes "g";
  uid_validity = 0;
  min_next_uid = 20;
  min_first_recent_uid = 1;
  min_highest_modseq = 0;
}

header_writes-raised_header_example :
    apply_writes
      (header_writes memory calls
        (plain memory (codes "mail"))
        creates
        (codes "box")
        (some update)
        no_objects).0
      header
    ≡ record { uid_validity = 7; next_uid = 20; first_recent_uid = 2; highest_modseq = 9 }
header_writes-raised_header_example =
    header_writes-raised_header memory calls (plain memory (codes "mail")) creates (codes "box")
      (some update) no_objects

-- The user has two mailboxes, and the status of the second one cannot be found out.
abbrev deletes : DeleteCalls memory
deletes = record {
  get_status = λ vname s. ((if str_eq vname (codes "INBOX") then some 0 else none), s);
  lookup_key = λ user s. (some user, s);
  index_mailbox_delete = λ s. (pos 0, s);
  read_configuration = λ s. s;
  open_rados_connection = λ alt_storage p s. (pos 0, p, s);
  namespaces = [];
  object_search_method = codes "0";
  check_empty_mailboxes = true;
  name = codes "Archive";
}

abbrev space : Space
space = record {
  owner = some (codes "u1");
  boxes =
      record { vname = codes "INBOX"; exists = true }
      ∷ record { vname = codes "Sent"; exists = true }
      ∷ [];
  iterated = true;
}

abbrev settings : JsonConfig
settings = record {
  valid = true;
  user_mapping = codes "true";
  user_ns = codes "users";
  user_suffix = codes "_u";
  public_namespace = codes "public";
  mail_attributes = codes "MGB";
  update_attributes = codes "true";
  updateable_attributes = codes "B";
  metadata_storage_module = codes "default";
  metadata_storage_attribute = codes "ima";
}

abbrev pool : Storage memory
pool = record {
  is_connected = true;
  io_ctx_created = true;
  io_ctx = codes "u1";
  recovery_io_ctx = codes "index";
  nspace = codes "u1";
  pool_name = codes "mail";
  max_write_size = pos 90;
  max_object_size = pos 134217728;
}

check_space-keeps_example :
    (ret1 : ℤ) × (s1 : Objects) × (check_space memory deletes settings space (pos 0) pool no_objects
      ≡ some (ret1, pool, s1))
    × (s1 ≡ no_objects)
unfolding mails
check_space-keeps_example =
    check_space-keeps memory deletes memory_objects settings (λ vname s. refl) space (pos 0) pool
      no_objects (omega arith) (omega arith)
