-- ===== src/SaveLog/Tests.antt =====
-- Runs and witnesses for the save log and the metadata's text form.
use dovecot_ceph_plugin.Prelude.{◌≡◌, refl, ◌++◌, true, false, some, List, [], ◌∷◌, Text, codes}
use dovecot_ceph_plugin.Types.{MetadataKey, mail_uid, mailbox_guid, orig_mailbox, key_to_char}
use dovecot_ceph_plugin.Metadata.{convert, empty_metadata, from_string, to_string}
use dovecot_ceph_plugin.Metadata.Format.{from_string-to_string}
use dovecot_ceph_plugin.SaveLog.{RadosSaveLogEntry, entry, parse_mv_op, op_mv, print, read}
use dovecot_ceph_plugin.SaveLog.RoundTrip.{read-print}
use dovecot_ceph_plugin.SaveLog.Moves.{parse_mv_op-op_mv, stored, reread}
use dovecot_ceph_plugin.SaveLog.File.{
  open_log, append_all, close_log, lines, session_lem, RadosSaveLog,
}

from_string-to_string_example :
    from_string (to_string (convert mail_uid (codes "12"))) (some empty_metadata)
    ≡ some (record { bl = codes "12"; key = key_to_char mail_uid })
from_string-to_string_example = from_string-to_string mail_uid (codes "12") refl refl

abbrev saved : RadosSaveLogEntry
saved = entry (codes "oid1") (codes "ns1") (codes "mail_storage") (codes "save")

read-print_example :
    read
      (record { rest = print saved ++ codes "next"; eof = false; fail = false })
      (entry [] [] [] [])
    ≡ (record { rest = codes "next"; eof = false; fail = false }, (parse_mv_op saved).1)
read-print_example = read-print saved (codes "next") (record {
  op = (refl, refl);
  pool = (refl, refl);
  ns = (refl, refl);
  oid = (refl, refl);
  named = refl;
})

abbrev moved : List (MetadataKey × Text)
moved = (mailbox_guid, codes "ABC") ∷ (orig_mailbox, codes "INBOX") ∷ (mail_uid, codes "1") ∷ []

abbrev moved_entry : RadosSaveLogEntry
moved_entry =
    entry (codes "oid2") (codes "ns2") (codes "mail_storage")
      (op_mv (codes "ns1") (codes "oid1") (codes "user1") (stored moved))

parse_mv_op-op_mv_example : parse_mv_op moved_entry ≡ (
  true,
  record moved_entry {
    src_ns = codes "ns1";
    src_oid = codes "oid1";
    src_user = codes "user1";
    metadata = reread moved;
  },
)
parse_mv_op-op_mv_example =
    parse_mv_op-op_mv moved_entry (codes "ns1") (codes "oid1") (codes "user1") moved
      (record {
        ns_lem = (refl, refl);
        oid_lem = (refl, refl);
        user_lem = (refl, refl);
        user_given = refl;
        items = ((refl, refl, refl), ((refl, refl, refl), ((refl, refl, refl), tt)));
      })
      refl refl

abbrev closed_log : RadosSaveLog
closed_log = record {
  logfile = codes "/tmp/log";
  log_active = true;
  ofs_open = false;
  contents = codes "";
}

session_lem_example :
    (close_log (append_all (saved ∷ moved_entry ∷ []) (open_log true closed_log).1)).1
    ≡ record closed_log { log_active = true; contents = lines (saved ∷ moved_entry ∷ []) }
session_lem_example = session_lem true (saved ∷ moved_entry ∷ []) closed_log refl refl
