-- ===== src/Rmb/Tests.antt =====
-- Undoing a log on the store in memory.
use dovecot_ceph_plugin.Prelude.{
  ◌+◌, pos, ◌≡◌, refl, true, false, List, [], ◌∷◌, codes, suc, length,
}
use dovecot_ceph_plugin.Librados.Memory.{memory, no_objects}
use dovecot_ceph_plugin.SaveLog.{RadosSaveLogEntry, entry}
use dovecot_ceph_plugin.SaveLog.File.{lines}
use dovecot_ceph_plugin.Storage.Connect.{ClusterCalls, new_storage}
use dovecot_ceph_plugin.Rmb.Undo.{Undo, undo_lines}
use dovecot_ceph_plugin.Rmb.Undo.Lines.{undo_all, undo_lines-lines}
use dovecot_ceph_plugin.Rmb.Undo.Count.{Counts, undo_all-Counts}

abbrev cluster : ClusterCalls memory
cluster = record {
  is_connected = λ s. true;
  init = λ s. (pos 0, s);
  init_named = λ c u s. (pos 0, s);
  io_ctx_create = λ p s. (pos 0, codes "", s);
  recovery_index_io_ctx = λ p s. (pos 0, codes "", s);
  get_config_option = λ o s. (pos 0, codes "90", s);
  deinit = λ s. s;
  no_io_ctx = codes "";
}

abbrev undo : Undo memory
undo = record { storage = new_storage memory cluster no_objects; moved_items = []; count = 0 }

abbrev saved : RadosSaveLogEntry
saved = entry (codes "m1") (codes "inbox") (codes "mail_storage") (codes "save")

abbrev logged : List RadosSaveLogEntry
logged = saved ∷ entry (codes "m2") (codes "inbox") (codes "mail_storage") (codes "cpy") ∷ []

undo_lines-lines_example :
    undo_lines memory cluster
      (codes "ceph")
      (codes "client.admin")
      (pos 7)
      (suc (length logged))
      (record { rest = lines logged; eof = false; fail = false })
      undo
      no_objects
    ≡ undo_all memory cluster (codes "ceph") (codes "client.admin") (pos 7) logged undo no_objects
undo_lines-lines_example =
    undo_lines-lines memory cluster (codes "ceph") (codes "client.admin") (pos 7) logged undo
      no_objects
      (
        record {
          op = (refl, refl);
          pool = (refl, refl);
          ns = (refl, refl);
          oid = (refl, refl);
          named = refl;
        },
        (
          record {
            op = (refl, refl);
            pool = (refl, refl);
            ns = (refl, refl);
            oid = (refl, refl);
            named = refl;
          },
          tt,
        ),
      )

undo_all-Counts_example :
    Counts memory cluster
      (codes "ceph")
      (codes "client.admin")
      (pos 7)
      undo.count
      (undo.count + length logged)
      (undo_all memory cluster (codes "ceph") (codes "client.admin") (pos 7) logged undo no_objects)
undo_all-Counts_example =
    undo_all-Counts memory cluster (codes "ceph") (codes "client.admin") (pos 7) logged undo
      no_objects
