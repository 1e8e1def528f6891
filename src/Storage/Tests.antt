-- ===== src/Storage/Tests.antt =====
-- Runs of the storage on the store in memory.
use mathlib.Core.Bool.{true≢false}
use dovecot_ceph_plugin.Prelude.{
  pos, List, add, ◌≡◌, ◌≢◌, refl, sym, ◌⊎◌, some, [], ◌∷◌, codes, true, false, is_zero, str_eq_iff,
}
use dovecot_ceph_plugin.Metadata.{RadosMetadata}
use dovecot_ceph_plugin.Librados.Objects.{Object}
use dovecot_ceph_plugin.Librados.Memory.{memory, memory_objects, Objects, no_objects, store}
use dovecot_ceph_plugin.Storage.{Storage}
use dovecot_ceph_plugin.Storage.Transfer.{move, copy}
use dovecot_ceph_plugin.Prelude.{Text, TextSet, arith}
use dovecot_ceph_plugin.Librados.Reading.{memory_reads}
use dovecot_ceph_plugin.Util.{convert_set_to_ceph_index}
use dovecot_ceph_plugin.Storage.Recovery.{ceph_index_read, ceph_index_overwrite}
use dovecot_ceph_plugin.Storage.Index.{ceph_index_read-ceph_index_overwrite}
use dovecot_ceph_plugin.Storage.Search.{insert_next, runs, joined, ended, insert_in_order}
use dovecot_ceph_plugin.Storage.Search.Schedules.{Runs-insert_in_order}
use dovecot_ceph_plugin.Storage.Move.{Moved, move-Moved, copy_lem, copy_of}

abbrev pool : Storage memory
pool = record {
  is_connected = true;
  io_ctx_created = true;
  io_ctx = codes "inbox";
  recovery_io_ctx = codes "index";
  nspace = codes "inbox";
  pool_name = codes "mail_storage";
  max_write_size = pos 90;
  max_object_size = pos 134217728;
}

abbrev stored : Object
stored = record { content = codes "hello"; xattrs = []; omap = []; changed_at = pos 0 }

abbrev one_object : Objects
one_object = store (codes "inbox") (codes "m1") (some stored) no_objects

abbrev new_uid : RadosMetadata
new_uid = record { key = codes "U"; bl = codes "7" }

namespaces_differ : codes "inbox" ≢ codes "archive"
namespaces_differ e = true≢false (sym ((str_eq_iff (codes "inbox") (codes "archive")).1 e))

move-Moved_example :
    Moved memory memory_objects pool
      (codes "m1")
      (codes "inbox")
      (codes "m2")
      (codes "archive")
      (new_uid ∷ [])
      (pos 9)
      refl
      refl
      namespaces_differ
      stored
      (move memory
        (codes "m1")
        (codes "inbox")
        (codes "m2")
        (codes "archive")
        (new_uid ∷ [])
        true
        (pos 9)
        pool
        one_object)
move-Moved_example =
    move-Moved memory memory_objects pool (codes "m1") (codes "inbox") (codes "m2")
      (codes "archive") (new_uid ∷ []) (pos 9) refl refl namespaces_differ one_object stored refl

copy_lem_example :
    ((is_zero
          (copy memory
            (codes "m1")
            (codes "inbox")
            (codes "m2")
            (codes "archive")
            (new_uid ∷ [])
            (pos 9)
            pool
            one_object).0
        ≡ false)
      ⊎ ((copy memory
              (codes "m1")
              (codes "inbox")
              (codes "m2")
              (codes "archive")
              (new_uid ∷ [])
              (pos 9)
              pool
              one_object).2
            (codes "archive")
            (codes "m2")
          ≡ some (copy_of (new_uid ∷ []) (pos 9) stored)))
    × ((copy memory
            (codes "m1")
            (codes "inbox")
            (codes "m2")
            (codes "archive")
            (new_uid ∷ [])
            (pos 9)
            pool
            one_object).2
          (codes "inbox")
          (codes "m1")
        ≡ some stored)
copy_lem_example =
    copy_lem memory memory_objects pool (codes "m1") (codes "inbox") (codes "m2") (codes "archive")
      (new_uid ∷ []) (pos 9) refl refl namespaces_differ one_object stored refl

abbrev mails : TextSet
mails = codes "a1" ∷ codes "b2" ∷ []

ceph_index_read-ceph_index_overwrite_example :
    (ceph_index_read memory (0 ∷ []) pool (ceph_index_overwrite memory mails pool no_objects).1).0
    ≡ mails
unfolding ceph_index_overwrite convert_set_to_ceph_index
ceph_index_read-ceph_index_overwrite_example =
    ceph_index_read-ceph_index_overwrite memory memory_objects memory_reads pool mails (0 ∷ [])
      no_objects refl ((refl, refl), ((refl, refl), tt)) (refl, tt) refl (omega arith) (omega arith)
      refl refl refl

-- Two threads, the second of which is first.
abbrev listings : List (List Text)
listings = (codes "b" ∷ []) ∷ (codes "a" ∷ []) ∷ []

Runs-insert_in_order_example : (codes "a" ∷ codes "b" ∷ []) ≡ insert_in_order listings []
unfolding add
Runs-insert_in_order_example = Runs-insert_in_order listings [] (codes "a" ∷ codes "b" ∷ []) (
    runs _ _ [] (codes "a" ∷ []) _ (insert_next ((codes "b" ∷ []) ∷ []) [] (codes "a") [] []) (
      runs _ _ _ (codes "a" ∷ codes "b" ∷ []) _
        (insert_next [] ([] ∷ []) (codes "b") [] (codes "a" ∷ []))
        (joined [] ([] ∷ []) _ _ (joined [] [] _ _ (ended _)))))
