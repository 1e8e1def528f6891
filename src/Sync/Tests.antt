-- ===== src/Sync/Tests.antt =====
-- Runs of the synchronisation on the store in memory.
pub mod Changes
use dovecot_ceph_plugin.Prelude.{
  ℕ, suc, ◌+◌, ◌≤◌, ◌≡◌, refl, ◌==◌, ◌||◌, ℤ, pos, minus_one, negsuc, true, false, Option, some,
  none, [], ◌∷◌, Text, codes, arith, All, if◌then◌else◌, Bool,
}
use dovecot_ceph_plugin.Types.{oldv1_flags, key_to_char}
use dovecot_ceph_plugin.Librados.{Librados}
use dovecot_ceph_plugin.Librados.Reading.{memory_removes}
use dovecot_ceph_plugin.Librados.Objects.{Object, new_object}
use dovecot_ceph_plugin.Librados.Memory.{memory, memory_objects, no_objects, Objects, store}
use dovecot_ceph_plugin.Storage.{Storage}
use dovecot_ceph_plugin.Mailbox.{Pools, is_alternate_storage_set, is_alternate_pool_valid}
use dovecot_ceph_plugin.Sync.{
  SyncCalls, SyncRec, ExpungedItem, ViewHeader, flags, expunge, is_in_alt, sync_expunge,
}
use dovecot_ceph_plugin.Sync.Expunge.{
  ViewLaws, is_some, item_at, items_from, sync_expunge-items_from,
}
use dovecot_ceph_plugin.Sync.Finish.{
  FinishCalls, timed_out, remove_object, object_io_ctx, object_expunge, sync_finish,
}
use dovecot_ceph_plugin.Sync.Finish.Retries.{Counting, object_expunge-removals}
use dovecot_ceph_plugin.Sync.Finish.Kept.{KeepLaws, sync_finish_failed}
use dovecot_ceph_plugin.Sync.Finish.Gone.{IsGone, all_removed, sync_finish-IsGone}

abbrev pub pool : Text → Storage memory
pool name = record {
  is_connected = true;
  io_ctx_created = true;
  io_ctx = name;
  recovery_io_ctx = codes "index";
  nspace = codes "u1";
  pool_name = name;
  max_write_size = pos 90;
  max_object_size = pos 134217728;
}

abbrev pub pools : Pools memory
pools = record { s = pool (codes "mail"); alt = pool (codes "alt"); metadata_io_ctx = codes "mail" }

-- The transaction keeps what is expunged in the store. Every third mail has no record.
abbrev pub expunged_in : ℕ → Objects → Bool
expunged_in seq s = is_some (s (codes "expunged") (seq ∷ []))

abbrev pub index : SyncCalls memory
index = record {
  rbox_index_flag_alt = 64;
  alt_dir = some (codes "alt");
  lookup_uid = λ seq s. seq;
  lookup_flags = λ seq s. if seq == 3 then none else some (if seq == 2 then 64 else 0);
  lookup_ext = λ seq s. some (seq ∷ []);
  is_expunged = expunged_in;
  mail_index_expunge = λ seq s. store (codes "expunged") (seq ∷ []) (some new_object) s;
  add_alt_flag = λ seq s. s;
  remove_alt_flag = λ seq s. s;
  get_keywords = λ s. none;
  get_header = λ s. some (record { uid_validity = 7; next_uid = 5; first_recent_uid = 1 });
  lookup_seq_range = λ uid1 uid2 s. some (uid1, uid2);
  recent_flags_set_seqs = λ seq1 seq2 s. s;
  guid_128_to_string = λ oid. oid;
  open_rados_connection = λ alt_storage p s. (pos 0, p, s);
  mailbox_create_indexes = λ s. (pos 0, s);
  set_mailbox_corrupted = λ s. s;
  set_critical = λ s. s;
}

expunged_after :
    (i j : ℕ) (s : Objects)
    → expunged_in j (store (codes "expunged") (i ∷ []) (some new_object) s)
      ≡ (i == j) || expunged_in j s
expunged_after i j s = ground arith

abbrev index_views : ViewLaws memory index
index_views = record {
  flags_keep = λ i j s. refl;
  ext_keep = λ i j s. refl;
  uid_keep = λ i j s. refl;
  expunged = λ i j s. expunged_after i j s;
}

sync_expunge-items_from_example :
    ((sync_expunge memory index 1 3 [] no_objects).0
      ≡ record { uid = 1; oid = 1 ∷ []; alt_storage = false }
        ∷ record { uid = 2; oid = 2 ∷ []; alt_storage = true }
        ∷ [])
    × (expunged_in 2 (sync_expunge memory index 1 3 [] no_objects).1 ≡ true)
unfolding items_from item_at is_in_alt is_alternate_storage_set is_alternate_pool_valid
sync_expunge-items_from_example =
    sync_expunge-items_from memory index index_views 1 3 2 [] no_objects

abbrev pub dovecot : FinishCalls memory
dovecot = record {
  index_sync_commit = λ s. (pos 0, s);
  index_sync_rollback = λ s. s;
  mailbox_set_index_error = λ s. s;
  view_ref = λ s. s;
  view_close = λ s. s;
  expunging_deinit = λ s. s;
  notify = λ uid s. s;
  notify_end = λ s. s;
}

-- A commit that fails.
abbrev full_disk : FinishCalls memory
full_disk = record dovecot { index_sync_commit = λ s. (minus_one, s) }

abbrev dovecot_keeps : KeepLaws memory memory_objects index dovecot
dovecot_keeps = record {
  open_keeps = λ b p s. refl;
  commit_keeps = λ s. refl;
  rollback_keeps = λ s. refl;
  error_keeps = λ s. refl;
  ref_keeps = λ s. refl;
  close_keeps = λ s. refl;
  deinit_keeps = λ s. refl;
  notify_keeps = λ uid s. refl;
  end_keeps = λ s. refl;
}

abbrev full_disk_keeps : KeepLaws memory memory_objects index full_disk
full_disk_keeps = record {
  open_keeps = λ b p s. refl;
  commit_keeps = λ s. refl;
  rollback_keeps = λ s. refl;
  error_keeps = λ s. refl;
  ref_keeps = λ s. refl;
  close_keeps = λ s. refl;
  deinit_keeps = λ s. refl;
  notify_keeps = λ uid s. refl;
  end_keeps = λ s. refl;
}

abbrev item : ExpungedItem
item = record { uid = 4; oid = codes "m4"; alt_storage = true }

abbrev one_object : Objects
one_object = store (codes "alt") (codes "m4") (some new_object) no_objects

sync_finish_failed_example :
    ((sync_finish memory index full_disk true (item ∷ []) pools one_object).2 ≡ one_object)
    × ((sync_finish memory index full_disk true (item ∷ []) pools one_object).0 ≡ minus_one)
sync_finish_failed_example =
    sync_finish_failed memory memory_objects index full_disk full_disk_keeps true (item ∷ []) pools
      one_object refl

sync_finish-IsGone_example :
    All
      (IsGone memory memory_objects index dovecot dovecot_keeps pools
        (λ b t. refl)
        memory_removes
        (sync_finish memory index dovecot true (item ∷ []) pools one_object).2)
      (item ∷ [])
    × ((sync_finish memory index dovecot true (item ∷ []) pools one_object).0 ≡ pos 0)
unfolding all_removed object_expunge remove_object object_io_ctx
sync_finish-IsGone_example =
    sync_finish-IsGone memory memory_objects index dovecot dovecot_keeps pools (λ b t. refl)
      memory_removes (item ∷ []) one_object refl refl

-- A cluster whose removals all time out; its state counts them.
abbrev slow : Librados
slow = record {
  State = ℕ;
  IoCtx = Text;
  set_namespace = λ ns c. ns;
  operate = λ c oid sts n. (timed_out, n);
  aio_operate = λ c oid sts n. (timed_out, timed_out, n);
  append_data = λ c oid bl len n. (timed_out, n);
  write_full = λ c oid bl n. (timed_out, n);
  read = λ c oid n. (timed_out, [], n);
  stat = λ c oid n. (timed_out, 0, pos 0, n);
  remove = λ c oid n. (timed_out, suc n);
  getxattrs = λ c oid n. (timed_out, [], n);
  setxattr_now = λ c oid k v n. (timed_out, n);
  omap_get_vals_by_keys = λ c oid ks n. (timed_out, [], n);
  omap_get_keys = λ c oid n. (timed_out, [], n);
  omap_set_now = λ c oid m n. (timed_out, n);
  omap_rm_keys = λ c oid ks n. (timed_out, n);
  substr_of = λ bl off len. none;
  exec = λ c oid cls method bl n. (timed_out, n);
}

abbrev slow_pools : Pools slow
slow_pools = record {
  s = record {
    is_connected = true;
    io_ctx_created = true;
    io_ctx = codes "mail";
    recovery_io_ctx = codes "index";
    nspace = codes "u1";
    pool_name = codes "mail";
    max_write_size = pos 90;
    max_object_size = pos 134217728;
  };
  alt = record {
    is_connected = true;
    io_ctx_created = true;
    io_ctx = codes "alt";
    recovery_io_ctx = codes "index";
    nspace = codes "u1";
    pool_name = codes "alt";
    max_write_size = pos 90;
    max_object_size = pos 134217728;
  };
  metadata_io_ctx = codes "mail";
}

abbrev slow_index : SyncCalls slow
slow_index = record {
  rbox_index_flag_alt = 64;
  alt_dir = some (codes "alt");
  lookup_uid = λ seq n. seq;
  lookup_flags = λ seq n. some 0;
  lookup_ext = λ seq n. some (seq ∷ []);
  is_expunged = λ seq n. false;
  mail_index_expunge = λ seq n. n;
  add_alt_flag = λ seq n. n;
  remove_alt_flag = λ seq n. n;
  get_keywords = λ n. none;
  get_header = λ n. none;
  lookup_seq_range = λ uid1 uid2 n. none;
  recent_flags_set_seqs = λ seq1 seq2 n. n;
  guid_128_to_string = λ oid. oid;
  open_rados_connection = λ alt_storage p n. (pos 0, p, n);
  mailbox_create_indexes = λ n. (pos 0, n);
  set_mailbox_corrupted = λ n. n;
  set_critical = λ n. n;
}

abbrev slow_dovecot : FinishCalls slow
slow_dovecot = record {
  index_sync_commit = λ n. (pos 0, n);
  index_sync_rollback = λ n. n;
  mailbox_set_index_error = λ n. n;
  view_ref = λ n. n;
  view_close = λ n. n;
  expunging_deinit = λ n. n;
  notify = λ uid n. n;
  notify_end = λ n. n;
}

abbrev counting : Counting slow slow_index slow_dovecot
counting = record {
  removals = λ n. n;
  remove_counts = λ c oid n. refl;
  open_counts = λ b p n. refl;
  notify_counts = λ uid n. refl;
}

object_expunge-removals_example :
    (5 + 1 ≤ (object_expunge slow slow_index slow_dovecot item slow_pools 5).2)
    × ((object_expunge slow slow_index slow_dovecot item slow_pools 5).2 ≤ 5 + 11)
object_expunge-removals_example =
    object_expunge-removals slow slow_index slow_dovecot counting item slow_pools 5
