-- ===== src/Sync/Finish.antt =====
-- Ending the synchronisation: the index is committed, then the expunged mails' objects are removed.
pub mod Retries
pub mod Kept
pub mod Gone
use dovecot_ceph_plugin.Prelude.{
  ℕ, zero, suc, ℤ, pos, negsuc, minus_one, is_neg, int_eq, Bool, true, false, List, [], ◌∷◌, Text,
  if◌then◌else◌,
}
use dovecot_ceph_plugin.Librados.{Librados}
use dovecot_ceph_plugin.Mailbox.{Pools}
use dovecot_ceph_plugin.Sync.{SyncCalls, ExpungedItem}

-- The transaction of the index. `notify` is the notification of one uid, `notify_end` the last one;
-- they do nothing where Dovecot has none.
pub record FinishCalls (L : Librados) : Type 0 where
  pub index_sync_commit : L.State → ℤ × L.State
  pub index_sync_rollback : L.State → L.State
  pub mailbox_set_index_error : L.State → L.State
  pub view_ref : L.State → L.State
  pub view_close : L.State → L.State
  pub expunging_deinit : L.State → L.State
  pub notify : ℕ → L.State → L.State
  pub notify_end : L.State → L.State

-- `-ETIMEDOUT`.
abbrev pub timed_out : ℤ
timed_out = negsuc 109

module _ (L : Librados) where
  -- The loop of retries, with `n` to go.
  unfoldable pub retry_remove : ℕ → L.IoCtx → Text → ℤ → L.State → ℤ × L.State
  retry_remove zero c oid ret_remove s = (ret_remove, s)
  retry_remove (suc n) c oid ret_remove s =
      let (ret, s1) = L.remove c oid s in
      elim (is_neg ret) [ true ↦ retry_remove n c oid ret s1 | false ↦ (ret, s1) ]

  unfoldable pub remove_object : L.IoCtx → Text → L.State → ℤ × L.State
  remove_object c oid s =
      let (ret, s1) = L.remove c oid s in
      if int_eq ret timed_out then retry_remove 10 c oid ret s1 else (ret, s1)

  unfoldable pub object_io_ctx : ExpungedItem → Pools L → L.IoCtx
  object_io_ctx item p = if item.alt_storage then p.alt.io_ctx else p.s.io_ctx

module _ (L : Librados) (K : SyncCalls L) (F : FinishCalls L) where
  unfoldable pub object_expunge : ExpungedItem → Pools L → L.State → ℤ × Pools L × L.State
  object_expunge item p s =
      let (opened, p1, s1) = K.open_rados_connection item.alt_storage p s in
      if is_neg opened
      then (opened, p1, s1)
      else let (ret, s2) =
          remove_object L (object_io_ctx L item p1) (K.guid_128_to_string item.oid) s1 in
        (ret, p1, F.notify item.uid s2)

  -- The result of each call is not looked at.
  unfoldable pub expunge_each : List ExpungedItem → Pools L → L.State → Pools L × L.State
  expunge_each [] p s = (p, s)
  expunge_each (item ∷ items) p s =
      let (ret, p1, s1) = object_expunge item p s in expunge_each items p1 s1

  unfoldable pub expunge_rbox_objects : List ExpungedItem → Pools L → L.State → Pools L × L.State
  expunge_rbox_objects items p s = let (p1, s1) = expunge_each items p s in (p1, F.notify_end s1)

  -- The context is freed afterwards.
  unfoldable pub sync_finish : Bool → List ExpungedItem → Pools L → L.State → ℤ × Pools L × L.State
  sync_finish false items p s = (minus_one, p, F.expunging_deinit (F.index_sync_rollback s))
  sync_finish true items p s =
      let (ret, s1) = F.index_sync_commit (F.view_ref s) in
      if is_neg ret
      then (minus_one, p, F.expunging_deinit (F.mailbox_set_index_error s1))
      else let (p1, s2) = expunge_rbox_objects items p s1 in
        (pos 0, p1, F.expunging_deinit (F.view_close s2))
