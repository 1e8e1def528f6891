-- ===== src/Save/Rollback.antt =====
-- The end of a transaction that saves mails: what is cleaned up.
pub mod Deleted
use dovecot_ceph_plugin.Prelude.{
  ℕ, ◌+◌, ◌-◌, ◌%◌, ◌^◌, ℤ, pos, minus_one, is_neg, Bool, true, false, not, ◌&&◌, ◌||◌, Option,
  none, some, List, [], ◌∷◌, ltb, if◌then◌else◌,
}
use dovecot_ceph_plugin.Librados.{Librados}
use dovecot_ceph_plugin.Attributes.{MailObject, MetadataModule}
use dovecot_ceph_plugin.Config.{JsonConfig}
use dovecot_ceph_plugin.SaveLog.File.{RadosSaveLog}
use dovecot_ceph_plugin.Storage.{Storage, Mail, delete_mail}
use dovecot_ceph_plugin.Save.Entries.{SaveData}
use dovecot_ceph_plugin.Save.Finish.{StreamCalls, SaveContext, SaveSettings, save_cancel}

-- Dovecot's transactions, and the synchronisation of the index.
pub record TransactionCalls (L : Librados) : Type 0 where
  pub mail_index_expunge : ℕ → L.State → L.State
  pub mail_cache_transaction_reset : L.State → L.State
  pub mail_free : L.State → L.State
  pub sync_begin : L.State → ℤ × L.State
  pub sync_finish : Bool → L.State → ℤ × L.State
  pub set_commit_result : L.State → L.State

module _ (L : Librados) (T : TransactionCalls L) where
  -- Every object of the transaction is deleted; an error is only reported.
  unfoldable pub delete_mails : List Mail → Storage L → L.State → L.State
  delete_mails [] st s = s
  delete_mails (mail ∷ mails) st s = delete_mails mails st (delete_mail L (some mail) st s).1

  pub clean_up_mail_object_list : SaveContext → SaveContext
  clean_up_mail_object_list ctx = record ctx { rados_mails = [] }

  pub clean_up_failed : Storage L → SaveContext → L.State → SaveContext × L.State
  clean_up_failed st ctx s =
      let s1 = delete_mails ctx.rados_mails st s in
      let s2 = if ltb 0 ctx.seq then T.mail_index_expunge ctx.seq s1 else s1 in
      let s3 = if ctx.has_transaction then T.mail_cache_transaction_reset s2 else s2 in
      (
        record (clean_up_mail_object_list ctx) {
          mail_count = (ctx.mail_count + (2 ^ 32 - 1)) % 2 ^ 32;
        },
        s3,
      )

  -- The context is freed afterwards.
  end_rollback : Storage L → SaveContext → L.State → L.State
  end_rollback st ctx s =
      let s1 = if ctx.has_sync_ctx then (T.sync_finish false s).1 else s in
      let s2 = if ctx.dest_mail && ctx.dest_mail_allocated then T.mail_free s1 else s1 in
      if ctx.failed && (not ctx.copying || not ctx.moving)
      then (clean_up_failed st ctx s2).1
      else s2

  module _ (M : MetadataModule L) (F : StreamCalls L) (cfg : JsonConfig)
      (settings : SaveSettings) where
    -- `rbox_transaction_save_rollback`; a save that has not ended is cancelled.
    pub save_rollback :
        SaveData
        → ℤ
        → Mail
        → Storage L
        → SaveContext
        → RadosSaveLog
        → L.State
        → Option (RadosSaveLog × L.State)
    save_rollback d save_date mail st ctx log s =
        if ctx.finished
        then some (log, end_rollback st ctx s)
        else elim (save_cancel L M F cfg settings d save_date mail st ctx log s) [
          | none ↦ none
          | some (ctx1, log1, s1) ↦ some (log1, end_rollback st ctx1 (F.free_streams s1))
        ]

    -- `rbox_transaction_save_commit_post`; the context that was committed is cleaned up like one that is
    -- rolled back.
    pub save_commit_post :
        SaveData
        → ℤ
        → Mail
        → Storage L
        → SaveContext
        → RadosSaveLog
        → L.State
        → Option (RadosSaveLog × L.State)
    save_commit_post d save_date mail st ctx log s =
        let (ret, s1) = T.sync_finish true (T.set_commit_result s) in
        save_rollback d save_date mail st
          (record ctx {
            has_transaction = false;
            has_sync_ctx = false;
            failed = if is_neg ret then true else ctx.failed;
          })
          log s1
