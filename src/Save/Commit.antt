-- ===== src/Save/Commit.antt =====
-- Committing the mails of a transaction: `rbox_transaction_save_commit_pre`.
use dovecot_ceph_plugin.Prelude.{
  ℕ, ◌+◌, ◌/◌, ◌%◌, ℤ, pos, minus_one, is_neg, Bool, true, false, not, ◌&&◌, Option, none, some,
  List, [], ◌∷◌, Text, length, drop, ltb, ◌==◌, if◌then◌else◌,
}
use dovecot_ceph_plugin.Librados.{Librados}
use dovecot_ceph_plugin.Attributes.{MailObject, MetadataModule}
use dovecot_ceph_plugin.Config.{JsonConfig}
use dovecot_ceph_plugin.SaveLog.File.{RadosSaveLog}
use dovecot_ceph_plugin.Storage.{Storage, Mail}
use dovecot_ceph_plugin.Save.Entries.{SaveData, assign_uids}
use dovecot_ceph_plugin.Save.Finish.{StreamCalls, SaveContext, SaveSettings, object_of}
use dovecot_ceph_plugin.Save.Rollback.{TransactionCalls, save_rollback}

-- What Dovecot does with the header of the index, and with the uids of new mails.
pub record CommitCalls (L : Librados) : Type 0 where
  -- `none` is the null pointer
  pub get_header_ext : L.State → Option Text
  pub ext_resize_hdr : ℕ → L.State → L.State
  pub update_header_ext : ℕ → ℕ → L.State → L.State
  pub has_header : L.State → Bool
  pub append_finish_uids : L.State → List ℕ × L.State
  pub mail_free : L.State → L.State

-- The flags with one bit set.
with_bit : Bool → ℕ → ℕ → ℕ
with_bit b bit flags = if b && flags / bit % 2 == 0 then flags + bit else flags

old_flags_of : Text → ℕ
old_flags_of [] = 0
old_flags_of (flags ∷ rest) = flags

module _ (L : Librados) (C : CommitCalls L) where
  -- `rbox_save_update_header_flags`, with the byte where the flags stand.
  pub update_header_flags : Bool → Bool → ℕ → L.State → L.State
  update_header_flags have_pop3_uidls have_pop3_orders flags_offset s = elim (C.get_header_ext s) [
    | none ↦ s
    | some hdr ↦
        (let short = not (ltb flags_offset (length hdr)) in
          let s1 = if short then C.ext_resize_hdr (flags_offset + 1) s else s in
          let old_flags = if short then 0 else old_flags_of (drop flags_offset hdr) in
          let flags = with_bit have_pop3_orders 2 (with_bit have_pop3_uidls 1 old_flags) in
          if flags == old_flags then s1 else C.update_header_ext flags_offset flags s1)
  ]

  module _ (T : TransactionCalls L) (M : MetadataModule L) (F : StreamCalls L) (cfg : JsonConfig)
      (settings : SaveSettings) where
    objects_of : List Mail → List MailObject
    objects_of [] = []
    objects_of (mail ∷ mails) = object_of L M F cfg settings mail ∷ objects_of mails

    failed_commit :
        Option (RadosSaveLog × L.State) → Option (ℤ × Option SaveContext × RadosSaveLog × L.State)
    failed_commit none = none
    failed_commit (some (log, s)) = some (minus_one, none, log, s)

    -- The mail of the context is let go.
    end_commit :
        SaveContext → RadosSaveLog → L.State → ℤ × Option SaveContext × RadosSaveLog × L.State
    end_commit ctx log s = (
      pos 0,
      some (record ctx { dest_mail = false; dest_mail_allocated = false }),
      log,
      if ctx.dest_mail && ctx.dest_mail_allocated then C.mail_free s else s,
    )

    -- After the synchronisation has begun. A failed assignment of the uids is rolled back, but the
    -- context is not marked as failed.
    assign_and_end :
        SaveData
        → ℤ
        → Mail
        → Storage L
        → SaveContext
        → RadosSaveLog
        → L.State
        → Option (ℤ × Option SaveContext × RadosSaveLog × L.State)
    assign_and_end d save_date mail st ctx log s =
        if not (C.has_header s)
        then some (minus_one, some ctx, log, s)
        else let (uids, s1) = C.append_finish_uids s in
          elim (assign_uids L M cfg (objects_of ctx.rados_mails) uids s1) [
            | none ↦ none
            | some (ret, mails, s2) ↦
                if is_neg ret
                then failed_commit
                    (save_rollback L T M F cfg settings d save_date mail st ctx log s2)
                else some (end_commit ctx log s2)
          ]

    -- The context is `none` where it was freed. A context that is not finished ends the process.
    pub save_commit_pre :
        Bool
        → Bool
        → SaveData
        → ℤ
        → Mail
        → Storage L
        → SaveContext
        → RadosSaveLog
        → L.State
        → Option (ℤ × Option SaveContext × RadosSaveLog × L.State)
    save_commit_pre have_pop3_uidls have_pop3_orders d save_date mail st ctx log s =
        if not ctx.finished
        then none
        else let (ret, s1) = T.sync_begin s in
          if is_neg ret
          then failed_commit (
              save_rollback L T M F cfg settings d save_date mail st (record ctx { failed = true })
                log s1)
          else assign_and_end d save_date mail st (record ctx { has_sync_ctx = true }) log
              (update_header_flags have_pop3_uidls have_pop3_orders 20 s1)
