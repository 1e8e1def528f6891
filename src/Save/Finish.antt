-- ===== src/Save/Finish.antt =====
-- `rbox_save_finish`: writing the mail, once its stream has ended.
use dovecot_ceph_plugin.Prelude.{
  ℕ, ◌*◌, ◌%◌, ◌^◌, ℤ, pos, minus_one, is_neg, int_lt, int_eq, to_int, to_u64, stoi, Bool, true,
  false, not, ◌||◌, Option, none, some, List, [], ◌∷◌, ◌++◌, Text, ltb, ◌==◌, if◌then◌else◌,
}
use dovecot_ceph_plugin.Librados.{Librados, mtime}
use dovecot_ceph_plugin.Config.{JsonConfig}
use dovecot_ceph_plugin.Attributes.{MailObject, MetadataModule, new_mail_object}
use dovecot_ceph_plugin.SaveLog.{entry, op_save}
use dovecot_ceph_plugin.SaveLog.File.{RadosSaveLog, append}
use dovecot_ceph_plugin.Storage.{Storage, Mail}
use dovecot_ceph_plugin.Storage.Recovery.{ceph_index_append}
use dovecot_ceph_plugin.Save.{save_mail_write_append}
use dovecot_ceph_plugin.Save.Entries.{SaveData, set_mail_metadata}

-- Dovecot's streams and caches.
pub record StreamCalls (L : Librados) : Type 0 where
  -- the stream is finished, or flushed where no plugin has wrapped it
  pub finish_output : L.State → ℤ × L.State
  pub mail_set_critical : L.State → L.State
  -- the entries of the cache; the wrapping stream is closed
  pub cache_parse_deinit : L.State → L.State
  -- how many bytes the plugin's stream was given
  pub offset : L.State → ℕ
  -- the streams are closed and the save context's data is freed
  pub free_streams : L.State → L.State

-- The settings that are texts of numbers.
pub record SaveSettings : Type 0 where
  pub chunk_size : Text
  pub object_search_method : Text

-- What `rbox_save_context` keeps; a pointer is whether it is set.
pub record SaveContext : Type 0 where
  pub mail_count : ℕ
  pub seq : ℕ
  pub rados_mails : List Mail
  pub has_transaction : Bool
  pub has_sync_ctx : Bool
  pub dest_mail : Bool
  pub dest_mail_allocated : Bool
  pub copying : Bool
  pub moving : Bool
  pub failed : Bool
  pub finished : Bool

module _ (L : Librados) (M : MetadataModule L) (F : StreamCalls L) (cfg : JsonConfig)
    (settings : SaveSettings) where
  -- The mail with the size and the metadata that it is saved with.
  described : SaveData → ℤ → ℕ → Mail → Mail
  described d save_date written mail =
      let o = set_mail_metadata cfg d (record (new_mail_object mail.oid) {
        metadata = mail.metadata;
        extended_metadata = mail.extended_metadata;
      }) in
      record mail {
        mail_size = to_int written;
        metadata = o.metadata;
        extended_metadata = o.extended_metadata;
        save_date = save_date;
      }

  pub object_of : Mail → MailObject
  object_of mail = record (new_mail_object mail.oid) {
    metadata = mail.metadata;
    extended_metadata = mail.extended_metadata;
  }

  -- A chunk is not larger than the greatest write.
  chunk_size_of : ℤ → Storage L → ℕ
  chunk_size_of configured st =
      let config_chunk_size = to_u64 configured % 2 ^ 32 in
      let max_write_size_bytes = to_u64 st.max_write_size * 1048576 % 2 ^ 32 in
      if ltb max_write_size_bytes config_chunk_size then max_write_size_bytes else config_chunk_size

  -- Whether the mail was written; false is a failure.
  write_mail : Mail → Storage L → L.State → Option (Bool × L.State)
  write_mail mail st s =
      if int_lt st.max_object_size mail.mail_size
      then some (false, F.mail_set_critical s)
      else elim (stoi settings.chunk_size) [
        | none ↦ none
        | some configured ↦
            elim (save_mail_write_append L mail
              (M.save_metadata (object_of mail) ++ mtime mail.save_date ∷ [])
              (chunk_size_of configured st) st s) [
                | none ↦ none
                | some (ret, s1) ↦ some (not (is_neg ret), s1)
              ]
      ]

  -- A mail that was written is added to the recovery index, where this is how mails are searched.
  index_mail : Mail → Storage L → Bool × L.State → Option (Bool × L.State)
  index_mail mail st (false, s) = some (false, s)
  index_mail mail st (true, s) = elim (stoi settings.object_search_method) [
    | none ↦ none
    | some search_method ↦
        some
          (true, if int_eq search_method (pos 2) then (ceph_index_append L mail.oid st s).1 else s)
  ]

  -- An empty stream is a failure that leaves no line in the log; every other mail leaves one.
  save_stream :
      SaveData
      → ℤ
      → Mail
      → Storage L
      → RadosSaveLog
      → L.State
      → Option (Bool × Mail × RadosSaveLog × L.State)
  save_stream d save_date mail st log s =
      if F.offset s == 0
      then some (false, mail, log, s)
      else let saved = described d save_date (F.offset s) mail in
        elim (write_mail saved st s) [
          | none ↦ none
          | some r ↦ elim (index_mail saved st r) [
            | none ↦ none
            | some (ok, s1) ↦
                some (ok, saved, append (entry saved.oid st.nspace st.pool_name op_save) log, s1)
          ]
        ]

  -- The last mail of the list is the one that is saved.
  replace_last : Mail → List Mail → List Mail
  replace_last mail [] = []
  replace_last mail (m ∷ []) = mail ∷ []
  replace_last mail (m ∷ k ∷ ms) = m ∷ replace_last mail (k ∷ ms)

  -- The result is 0, or -1 where the save has failed.
  end_save : SaveContext → Bool → RadosSaveLog → L.State → ℤ × SaveContext × RadosSaveLog × L.State
  end_save ctx ok log s = (
    if ok then pos 0 else minus_one,
    record ctx { failed = not ok; finished = true },
    log,
    F.free_streams s,
  )

  pub save_finish :
      SaveData
      → ℤ
      → Mail
      → Storage L
      → SaveContext
      → RadosSaveLog
      → L.State
      → Option (ℤ × SaveContext × RadosSaveLog × L.State)
  save_finish d save_date mail st ctx log s =
      let (ret, s1) = F.finish_output s in
      let s2 = if is_neg ret then F.mail_set_critical s1 else s1 in
      if ctx.failed || is_neg ret
      then some (end_save ctx false log s2)
      else elim (save_stream d save_date mail st log (F.cache_parse_deinit s2)) [
        | none ↦ none
        | some (ok, saved, log1, s3) ↦
            some (
              end_save (record ctx { rados_mails = replace_last saved ctx.rados_mails }) ok log1 s3)
      ]

  -- `rbox_save_cancel`.
  pub save_cancel :
      SaveData
      → ℤ
      → Mail
      → Storage L
      → SaveContext
      → RadosSaveLog
      → L.State
      → Option (SaveContext × RadosSaveLog × L.State)
  save_cancel d save_date mail st ctx log s =
      elim (save_finish d save_date mail st (record ctx { failed = true }) log s) [
        | none ↦ none
        | some (ret, ctx1, log1, s1) ↦ some (ctx1, log1, s1)
      ]
