-- ===== src/Rebuild.antt =====
-- src/storage-rbox/rbox-sync-rebuild.cpp: building the index of a mailbox anew from the mail objects.
pub mod Header
pub mod Load
pub mod Uids
pub mod Again
pub mod Namespace
pub mod Retry
pub mod Tests
use dovecot_ceph_plugin.Prelude.{
  ℕ, ◌+◌, ◌%◌, ◌^◌, ℤ, pos, minus_one, is_neg, to_u64, stoi, Bool, true, false, not, ◌&&◌, ◌||◌,
  Option, none, some, List, [], ◌∷◌, Text, Map, TextSet, c_str, lookup, insert, ◌==◌, if◌then◌else◌,
}
use dovecot_ceph_plugin.Types.{mail_uid, guid}
use dovecot_ceph_plugin.Librados.{Librados}
use dovecot_ceph_plugin.Metadata.{convert_uint}
use dovecot_ceph_plugin.Util.{get_key_metadata}
use dovecot_ceph_plugin.Attributes.{MailObject, MetadataModule}

-- What Dovecot does for the rebuild of an index, on the same state as librados.
pub record IndexCalls (L : Librados) : Type 1 where
  -- an open mailbox, and the context of a rebuild
  pub Box : Type 0
  pub Context : Type 0
  pub mailbox_guid : Box → Text
  pub is_creating : Box → Bool
  -- the plugin's part of the index header
  pub get_header_ext : Box → L.State → Text
  pub set_ext_init_data : Box → Text → L.State → L.State
  pub guid_128_generate : L.State → Text × L.State
  pub mailbox_uidvalidity_next : Box → L.State → ℕ × L.State
  pub mailbox_set_deleted : Box → L.State → L.State
  pub mail_storage_set_critical : Box → L.State → L.State
  -- opens a view, starts a transaction and the rebuild
  pub rebuild_init : Box → L.State → Context × L.State
  pub rebuild_deinit : Context → L.State → L.State
  pub transaction_commit : Context → L.State → ℤ × L.State
  pub transaction_rollback : Context → L.State → L.State
  pub view_close : Context → L.State → L.State
  pub header_next_uid : Context → L.State → ℕ
  pub header_uid_validity : Context → L.State → ℕ
  pub update_uid_validity : Context → ℕ → L.State → L.State
  -- appends a record, the answer is its number
  pub mail_index_append : Context → ℕ → L.State → ℕ × L.State
  pub rebuild_index_metadata : Context → ℕ → ℕ → L.State → L.State
  -- the identifiers that a record holds
  pub update_ext : Context → ℕ → Text → Text → L.State → L.State
  pub add_alt_flag : Context → ℕ → L.State → L.State
  pub guid_128_from_string : Text → Option Text
  pub guid_128_from_uuid_string : Text → Option Text

-- The mails of each mailbox, by its identifier.
abbrev pub RadosMails : Type 0
RadosMails = Map (List MailObject)

abbrev pub int_max : ℕ
int_max = 2147483647

module _ (L : Librados) (K : IndexCalls L) (M : MetadataModule L) where
  -- The record's identifiers, its flag, and the mail's new uid, whose update may fail. `none` ends the
  -- process.
  pub add_record : K.Context → ℕ → MailObject → Bool → ℕ → L.State → Option (ℤ × L.State)
  add_record ctx seq mail_obj alt_storage next_uid s =
      elim (K.guid_128_from_string (c_str mail_obj.oid)) [
        | none ↦ some (minus_one, s)
        | some o ↦ elim (get_key_metadata guid mail_obj.metadata) [
          | none ↦ none
          | some xattr_guid ↦ elim (K.guid_128_from_uuid_string (c_str xattr_guid)) [
            | none ↦ some (minus_one, s)
            | some g ↦
                (let s1 = K.update_ext ctx seq g o s in
                  let s2 = if alt_storage then K.add_alt_flag ctx seq s1 else s1 in
                  elim (M.update_metadata mail_obj.oid (convert_uint mail_uid next_uid ∷ []) s2) [
                    | none ↦ none
                    | some (updated, s3) ↦ some (pos 0, s3)
                  ])
          ]
        ]
      ]

  -- Reading the uid that the mail had throws where it is no number of an `int`.
  pub add_object : K.Context → MailObject → Bool → ℕ → L.State → Option (ℤ × L.State)
  add_object ctx mail_obj alt_storage next_uid s =
      let (seq, s1) = K.mail_index_append ctx next_uid s in
      elim (get_key_metadata mail_uid mail_obj.metadata) [
        | none ↦ none
        | some xattr_mail_uid ↦ elim (stoi (c_str xattr_mail_uid)) [
          | none ↦ none
          | some z ↦
              (let uid = to_u64 z % 2 ^ 32 in
                let s2 =
                  if not (uid == int_max) && not mail_obj.lost_object
                  then K.rebuild_index_metadata ctx seq uid s1
                  else s1 in
                add_record ctx seq mail_obj alt_storage next_uid s2)
        ]
      ]

  -- A mail before those that the loop has gone through.
  pub before :
      MailObject
      → Option (ℤ × List MailObject × ℕ × L.State)
      → Option (ℤ × List MailObject × ℕ × L.State)
  before mail none = none
  before mail (some (ret, mails, uid, s)) = some (ret, mail ∷ mails, uid, s)

  -- The loop over the mails of a mailbox; the last result, the mails, and the next uid.
  pub add_objects :
      K.Context
      → Bool
      → List MailObject
      → ℕ
      → ℤ
      → L.State
      → Option (ℤ × List MailObject × ℕ × L.State)
  add_objects ctx alt_storage [] next_uid ret s = some (ret, [], next_uid, s)
  add_objects ctx alt_storage (mail ∷ mails) next_uid ret s = elim mail.restored [
    | true ↦ before mail (add_objects ctx alt_storage mails next_uid ret s)
    | false ↦ elim (add_object ctx mail alt_storage next_uid s) [
      | none ↦ none
      | some (added, s1) ↦ elim (is_neg added) [
        | true ↦ some (added, mail ∷ mails, next_uid, s1)
        | false ↦
            before (record mail { restored = true; index_ref = true })
              (add_objects ctx alt_storage mails ((next_uid + 1) % 2 ^ 32) added s1)
      ]
    ]
  ]

  -- The first uid: that of the index header where the context has none.
  pub first_uid : K.Context → ℕ → L.State → ℕ
  first_uid ctx next_uid s =
      if next_uid == int_max
      then if K.header_next_uid ctx s == 0 then 1 else K.header_next_uid ctx s
      else next_uid

  -- After the loop.
  pub finish_entry :
      K.Box
      → RadosMails
      → Option (ℤ × List MailObject × ℕ × L.State)
      → Option (ℤ × RadosMails × ℕ × L.State)
  finish_entry box rados_mails none = none
  finish_entry box rados_mails (some (ret, mails, uid, s)) =
      let rados_mails' = insert (K.mailbox_guid box) mails rados_mails in
      some (
        if is_neg ret
        then (
          minus_one,
          rados_mails',
          uid,
          K.mail_storage_set_critical box (K.mailbox_set_deleted box s),
        )
        else (ret, rados_mails', uid, s))

  pub rebuild_entry :
      K.Box → K.Context → Bool → RadosMails → ℕ → L.State → Option (ℤ × RadosMails × ℕ × L.State)
  rebuild_entry box ctx alt_storage rados_mails next_uid s =
      let uid = first_uid ctx next_uid s in
      elim (lookup (K.mailbox_guid box) rados_mails) [
        | none ↦ some (pos 0, rados_mails, uid, s)
        | some mails ↦
            finish_entry box rados_mails (add_objects ctx alt_storage mails uid (pos 0) s)
      ]
