-- ===== src/Save/Entries.antt =====
-- The metadata of a mail that is saved: `rbox_save_mail_set_metadata` and `rbox_save_assign_uids`.
pub mod Valid
use dovecot_ceph_plugin.Prelude.{
  ℕ, ◌^◌, ℤ, pos, minus_one, is_neg, Bool, true, false, not, ◌&&◌, Option, none, some, List, [],
  ◌∷◌, Text, Map, codes, c_str, decimal, insert, ◌==◌, if◌then◌else◌,
}
use dovecot_ceph_plugin.Types.{
  MetadataKey, mailbox_guid, guid, pop3_uidl, pop3_order, received_time, physical_size,
  virtual_size, orig_mailbox, mail_uid, version, from_envelope, pvt_flags, oldv1_flags,
  oldv1_keywords,
}
use dovecot_ceph_plugin.Librados.{Librados, setxattr}
use dovecot_ceph_plugin.Metadata.{
  RadosMetadata, from_key_value, convert, convert_int, convert_uint, convert_size,
}
use dovecot_ceph_plugin.Util.{flags_to_string}
use dovecot_ceph_plugin.Config.{JsonConfig, is_mail_attribute}
use dovecot_ceph_plugin.Attributes.{MailObject, MetadataModule, add_metadata}

-- What the saving of a mail knows about it. Dovecot's calls have made the texts of the identifiers, and
-- the virtual size, where it can be determined.
pub record SaveData : Type 0 where
  pub mailbox_guid_text : Text
  pub mail_guid_text : Text
  pub mail_guid_uuid : Text
  pub deprecated_uid : Bool
  pub mailbox_name : Text
  pub received_date : ℤ
  pub uidl : Option Text
  pub order : ℕ
  pub envelope : Option Text
  pub vsize : Option ℕ
  pub v_offset : ℕ
  pub flags : ℕ
  pub private_flags : ℕ
  pub keywords : List (ℕ × Text)

-- An entry that is added where a test holds.
unfoldable pub add_if : Bool → RadosMetadata → MailObject → MailObject
unfolding add_metadata
add_if b m mail = if b then add_metadata m mail else mail

add_some : Bool → MetadataKey → Option Text → MailObject → MailObject
add_some b k none mail = mail
add_some b k (some value) mail = add_if b (convert k value) mail

-- The keywords, by their indexes.
add_keywords : List (ℕ × Text) → MailObject → MailObject
add_keywords [] mail = mail
add_keywords ((i, keyword) ∷ keywords) mail =
    let m = from_key_value (decimal i) keyword in
    add_keywords keywords
      (record mail { extended_metadata = insert m.key m.bl mail.extended_metadata })

-- Where the virtual size is not known, the physical one takes its place.
abbrev pub size_or : Option ℕ → ℕ → ℕ
size_or none v_offset = v_offset
size_or (some vsize) v_offset = vsize

module _ (cfg : JsonConfig) (d : SaveData) where
  stores : MetadataKey → Bool
  stores k = is_mail_attribute k cfg

  set_identifiers : MailObject → MailObject
  set_identifiers mail =
      add_if (stores guid)
        (convert guid (if d.deprecated_uid then d.mail_guid_uuid else d.mail_guid_text))
        (add_if (stores mailbox_guid) (convert mailbox_guid d.mailbox_guid_text)
          (add_if (stores version) (convert version (codes "0.1")) mail))

  set_pop3 : MailObject → MailObject
  set_pop3 mail = add_some (stores from_envelope) from_envelope d.envelope (
      add_if (stores pop3_order && not (d.order == 0)) (convert_uint pop3_order d.order)
        (add_some (stores pop3_uidl) pop3_uidl d.uidl mail))

  set_sizes : MailObject → MailObject
  set_sizes mail =
      add_if (stores physical_size) (convert_size physical_size d.v_offset)
        (add_if (stores virtual_size) (convert_size virtual_size (size_or d.vsize d.v_offset)) mail)

  set_flags : MailObject → MailObject
  set_flags mail =
      add_if (stores pvt_flags && not (d.private_flags == 0))
        (convert pvt_flags (flags_to_string d.private_flags []))
        (add_if (stores oldv1_flags && not (d.flags == 0))
          (convert oldv1_flags (flags_to_string d.flags [])) mail)

  -- `rbox_save_mail_set_metadata`, on the metadata.
  pub set_mail_metadata : MailObject → MailObject
  set_mail_metadata mail =
      let described = add_if (stores orig_mailbox) (convert orig_mailbox d.mailbox_name) (
        set_flags (
          set_sizes (
            set_pop3 (
              add_if (stores received_time) (convert_int received_time d.received_date)
                (set_identifiers mail))))) in
      if stores oldv1_keywords then add_keywords d.keywords described else described

module _ (L : Librados) (M : MetadataModule L) (cfg : JsonConfig) where
  -- The loop over the mails with the uids that they get; `none` where an assertion fails, as there are
  -- more or less uids than mails.
  assign_from : List MailObject → List ℕ → L.State → Option (ℤ × List MailObject × L.State)
  assign_from [] [] s = some (pos 0, [], s)
  assign_from [] (uid ∷ uids) s = none
  assign_from (mail ∷ mails) [] s = none
  assign_from (mail ∷ mails) (uid ∷ uids) s = elim (is_mail_attribute mail_uid cfg) [
    | false ↦ elim (assign_from mails uids s) [
      | none ↦ none
      | some (ret, mails', s') ↦ some (ret, mail ∷ mails', s')
    ]
    | true ↦
        (let metadata = convert_uint mail_uid uid in
          let (ret, mail', s1) =
            M.set_metadata_by metadata (setxattr (c_str metadata.key) metadata.bl ∷ []) mail s in
          elim (is_neg ret) [
            | true ↦ some (minus_one, mail' ∷ mails, s1)
            | false ↦ elim (assign_from mails uids s1) [
              | none ↦ none
              | some (ret', mails', s') ↦ some (ret', mail' ∷ mails', s')
            ]
          ])
  ]

  -- Without mails, the uids are not looked at.
  pub assign_uids : List MailObject → List ℕ → L.State → Option (ℤ × List MailObject × L.State)
  assign_uids [] uids s = some (pos 0, [], s)
  assign_uids (mail ∷ mails) uids s = assign_from (mail ∷ mails) uids s
