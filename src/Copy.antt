-- ===== src/Copy.antt =====
-- src/storage-rbox/rbox-copy.cpp: copying a mail into another mailbox.
pub mod Rehomed
pub mod Objects
pub mod Tests
use dovecot_ceph_plugin.Prelude.{
  ℕ, ℤ, pos, minus_one, negsuc, is_neg, int_eq, Bool, true, false, not, ◌&&◌, ◌||◌, Option, none,
  some, List, [], ◌∷◌, ◌++◌, Text, c_str, is_empty, if◌then◌else◌,
}
use dovecot_ceph_plugin.Types.{mailbox_guid, received_time, orig_mailbox}
use dovecot_ceph_plugin.Librados.{Librados}
use dovecot_ceph_plugin.Metadata.{RadosMetadata, convert, convert_int}
use dovecot_ceph_plugin.Config.{JsonConfig, is_updateable_attribute}
use dovecot_ceph_plugin.Attributes.Ima.{is_update_attributes}
use dovecot_ceph_plugin.SaveLog.{entry, op_cpy}
use dovecot_ceph_plugin.SaveLog.File.{RadosSaveLog, append}
use dovecot_ceph_plugin.Storage.{Storage, Mail}
use dovecot_ceph_plugin.Storage.Transfer as Transfer
use dovecot_ceph_plugin.Save.Begin.{BeginCalls, GivenData, NewMail, setup_mail_object, add_to_index}
use dovecot_ceph_plugin.Save.Finish.{SaveContext}
use dovecot_ceph_plugin.Mailbox.{Pools}

-- What Dovecot does with the mail that is copied, and the namespace manager.
pub record CopyCalls (L : Librados) : Type 0 where
  -- `none` is an error
  pub get_received_date : L.State → Option ℤ × L.State
  pub get_from_envelope : L.State → Option Text × L.State
  pub get_guid : L.State → Option Text × L.State
  pub copy_set_failed : L.State → L.State
  pub mail_set_expunged : L.State → L.State
  -- the oid of the mail, by its record in the index
  pub get_index_record : L.State → Option Text × L.State
  pub lookup_key : Text → L.State → Option Text × L.State
  pub open_rados_connection : Bool → Pools L → L.State → ℤ × Pools L × L.State
  pub keywords_ref : L.State → L.State
  pub save_copy_flags : L.State → L.State
  pub mail_storage_copy : L.State → ℤ × L.State
  pub copy_cache_fields : ℕ → L.State → L.State
  pub save_context_free : L.State → L.State
  -- the time that the copy is made at
  pub now : L.State → ℤ

-- The mailboxes: the owners of their namespaces, and the one that is copied to. `is_rbox` says that
-- both storages are the plugin's.
pub record Boxes : Type 0 where
  pub src_owner : Option Text
  pub dest_owner : Option Text
  pub dest_guid : Text
  pub dest_name : Text
  pub is_rbox : Bool
  pub disable_reflink_copy_to : Bool

-- The data of the new mail: those of every save, and the sender.
pub record CopyData : Type 0 where
  pub given : GivenData
  pub from_envelope : Option Text

-- What a copy changes besides the store. The three fields after the first one are also the save
-- context's: the mail that was set up last, which is `none` after it was freed, and its identifiers.
pub record CopyState (L : Librados) : Type 0 where
  pub ctx : SaveContext
  pub rados_mail : Option Mail
  pub mail_oid : Text
  pub mail_guid : Text
  pub save_log : RadosSaveLog
  pub pools : Pools L

-- The user whose namespace is looked up.
unfoldable pub user_of : JsonConfig → Option Text → Text
user_of cfg none = cfg.public_namespace
user_of cfg (some username) = username ++ cfg.user_suffix

-- What is written on the copy.
unfoldable pub set_mailbox_metadata : JsonConfig → Boxes → Text → ℤ → List RadosMetadata
set_mailbox_metadata cfg boxes guid_text received_date =
    convert mailbox_guid guid_text
    ∷ convert_int received_time received_date
    ∷ (if is_update_attributes cfg && is_updateable_attribute orig_mailbox cfg
        then convert orig_mailbox boxes.dest_name ∷ []
        else [])

module _ (L : Librados) (B : BeginCalls L) (C : CopyCalls L) (cfg : JsonConfig)
    (boxes : Boxes) where
  with_received_date : CopyData → L.State → Option CopyData × L.State
  with_received_date d s =
      let (date, s1) = C.get_received_date s in
      if int_eq d.given.received_date minus_one
      then elim date [
        | none ↦ (none, C.copy_set_failed s1)
        | some t ↦ (some (record d { given = record d.given { received_date = t } }), s1)
      ]
      else (some d, s)

  with_from_envelope : CopyData → L.State → Option CopyData × L.State
  with_from_envelope d s = elim d.from_envelope [
    | some envelope ↦ (some d, s)
    | none ↦
        (let (envelope, s1) = C.get_from_envelope s in
          elim envelope [
            | none ↦ (none, C.copy_set_failed s1)
            | some e ↦ (
              some (if is_empty (c_str e) then d else record d { from_envelope = some (c_str e) }),
              s1,
            )
          ])
  ]

  with_mail_guid : CopyData → L.State → Option CopyData × L.State
  with_mail_guid d s = elim d.given.guid [
    | some g ↦ (some d, s)
    | none ↦
        (let (g, s1) = C.get_guid s in
          elim g [
            | none ↦ (none, C.copy_set_failed s1)
            | some h ↦ (
              some (
                  if is_empty (c_str h)
                  then d
                  else record d { given = record d.given { guid = some (c_str h) } }),
              s1,
            )
          ])
  ]

  on_success :
      Option CopyData × L.State
      → (CopyData → L.State → Option CopyData × L.State)
      → Option CopyData × L.State
  on_success (none, s) f = (none, s)
  on_success (some d, s) f = f d s

  -- What is not given is taken from the mail; `none` is the result -1.
  unfoldable pub save_copy_default_metadata : CopyData → L.State → Option CopyData × L.State
  unfolding with_received_date with_from_envelope with_mail_guid on_success
  save_copy_default_metadata d s =
      on_success (on_success (with_received_date d s) with_from_envelope) with_mail_guid

  after_src : Option Text × L.State → Option (Text × Text) × L.State
  after_src (none, s) = (none, s)
  after_src (some ns_src, s) =
      let (found, s1) = C.lookup_key (user_of cfg boxes.dest_owner) s in
      (elim found [ none ↦ none | some ns_dest ↦ some (ns_src, ns_dest) ], s1)

  unfoldable pub get_src_dest_namespace : L.State → Option (Text × Text) × L.State
  unfolding after_src
  get_src_dest_namespace s = after_src (C.lookup_key (user_of cfg boxes.src_owner) s)

  -- The storage that a mail is in, and its change.
  abbrev pub storage_of : Bool → Pools L → Storage L
  storage_of true p = p.alt
  storage_of false p = p.s

  abbrev pub with_storage : Bool → Storage L → Pools L → Pools L
  with_storage true st p = record p { alt = st }
  with_storage false st p = record p { s = st }

  unfoldable pub storage_copy :
      Text → Text → Text → Text → CopyData → Bool → Pools L → L.State → ℤ × Storage L × L.State
  storage_copy src_oid ns_src dest_oid ns_dest d from_alt p s =
      Transfer.copy L src_oid ns_src dest_oid ns_dest
        (set_mailbox_metadata cfg boxes (B.guid_128_to_string boxes.dest_guid)
          d.given.received_date)
        (C.now s) (storage_of from_alt p) s

  -- The mail that was set up is freed where the copy fails.
  unfoldable pub copied :
      Text
      → CopyData
      → NewMail
      → Bool
      → CopyState L
      → ℤ × Storage L × L.State
      → ℤ × CopyState L × L.State
  copied ns_dest d m from_alt c (ret, st, s) =
      let p = with_storage from_alt st c.pools in
      if is_neg ret
      then (
        minus_one,
        record c { pools = p; rados_mail = none; mail_oid = m.mail_oid; mail_guid = m.mail_guid },
        C.copy_set_failed (if int_eq ret (negsuc 1) then C.mail_set_expunged s else s),
      )
      else let (ctx1, s1) = add_to_index L B d.given m (record c.ctx { failed = false }) s in
        (
          pos 0,
          record {
            ctx = ctx1;
            rados_mail = some m.mail;
            mail_oid = m.mail_oid;
            mail_guid = m.mail_guid;
            save_log = append (entry m.mail.oid ns_dest st.pool_name op_cpy) c.save_log;
            pools = p;
          },
          s1,
        )

  unfoldable pub copy_mail :
      Text
      → Text
      → Text
      → CopyData
      → Bool
      → CopyState L
      → L.State
      → Option (ℤ × CopyState L × L.State)
  copy_mail src_oid ns_src ns_dest d from_alt c s = elim (setup_mail_object L B d.given s) [
    | none ↦ none
    | some (m, s1) ↦ some (
        copied ns_dest d m from_alt c
          (storage_copy src_oid ns_src m.mail.oid ns_dest d from_alt c.pools s1))
  ]

  -- After a copy: the cache, and the mail that the copy is to fill.
  after_copy : Option (ℤ × CopyState L × L.State) → Option (ℤ × CopyState L × L.State)
  after_copy none = none
  after_copy (some (ret, c, s)) =
      let s1 = if boxes.disable_reflink_copy_to then s else C.copy_cache_fields c.ctx.seq s in
      if is_neg ret
      then some (minus_one, c, s)
      else some (pos 0, c, if c.ctx.dest_mail then B.set_seq_saving c.ctx.seq s1 else s1)

  copy_described :
      Text
      → Text
      → Text
      → Bool
      → CopyState L
      → Option CopyData × L.State
      → Option (ℤ × CopyState L × L.State)
  copy_described src_oid ns_src ns_dest from_alt c (none, s) = some (minus_one, c, s)
  copy_described src_oid ns_src ns_dest from_alt c (some d, s) =
      after_copy (copy_mail src_oid ns_src ns_dest d from_alt c s)

  copy_found :
      Text
      → Text
      → CopyData
      → Bool
      → CopyState L
      → Option Text × L.State
      → Option (ℤ × CopyState L × L.State)
  copy_found ns_src ns_dest d from_alt c (none, s) = some (minus_one, c, C.copy_set_failed s)
  copy_found ns_src ns_dest d from_alt c (some src_oid, s) =
      copy_described src_oid ns_src ns_dest from_alt c (save_copy_default_metadata d s)

  copy_between :
      CopyData
      → Bool
      → CopyState L
      → Option (Text × Text) × L.State
      → Option (ℤ × CopyState L × L.State)
  copy_between d from_alt c (none, s) = some (minus_one, c, s)
  copy_between d from_alt c (some (ns_src, ns_dest), s) =
      if c.ctx.copying
      then copy_found ns_src ns_dest d from_alt c (C.get_index_record s)
      else some (pos 0, c, s)

  unfoldable pub try_copy :
      CopyData → Bool → CopyState L → L.State → Option (ℤ × CopyState L × L.State)
  unfolding copy_between copy_found copy_described after_copy
  try_copy d from_alt c s = copy_between d from_alt c (get_src_dest_namespace s)

  -- On the open connection; a context is freed where the copy fails.
  copy_opened : Bool → CopyData → Bool → CopyState L → L.State → Option (ℤ × CopyState L × L.State)
  copy_opened saving d from_alt c s =
      if saving || not c.ctx.copying || not boxes.is_rbox
      then (let (ret, s1) = C.mail_storage_copy (C.save_copy_flags s) in
          some ((if is_neg ret then minus_one else pos 0), c, s1))
      else elim (try_copy d from_alt c s) [
        | none ↦ none
        | some (ret, c1, s1) ↦
            if is_neg ret
            then some (minus_one, c1, C.save_context_free s1)
            else some (pos 0, c1, s1)
      ]

  unfoldable pub mail_storage_copy :
      Bool → CopyData → Bool → CopyState L → L.State → Option (ℤ × CopyState L × L.State)
  unfolding copy_opened
  mail_storage_copy saving d alt_storage c s =
      let c1 : CopyState L = record c { ctx = record c.ctx { finished = true } } in
      let s1 = if d.given.has_keywords then C.keywords_ref s else s in
      let (opened, p, s2) = C.open_rados_connection alt_storage c.pools s1 in
      let c2 : CopyState L = record c1 { pools = p } in
      if is_neg opened then some (minus_one, c2, s2) else copy_opened saving d alt_storage c2 s2

  end_copy : Option (ℤ × CopyState L × L.State) → Option (ℤ × CopyState L × L.State)
  end_copy none = none
  end_copy (some (ret, c, s)) =
      some (ret, record c { ctx = record c.ctx { copying = false } }, C.save_context_free s)

  -- `rbox_mail_copy`; the context is freed here once more.
  unfoldable pub mail_copy :
      Bool → CopyData → Bool → CopyState L → L.State → Option (ℤ × CopyState L × L.State)
  unfolding end_copy
  mail_copy saving d alt_storage c s = end_copy (
      mail_storage_copy saving d alt_storage
        (record c { ctx = record c.ctx { copying = not saving && boxes.is_rbox } }) s)
