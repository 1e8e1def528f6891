-- ===== src/Attributes/Plain.antt =====
-- src/librmb/rados-metadata-storage-default.cpp: each metadata entry is an attribute of the object.
pub mod Updates
use dovecot_ceph_plugin.Prelude.{
  ℤ, pos, minus_one, is_neg, is_zero, Bool, true, Option, none, some, List, [], ◌∷◌, ◌++◌, Text,
  Map, TextSet, c_str, is_empty, insert, if◌then◌else◌,
}
use dovecot_ceph_plugin.Librados.{Librados, WriteStep, setxattr, omap_set}
use dovecot_ceph_plugin.Metadata.{RadosMetadata}
use dovecot_ceph_plugin.Attributes.{
  MailObject, MetadataModule, add_metadata, get_all_keys_and_values,
}
use dovecot_ceph_plugin.Storage.{metadata_steps, xattr_steps}

module _ (L : Librados) (io_ctx : L.IoCtx) where
  unfoldable pub load_metadata : Option MailObject → L.State → ℤ × Option MailObject × L.State
  load_metadata none s = (minus_one, none, s)
  load_metadata (some mail) s =
      let (ret, attrset, s1) = L.getxattrs io_ctx mail.oid s in
      if is_neg ret
      then (ret, some (record mail { metadata = attrset }), s1)
      else let (ret2, extended, s2) =
          get_all_keys_and_values L io_ctx mail.oid mail.extended_metadata s1 in
        (ret2, some (record mail { metadata = attrset; extended_metadata = extended }), s2)

  pub set_metadata : RadosMetadata → MailObject → L.State → ℤ × MailObject × L.State
  set_metadata xattr mail s =
      let (ret, s1) = L.setxattr_now io_ctx mail.oid (c_str xattr.key) xattr.bl s in
      (ret, add_metadata xattr mail, s1)

  -- The completion is not waited for here.
  pub set_metadata_by :
      RadosMetadata → List (WriteStep L.IoCtx) → MailObject → L.State → ℤ × MailObject × L.State
  set_metadata_by xattr write_op mail s =
      let mail1 = add_metadata xattr mail in
      let mail2 : MailObject =
        if mail1.has_completion
        then mail1
        else record mail1 { has_completion = true; active_op = pos 1 } in
      let (ret, done, s1) = L.aio_operate io_ctx mail.oid write_op s in (ret, mail2, s1)

  pub save_metadata : MailObject → List (WriteStep L.IoCtx)
  save_metadata mail =
      metadata_steps L mail.metadata
      ++ (if is_empty mail.extended_metadata then [] else omap_set mail.extended_metadata ∷ [])

  -- The answer is that of the call; the completion is waited for and its result dropped.
  unfoldable pub update_metadata : Text → List RadosMetadata → L.State → Bool × L.State
  update_metadata oid to_update s =
      let (ret, done, s1) = L.aio_operate io_ctx oid (xattr_steps L to_update) s in
      (is_zero ret, s1)

  pub update_keyword_metadata : Text → Option RadosMetadata → L.State → ℤ × L.State
  update_keyword_metadata oid none s = (minus_one, s)
  update_keyword_metadata oid (some m) s = L.omap_set_now io_ctx oid (insert m.key m.bl []) s

  pub remove_keyword_metadata : Text → Text → L.State → ℤ × L.State
  remove_keyword_metadata oid key s = L.omap_rm_keys io_ctx oid (key ∷ []) s

  pub load_keyword_metadata : Text → TextSet → L.State → ℤ × Map Text × L.State
  load_keyword_metadata oid keys s = L.omap_get_vals_by_keys io_ctx oid keys s

  -- The module "default".
  abbrev pub plain : MetadataModule L
  plain = record {
    load_metadata = λ mail s. some (load_metadata mail s);
    set_metadata = λ xattr mail s. set_metadata xattr mail s;
    set_metadata_by = λ xattr op mail s. set_metadata_by xattr op mail s;
    update_metadata = λ oid to_update s. some (update_metadata oid to_update s);
    save_metadata = λ mail. save_metadata mail;
    update_keyword_metadata = λ oid m s. update_keyword_metadata oid m s;
    remove_keyword_metadata = λ oid key s. remove_keyword_metadata oid key s;
    load_keyword_metadata = λ oid keys s. load_keyword_metadata oid keys s;
  }
