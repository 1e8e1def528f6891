-- ===== src/Attributes/Ima.antt =====
-- src/librmb/rados-metadata-storage-ima.cpp: the entries that never change are held by one attribute, as
-- a JSON object; the keywords are an object in it.
use dovecot_ceph_plugin.Prelude.{
  ℕ, zero, suc, ℤ, pos, minus_one, is_neg, is_zero, Bool, true, false, not, ◌&&◌, ◌||◌, Option,
  none, some, List, [], ◌∷◌, ◌++◌, Text, Map, TextSet, codes, c_str, str_eq, is_empty, lookup,
  insert, if◌then◌else◌,
}
use dovecot_ceph_plugin.Types.{MetadataKey, cast_key, oldv1_keywords}
use dovecot_ceph_plugin.Librados.{Librados, WriteStep, setxattr, omap_set}
use dovecot_ceph_plugin.Metadata.{RadosMetadata}
use dovecot_ceph_plugin.Config.{JsonConfig, is_updateable_attribute}
use dovecot_ceph_plugin.Attributes.{
  MailObject, MetadataModule, new_mail_object, add_metadata, get_all_keys_and_values,
}

-- A value of the object: a string, or an object of strings.
pub data JsonValue : Type 0 where
  json_string : Text → JsonValue
  json_object : Map Text → JsonValue

-- The JSON library. A text that is not UTF-8 is no string of it, and then nothing is set.
pub record NestedJson : Type 0 where
  pub json_loads : Text → Option (Map JsonValue)
  pub json_dumps : Map JsonValue → Text
  pub is_utf8 : Text → Bool

abbrev pub keyword_key : Text
keyword_key = codes "K"

-- `static_cast<enum rbox_metadata_key>(*key.c_str())`.
unfoldable pub key_of_text : Text → MetadataKey
key_of_text [] = cast_key 0
key_of_text (c ∷ key) = cast_key c

unfoldable pub is_update_attributes : JsonConfig → Bool
is_update_attributes cfg = str_eq cfg.update_attributes (codes "true")

unfoldable pub insert_each : Map Text → Map Text → Map Text
insert_each [] m = m
insert_each ((k, v) ∷ kvs) m = insert_each kvs (insert k v m)

-- An entry of the JSON object; a string is expected under every other key, or the process ends.
unfoldable pub parse_entry : Text → JsonValue → MailObject → Option MailObject
parse_entry key (json_string v) mail =
    if str_eq key keyword_key
    then some mail
    else some (record mail { metadata = insert key v mail.metadata })
parse_entry key (json_object kvs) mail =
    if str_eq key keyword_key
    then some (record mail { extended_metadata = insert_each kvs mail.extended_metadata })
    else none

unfoldable pub parse_attribute : Map JsonValue → MailObject → Option MailObject
parse_attribute [] mail = some mail
parse_attribute ((key, value) ∷ root) mail = elim (parse_entry key value mail) [
  | none ↦ none
  | some mail' ↦ parse_attribute root mail'
]

-- The attributes besides that of the JSON object.
unfoldable pub load_others : Text → Map Text → Map Text → Map Text
load_others attribute [] metadata = metadata
load_others attribute ((k, v) ∷ attr) metadata =
    load_others attribute attr (if str_eq k attribute then metadata else insert k v metadata)

module _ (L : Librados) (J : NestedJson) (cfg : JsonConfig) where
  -- `json_object_set_new(o, key, json_string(value))`.
  unfoldable pub set_string : Text → Text → Map JsonValue → Map JsonValue
  set_string key value o =
      if J.is_utf8 (c_str key) && J.is_utf8 (c_str value)
      then insert (c_str key) (json_string (c_str value)) o
      else o

  -- An entry that is not kept in the object becomes an attribute.
  unfoldable pub is_fixed : MetadataKey → Bool
  is_fixed key = not (is_updateable_attribute key cfg) || not (is_update_attributes cfg)

  unfoldable pub fixed_entries : Map Text → Map JsonValue → Map JsonValue
  fixed_entries [] root = root
  fixed_entries ((k, v) ∷ metadata) root =
      fixed_entries metadata (if is_fixed (key_of_text k) then set_string k v root else root)

  unfoldable pub update_steps : Map Text → List (WriteStep L.IoCtx)
  update_steps [] = []
  update_steps ((k, v) ∷ metadata) =
      let rest = update_steps metadata in
      if is_fixed (key_of_text k) then rest else setxattr (c_str k) v ∷ rest

  unfoldable pub set_keyword : Text → Text → Map Text → Map Text
  set_keyword key value o =
      if J.is_utf8 (c_str key) && J.is_utf8 (c_str value)
      then insert (c_str key) (c_str value) o
      else o

  unfoldable pub keyword_object : Map Text → Map Text → Map Text
  keyword_object [] o = o
  keyword_object ((k, v) ∷ keywords) o = keyword_object keywords (set_keyword k v o)

  unfoldable pub root_of : MailObject → Map JsonValue
  root_of mail =
      let root = fixed_entries mail.metadata [] in
      if is_empty mail.extended_metadata || not (is_fixed oldv1_keywords)
      then root
      else insert keyword_key (json_object (keyword_object mail.extended_metadata [])) root

  unfoldable pub save_metadata : MailObject → List (WriteStep L.IoCtx)
  save_metadata mail =
      update_steps mail.metadata
      ++ ((if is_empty mail.extended_metadata || is_fixed oldv1_keywords
            then []
            else omap_set mail.extended_metadata ∷ [])
          ++ setxattr (c_str cfg.metadata_storage_attribute) (c_str (J.json_dumps (root_of mail)))
            ∷ [])

  module _ (io_ctx : L.IoCtx) where
    -- Reading the attributes, with as many tries more as the first argument says.
    unfoldable pub get_attributes : ℕ → Text → L.State → ℤ × Map Text × L.State
    get_attributes zero oid s = L.getxattrs io_ctx oid s
    get_attributes (suc n) oid s =
        let (ret, attr, s1) = L.getxattrs io_ctx oid s in
        elim (is_neg ret) [ true ↦ get_attributes n oid s1 | false ↦ (ret, attr, s1) ]

    -- The object of the JSON attribute; a text that is no such object has no entries.
    parse_json : Option Text → MailObject → Option MailObject
    parse_json none mail = some mail
    parse_json (some text) mail = elim (J.json_loads (c_str text)) [
      | none ↦ some mail
      | some root ↦ parse_attribute root mail
    ]

    -- Once the attributes were read.
    load_attributes : ℤ → Map Text → MailObject → L.State → Option (ℤ × Option MailObject × L.State)
    load_attributes ret attr mail s =
        elim (parse_json (lookup cfg.metadata_storage_attribute attr) mail) [
          | none ↦ none
          | some parsed ↦
              (let loaded : MailObject = record parsed {
                metadata = load_others cfg.metadata_storage_attribute attr parsed.metadata;
              } in
                if is_updateable_attribute oldv1_keywords cfg
                then (let (ret2, extended, s1) =
                      get_all_keys_and_values L io_ctx loaded.oid loaded.extended_metadata s in
                    some (ret2, some (record loaded { extended_metadata = extended }), s1))
                else some (ret, some loaded, s))
        ]

    pub load_metadata : Option MailObject → L.State → Option (ℤ × Option MailObject × L.State)
    load_metadata none s = some (minus_one, none, s)
    load_metadata (some mail) s =
        if not (is_empty mail.metadata)
        then some (pos 0, some mail, s)
        else let (ret, attr, s1) = get_attributes 9 mail.oid s in
          if is_neg ret then some (ret, some mail, s1) else load_attributes ret attr mail s1

    -- Both forms; the second one does not use the operation that it is given.
    pub set_metadata : RadosMetadata → MailObject → L.State → ℤ × MailObject × L.State
    set_metadata xattr mail s =
        if not (is_updateable_attribute (key_of_text xattr.key) cfg)
        then (let mail1 = add_metadata xattr mail in
            let (ret, s1) = L.operate io_ctx mail1.oid (save_metadata mail1) s in (ret, mail1, s1))
        else let (ret, s1) = L.setxattr_now io_ctx mail.oid (c_str xattr.key) xattr.bl s in
          (ret, mail, s1)

    extend : List RadosMetadata → Map Text → Map Text
    extend [] extended = extended
    extend (m ∷ to_update) extended = extend to_update (insert m.key m.bl extended)

    -- What is written, where the load left a mail.
    write_update : Text → List RadosMetadata → Option MailObject → L.State → Bool × L.State
    write_update oid to_update none s = (false, s)
    write_update oid to_update (some obj) s =
        let obj1 : MailObject = record obj {
          extended_metadata = extend to_update obj.extended_metadata;
        } in
        let (ret, done, s1) = L.aio_operate io_ctx oid (save_metadata obj1) s in (is_zero ret, s1)

    -- The entries are put among the keywords; the result of the load is not looked at.
    pub update_metadata : Text → List RadosMetadata → L.State → Option (Bool × L.State)
    update_metadata oid to_update s =
        if is_empty to_update
        then some (true, s)
        else elim (load_metadata (some (new_mail_object oid)) s) [
          | none ↦ none
          | some (ret, mail, s1) ↦ some (write_update oid to_update mail s1)
        ]

    pub update_keyword_metadata : Text → Option RadosMetadata → L.State → ℤ × L.State
    update_keyword_metadata oid none s = (minus_one, s)
    update_keyword_metadata oid (some m) s =
        if is_fixed oldv1_keywords
        then (minus_one, s)
        else L.omap_set_now io_ctx oid (insert m.key m.bl []) s

    pub remove_keyword_metadata : Text → Text → L.State → ℤ × L.State
    remove_keyword_metadata oid key s = L.omap_rm_keys io_ctx oid (key ∷ []) s

    pub load_keyword_metadata : Text → TextSet → L.State → ℤ × Map Text × L.State
    load_keyword_metadata oid keys s = L.omap_get_vals_by_keys io_ctx oid keys s

    -- The module "ima".
    abbrev pub ima : MetadataModule L
    ima = record {
      load_metadata = λ mail s. load_metadata mail s;
      set_metadata = λ xattr mail s. set_metadata xattr mail s;
      set_metadata_by = λ xattr op mail s. set_metadata xattr mail s;
      update_metadata = λ oid to_update s. update_metadata oid to_update s;
      save_metadata = λ mail. save_metadata mail;
      update_keyword_metadata = λ oid m s. update_keyword_metadata oid m s;
      remove_keyword_metadata = λ oid key s. remove_keyword_metadata oid key s;
      load_keyword_metadata = λ oid keys s. load_keyword_metadata oid keys s;
    }
