-- ===== src/Config.antt =====
-- src/librmb/rados-ceph-json-config.cpp and rados-ceph-config.cpp: the configuration of the plugin, a JSON object.
pub mod Saving
pub mod Loading
pub mod Tests
use dovecot_ceph_plugin.Prelude.{
  ℤ, pos, minus_one, Bool, true, false, ◌&&◌, ◌||◌, Option, none, some, List, [], ◌∷◌, Text, Map,
  codes, c_str, str_eq, is_empty, lookup, insert, ◌==◌, is_neg, if◌then◌else◌,
}
use dovecot_ceph_plugin.Types.{MetadataKey, key_to_char}

-- The JSON library, on objects whose values are strings.
pub record Json : Type 0 where
  pub json_loads : Text → Option (Map Text)
  pub json_dumps : Map Text → Text

pub record JsonConfig : Type 0 where
  pub valid : Bool
  pub user_mapping : Text
  pub user_ns : Text
  pub user_suffix : Text
  pub public_namespace : Text
  pub mail_attributes : Text
  pub update_attributes : Text
  pub updateable_attributes : Text
  pub metadata_storage_module : Text
  pub metadata_storage_attribute : Text

-- The nine settings and their names.
pub data Setting : Type 0 where
  mapping ns suffix public_ns mails updates updateables module_name attribute_name : Setting

abbrev pub key_of : Setting → Text
key_of mapping = codes "user_mapping"
key_of ns = codes "user_ns"
key_of suffix = codes "user_suffix"
key_of public_ns = codes "rbox_public_namespace"
key_of mails = codes "rbox_mail_attributes"
key_of updates = codes "rbox_update_attributes"
key_of updateables = codes "rbox_updateable_attributes"
key_of module_name = codes "rbox_metadata_storage"
key_of attribute_name = codes "rbox_storage_metadata_attr"

-- The setters.
abbrev pub set : Setting → Text → JsonConfig → JsonConfig
set mapping v c = record c { user_mapping = v }
set ns v c = record c { user_ns = v }
set suffix v c = record c { user_suffix = v }
set public_ns v c = record c { public_namespace = v }
set mails v c = record c { mail_attributes = v }
set updates v c = record c { update_attributes = v }
set updateables v c = record c { updateable_attributes = v }
set module_name v c = record c { metadata_storage_module = v }
set attribute_name v c = record c { metadata_storage_attribute = v }

-- Which setting a key names, in the order of the tests.
named : List Setting → Text → Option Setting
named [] key = none
named (x ∷ xs) key = let rest = named xs key in if str_eq (key_of x) key then some x else rest

abbrev pub all_settings : List Setting
all_settings =
    mapping ∷ ns ∷ suffix ∷ public_ns ∷ mails ∷ updateables ∷ updates ∷ module_name ∷ attribute_name
    ∷ []

is_bool : Text → Bool
is_bool value = str_eq value (codes "true") || str_eq value (codes "false")

accepts : Setting → Text → Bool
unfolding is_bool
accepts mapping value = is_bool value
accepts updates value = is_bool value
accepts module_name value = str_eq value (codes "default") || str_eq value (codes "ima")
accepts _ value = true

pub is_valid_key_value : Text → Text → Bool
is_valid_key_value key value =
    if is_empty value || is_empty key
    then false
    else elim (named all_settings key) [ none ↦ false | some x ↦ accepts x value ]

pub update_valid_key_value : Text → Text → JsonConfig → Bool × JsonConfig
update_valid_key_value key value c =
    if is_empty value || is_empty key
    then (false, c)
    else elim (named all_settings key) [ none ↦ (false, c) | some x ↦ (true, set x value c) ]

-- `attributes.find_first_of(name)`, where the name of a key is one character.
find_char : Text → Text → Bool
find_char [] name = false
find_char (c ∷ attributes) name = str_eq (c ∷ []) name || find_char attributes name

unfoldable pub is_mail_attribute : MetadataKey → JsonConfig → Bool
unfolding find_char
is_mail_attribute key c = find_char c.mail_attributes (key_to_char key)

unfoldable pub is_updateable_attribute : MetadataKey → JsonConfig → Bool
unfolding find_char
is_updateable_attribute key c = find_char c.updateable_attributes (key_to_char key)

-- The object that `to_json` builds.
unfoldable pub to_object : JsonConfig → Map Text
to_object c = insert (codes "rbox_storage_metadata_attr") (c_str c.metadata_storage_attribute) (
    insert (codes "rbox_metadata_storage") (c_str c.metadata_storage_module) (
      insert (codes "rbox_update_attributes") (c_str c.update_attributes) (
        insert (codes "rbox_updateable_attributes") (c_str c.updateable_attributes) (
          insert (codes "rbox_mail_attributes") (c_str c.mail_attributes) (
            insert (codes "rbox_public_namespace") (c_str c.public_namespace) (
              insert (codes "user_suffix") (c_str c.user_suffix) (
                insert (codes "user_ns") (c_str c.user_ns)
                  (insert (codes "user_mapping") (c_str c.user_mapping) []))))))))

-- Reading the settings one after another; a missing one is a null pointer, which ends the call.
read_all : List Setting → Map Text → JsonConfig → Option JsonConfig
read_all [] m c = some c
read_all (x ∷ xs) m c = elim (lookup (key_of x) m) [
  | none ↦ none
  | some v ↦ read_all xs m (set x v c)
]

abbrev pub read_order : List Setting
read_order =
    mapping ∷ ns ∷ suffix ∷ public_ns ∷ updates ∷ mails ∷ updateables ∷ module_name ∷ attribute_name
    ∷ []

module _ (J : Json) where
  pub to_json : JsonConfig → Text
  to_json c = J.json_dumps (to_object c)

  -- `none` where a setting is missing.
  pub from_json : Text → JsonConfig → Option (Bool × JsonConfig)
  from_json buffer c = elim (J.json_loads (c_str buffer)) [
    | none ↦ some (false, c)
    | some m ↦ elim (read_all read_order m c) [
      | none ↦ none
      | some c' ↦ some (true, record c' { valid = true })
    ]
  ]
