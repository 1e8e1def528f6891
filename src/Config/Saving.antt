-- ===== src/Config/Saving.antt =====
-- Saving and loading the configuration, and changing it.
use dovecot_ceph_plugin.Prelude.{Bool, true, ◌≡◌, refl, some, Text, c_str, lookup, insert, arith}
use dovecot_ceph_plugin.Config.{
  Json, JsonConfig, to_object, to_json, from_json, read_all, read_order, is_valid_key_value,
  update_valid_key_value,
}

-- A key and a value that are valid are accepted by an update.
pub update-is_valid_key_value :
    (key value : Text) (c : JsonConfig)
    → is_valid_key_value key value ≡ true
    → (update_valid_key_value key value c).0 ≡ true
unfolding is_valid_key_value update_valid_key_value
update-is_valid_key_value key value c h = ground arith

-- The settings as they are written.
unfoldable pub written : Bool → JsonConfig → JsonConfig
written valid c = record {
  valid = valid;
  user_mapping = c_str c.user_mapping;
  user_ns = c_str c.user_ns;
  user_suffix = c_str c.user_suffix;
  public_namespace = c_str c.public_namespace;
  mail_attributes = c_str c.mail_attributes;
  update_attributes = c_str c.update_attributes;
  updateable_attributes = c_str c.updateable_attributes;
  metadata_storage_module = c_str c.metadata_storage_module;
  metadata_storage_attribute = c_str c.metadata_storage_attribute;
}

read_all-to_object :
    (c d : JsonConfig) → read_all read_order (to_object c) d ≡ some (written d.valid c)
unfolding read_all to_object insert lookup written
read_all-to_object c d = refl

module _ (J : Json) where
  -- With a JSON library that loads the object it has dumped: a configuration that was written is read
  -- back, each setting up to its first NUL, whatever the reader held before.
  pub from_json-to_json :
      (c d : JsonConfig)
      → J.json_loads (c_str (J.json_dumps (to_object c))) ≡ some (to_object c)
      → from_json J (to_json J c) d ≡ some (true, written true c)
  unfolding from_json to_json written
  from_json-to_json c d h = rw (from_json, h, read_all-to_object c d) refl
