-- ===== src/Config/Tests.antt =====
-- The configuration with a JSON library that knows one object.
use dovecot_ceph_plugin.Prelude.{
  ℤ, pos, true, false, ◌≡◌, refl, some, none, [], codes, str_eq, if◌then◌else◌,
}
use dovecot_ceph_plugin.Config.{Json, JsonConfig, to_object, to_json}
use dovecot_ceph_plugin.Config.Saving.{written}
use dovecot_ceph_plugin.Librados.Memory.{memory, memory_objects, no_objects, Objects}
use dovecot_ceph_plugin.Librados.Reading.{memory_reads}
use dovecot_ceph_plugin.Config.Loading.{save_object, save_cfg, load_cfg, load_cfg-save_cfg}

abbrev defaults : JsonConfig
defaults = record {
  valid = false;
  user_mapping = codes "false";
  user_ns = codes "users";
  user_suffix = codes "_u";
  public_namespace = codes "public";
  mail_attributes = codes "MGIOPZVBU";
  update_attributes = codes "false";
  updateable_attributes = codes "B";
  metadata_storage_module = codes "default";
  metadata_storage_attribute = codes "ima";
}

abbrev one_object : Json
one_object = record {
  json_loads = λ s. if str_eq s (codes "{}") then some (to_object defaults) else none;
  json_dumps = λ m. codes "{}";
}

abbrev saved : ℤ × Objects
saved = save_cfg memory one_object (some (codes "config")) (codes "rbox_cfg") defaults no_objects

load_cfg-save_cfg_example :
    load_cfg memory one_object
      (some (codes "config"))
      (codes "rbox_cfg")
      (record defaults { user_ns = [] })
      saved.1
    ≡ some (pos 0, written true defaults, saved.1)
unfolding save_cfg save_object to_json
load_cfg-save_cfg_example =
    load_cfg-save_cfg memory memory_objects memory_reads one_object (codes "config")
      (codes "rbox_cfg") defaults (record defaults { user_ns = [] }) no_objects refl refl refl refl
