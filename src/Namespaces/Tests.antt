-- ===== src/Namespaces/Tests.antt =====
-- Runs of the namespace manager on objects in memory.
use dovecot_ceph_plugin.Prelude.{true, ◌≡◌, ◌⊎◌, refl, some, [], ◌∷◌, Text, codes, lookup, arith}
use dovecot_ceph_plugin.Librados.Objects.{new_object}
use dovecot_ceph_plugin.Librados.Memory.{memory, memory_objects, no_objects, Objects, store}
use dovecot_ceph_plugin.Librados.Reading.{memory_reads, memory_writes}
use dovecot_ceph_plugin.Config.{JsonConfig}
use dovecot_ceph_plugin.Config.Loading.{read_tries, read_object, save_object}
use dovecot_ceph_plugin.Namespaces.{Config, lookup_key, add_namespace_entry}
use dovecot_ceph_plugin.Namespaces.Entries.{
  IsCurrent, lookup_key-IsCurrent, lookup_key-add_namespace_entry,
}
use dovecot_ceph_plugin.Namespaces.Stored.{ceph_cfg, ceph_laws}

abbrev settings : JsonConfig
settings = record {
  valid = true;
  user_mapping = codes "true";
  user_ns = codes "users";
  user_suffix = codes "_u";
  public_namespace = codes "public";
  mail_attributes = codes "MGF";
  update_attributes = codes "true";
  updateable_attributes = codes "F";
  metadata_storage_module = codes "default";
  metadata_storage_attribute = codes "ima";
}

abbrev config : Config
config = ceph_cfg memory (some (codes "mail")) true settings

-- Amy's entry in the namespace of the users, and another object of that name elsewhere.
abbrev entries : Objects
entries =
    store (codes "users") (codes "amy") (some (record new_object { content = codes "ns1" }))
      (store [] (codes "amy") (some (record new_object { content = codes "else" })) no_objects)

abbrev empty_namespace : Text
empty_namespace = []

abbrev no_namespace : Text × Objects
no_namespace = (empty_namespace, entries)

nothing-IsCurrent :
    IsCurrent config
      (ceph_laws memory memory_objects memory_reads memory_writes (codes "mail") true settings)
      []
      no_namespace
unfolding IsCurrent lookup
nothing-IsCurrent uid v h = absurd (ground arith)

lookup_key-IsCurrent_example :
    IsCurrent config
      (ceph_laws memory memory_objects memory_reads memory_writes (codes "mail") true settings)
      ((codes "amy", codes "ns1") ∷ [])
      no_namespace
    × ((empty_namespace ≡ empty_namespace) ⊎ (no_namespace ≡ no_namespace))
unfolding ceph_laws read_object read_tries lookup_key IsCurrent lookup
    dovecot_ceph_plugin.Namespaces.fetch dovecot_ceph_plugin.Prelude.insert
lookup_key-IsCurrent_example =
    lookup_key-IsCurrent config
      (ceph_laws memory memory_objects memory_reads memory_writes (codes "mail") true settings) true
      (codes "amy") [] no_namespace nothing-IsCurrent

lookup_key-add_namespace_entry_example :
    lookup_key config true
      (codes "bob")
      (add_namespace_entry config true (codes "bob") (some (codes "ns2")) [] no_namespace).1
      (add_namespace_entry config true (codes "bob") (some (codes "ns2")) [] no_namespace).2
    ≡ (
      some (codes "ns2"),
      (add_namespace_entry config true (codes "bob") (some (codes "ns2")) [] no_namespace).1,
      (add_namespace_entry config true (codes "bob") (some (codes "ns2")) [] no_namespace).2,
    )
unfolding add_namespace_entry save_object
lookup_key-add_namespace_entry_example =
    lookup_key-add_namespace_entry config (codes "bob") (codes "ns2") (some (codes "ns2")) []
      no_namespace refl refl refl refl
