-- ===== src/Settings.antt =====
-- src/librmb/rados-dovecot-config.cpp and rados-dovecot-config.h: the settings that Dovecot's
-- configuration gives to the plugin.
pub mod Reading
pub mod Tests
use dovecot_ceph_plugin.Prelude.{
  ℤ, Bool, true, false, ◌&&◌, Option, none, some, List, [], ◌∷◌, Text, Map, codes, c_str, str_eq,
  stoi, lookup, insert, if◌then◌else◌,
}
use dovecot_ceph_plugin.SaveLog.File.{RadosSaveLog, set_save_log_file, open_log}

pub record RadosConfig : Type 0 where
  pub config : Map Text
  pub is_valid : Bool

-- The constructor.
unfoldable pub new_config : RadosConfig
new_config =
    let set = λ (key value : Text) (m : Map Text). insert key value m in
    record {
      config = set (codes "rbox_object_search_threads") (codes "4") (
          set (codes "rbox_object_search_method") (codes "0") (
            set (codes "rbox_write_method") (codes "0") (
              set (codes "rbox_chunk_size") (codes "10240") (
                set (codes "rbox_ceph_write_chunks") (codes "false") (
                  set (codes "rbox_ceph_aio_wait_for_safe_and_cb") (codes "false") (
                    set (codes "rados_check_empty_mailboxes") (codes "false") (
                      set (codes "rados_save_log") (codes "") (
                        set (codes "rbox_bugfix_cephfs_21652") (codes "false") (
                          set (codes "rados_user_name") (codes "client.admin") (
                            set (codes "rbox_cluster_name") (codes "ceph") (
                              set (codes "rbox_cfg_object_name") (codes "rbox_cfg") (
                                set (codes "rbox_index_pool_name") (codes "object_recovery") (
                                  set (codes "rbox_pool_name") (codes "mail_storage")
                                    [])))))))))))));
      is_valid = false;
    }

-- A value is a C string, `none` the null pointer. Only a key that is known is set.
unfoldable pub update_metadata : Text → Option Text → Map Text → Map Text
update_metadata key none m = m
update_metadata key (some value) m = elim (lookup key m) [
  | none ↦ m
  | some old ↦ insert key (c_str value) m
]

unfoldable pub update_pool_name_metadata : Option Text → Map Text → Map Text
update_pool_name_metadata none m = m
update_pool_name_metadata (some value) m = insert (codes "rbox_pool_name") (c_str value) m

-- `config[key]`, the empty text where there is no value.
unfoldable pub get : Text → Map Text → Text
get key m = elim (lookup key m) [ none ↦ [] | some value ↦ value ]

abbrev pub is_true : Text → Map Text → Bool
is_true key m = str_eq (get key m) (codes "true")

pub is_ceph_posix_bugfix_enabled : Map Text → Bool
is_ceph_posix_bugfix_enabled m = is_true (codes "rbox_bugfix_cephfs_21652") m

pub is_rbox_check_empty_mailboxes : Map Text → Bool
is_rbox_check_empty_mailboxes m = is_true (codes "rados_check_empty_mailboxes") m

pub is_ceph_aio_wait_for_safe_and_cb : Map Text → Bool
is_ceph_aio_wait_for_safe_and_cb m = is_true (codes "rbox_ceph_aio_wait_for_safe_and_cb") m

pub is_write_chunks : Map Text → Bool
is_write_chunks m = is_true (codes "rbox_ceph_write_chunks") m

-- The numbers, of `RadosDovecotCephCfgImpl`; reading a number can throw.
unfoldable pub get_write_method : Map Text → Option ℤ
get_write_method m = stoi (get (codes "rbox_write_method") m)

unfoldable pub get_chunk_size : Map Text → Option ℤ
get_chunk_size m = stoi (get (codes "rbox_chunk_size") m)

unfoldable pub get_object_search_method : Map Text → Option ℤ
get_object_search_method m = stoi (get (codes "rbox_object_search_method") m)

unfoldable pub get_object_search_threads : Map Text → Option ℤ
get_object_search_threads m = stoi (get (codes "rbox_object_search_threads") m)

-- `read_plugin_configuration` of src/storage-rbox/rbox-storage.cpp: every key of the map is looked up in
-- the user's settings.
unfoldable pub read_settings : (Text → Option Text) → Map Text → Map Text → Map Text
read_settings getenv [] m = m
read_settings getenv ((key, value) ∷ rest) m =
    read_settings getenv rest (update_metadata key (getenv key) m)

unfoldable pub read_plugin_settings : Bool → (Text → Option Text) → RadosConfig → RadosConfig
read_plugin_settings rados_valid getenv c =
    if c.is_valid && rados_valid
    then c
    else record { config = read_settings getenv c.config c.config; is_valid = true }

-- The settings, the name of the object that the other configuration is read from, and the save log, which
-- is opened (`opens` says whether its file can be). `rados_valid` says whether the other
-- configuration was read already.
unfoldable pub read_plugin_configuration :
    Bool
    → Bool
    → (Text → Option Text)
    → RadosConfig
    → Text
    → RadosSaveLog
    → RadosConfig × Text × RadosSaveLog
read_plugin_configuration opens rados_valid getenv c cfg_object_name log =
    let c1 = read_plugin_settings rados_valid getenv c in
    if c.is_valid && rados_valid then (c, cfg_object_name, log) else (
      c1,
      get (codes "rbox_cfg_object_name") c1.config,
      (open_log opens (set_save_log_file (get (codes "rados_save_log") c1.config) log)).1,
    )
