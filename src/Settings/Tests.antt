-- ===== src/Settings/Tests.antt =====
-- The settings of a user.
use dovecot_ceph_plugin.Prelude.{
  true, false, ◌≡◌, Option, [], none, some, Text, codes, str_eq, lookup, insert, if◌then◌else◌,
}
use dovecot_ceph_plugin.SaveLog.File.{RadosSaveLog}
use dovecot_ceph_plugin.Settings.{new_config, get, read_plugin_configuration}
use dovecot_ceph_plugin.Settings.Reading.{read_plugin_configuration-lookup}

-- The user has a pool of their own, and a setting that the plugin does not know.
abbrev given : Text → Option Text
given key =
    if str_eq key (codes "rbox_pool_name")
    then some (codes "mail_u1")
    else if str_eq key (codes "quota")
    then some (codes "1G")
    else none

abbrev no_log : RadosSaveLog
no_log = record { logfile = []; log_active = false; ofs_open = false; contents = [] }

read_plugin_configuration-lookup_example :
    let (c1, name1, log1) =
      read_plugin_configuration false false given new_config (codes "rbox_cfg") no_log in
    (lookup (codes "rbox_pool_name") c1.config ≡ some (codes "mail_u1"))
    × (c1.is_valid ≡ true)
    × (log1.logfile ≡ get (codes "rados_save_log") c1.config)
unfolding new_config insert lookup
read_plugin_configuration-lookup_example =
    read_plugin_configuration-lookup given false false new_config (codes "rbox_cfg") no_log
      (codes "rbox_pool_name")
