-- ===== src/Settings/Reading.antt =====
-- What the settings are after they were read.
use dovecot_ceph_plugin.Prelude.{
  Bool, true, false, ◌&&◌, ◌≡◌, refl, sym, ap, Bool-cases, inl, inr, Option, none, some, [], ◌∷◌,
  Text, Map, codes, c_str, str_eq, str_eq_iff, lookup, lookup-insert, arith, if◌then◌else◌,
}
use dovecot_ceph_plugin.SaveLog.File.{RadosSaveLog, set_save_log_file, open_log}
use dovecot_ceph_plugin.Settings.{
  RadosConfig, update_metadata, read_settings, read_plugin_settings, read_plugin_configuration, get,
}

abbrev is_some : Option Text → Bool
is_some none = false
is_some (some a) = true

-- The value of a key, where it is among those that are looked up.
abbrev chosen : Option Text → Bool → Option Text → Option Text
chosen none among old = old
chosen (some value) among none = none
chosen (some value) true (some old) = some (c_str value)
chosen (some value) false (some old) = some old

chosen_twice :
    (given : Option Text) (among : Bool) (old : Option Text)
    → chosen given among (chosen given true old) ≡ chosen given true old
chosen_twice none among old = refl
chosen_twice (some value) among none = refl
chosen_twice (some value) true (some old) = refl
chosen_twice (some value) false (some old) = refl

chosen_other : (given old : Option Text) → chosen given false old ≡ old
chosen_other none old = refl
chosen_other (some value) none = refl
chosen_other (some value) (some old) = refl

update_metadata-lookup :
    (key j : Text) (given : Option Text) (m : Map Text)
    → lookup j (update_metadata key given m) ≡ chosen given (str_eq key j) (lookup j m)
unfolding update_metadata
update_metadata-lookup key j none m = refl
update_metadata-lookup key j (some value) m = elim (Bool-cases (str_eq key j)) [
  | inl e ↦ ground (arith, lookup-insert key j (c_str value) m, (str_eq_iff key j).0 e)
  | inr e ↦ ground (arith, lookup-insert key j (c_str value) m)
]

module _ (getenv : Text → Option Text) where
  read_settings-lookup :
      (j : Text) (todo m : Map Text)
      → lookup j (read_settings getenv todo m)
        ≡ chosen (getenv j) (is_some (lookup j todo)) (lookup j m)
  unfolding read_settings lookup
  read_settings-lookup j [] m = sym (chosen_other (getenv j) (lookup j m))
  read_settings-lookup j ((key, value) ∷ rest) m =
      let m1 = update_metadata key (getenv key) m in
      elim (Bool-cases (str_eq key j)) [
        | inl e ↦
            rw
              (
                read_settings-lookup j rest m1,
                update_metadata-lookup key j (getenv key) m,
                e,
                ap getenv ((str_eq_iff key j).0 e),
              )
              (chosen_twice (getenv j) (is_some (lookup j rest)) (lookup j m))
        | inr e ↦
            rw
              (
                read_settings-lookup j rest m1,
                update_metadata-lookup key j (getenv key) m,
                e,
                chosen_other (getenv key) (lookup j m),
              )
              refl
      ]

  -- What a setting is once Dovecot's settings are read: the user's value where the setting is known and
  -- one is given, otherwise what it was; a known one stays known and no other is added. Where both
  -- configurations are valid already, nothing is read. The result is valid, and where the settings
  -- were read the save log has the file that they name.
  pub read_plugin_configuration-lookup :
      (opens rados_valid : Bool) (c : RadosConfig) (name : Text) (log : RadosSaveLog) (j : Text)
      → let (c1, name1, log1) = read_plugin_configuration opens rados_valid getenv c name log in
        (lookup j c1.config ≡ (
          if c.is_valid && rados_valid then lookup j c.config else elim (lookup j c.config) [
            | none ↦ none
            | some default ↦ elim (getenv j) [
              | none ↦ some default
              | some value ↦ some (c_str value)
            ]
          ]))
        × (c1.is_valid ≡ true)
        × (log1.logfile ≡ (
            if c.is_valid && rados_valid
            then log.logfile
            else get (codes "rados_save_log") c1.config))
  unfolding read_plugin_configuration read_plugin_settings open_log set_save_log_file
  read_plugin_configuration-lookup opens rados_valid c name log j =
      (ground (arith, read_settings-lookup j c.config c.config), ground arith, ground arith)
