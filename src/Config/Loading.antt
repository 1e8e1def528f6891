-- ===== src/Config/Loading.antt =====
-- src/librmb/rados-ceph-config.cpp: reading the configuration from its object and writing it.
use dovecot_ceph_plugin.Prelude.{
  ℕ, zero, suc, ℤ, pos, minus_one, negsuc, is_neg, int_eq, true, false, not, ◌||◌, ◌≡◌, refl, ◌∙◌,
  Option, none, some, [], Text, c_str, arith, if◌then◌else◌,
}
use dovecot_ceph_plugin.Librados.{Librados}
use dovecot_ceph_plugin.Librados.Laws.{ObjectLaws, ReadLaws}
use dovecot_ceph_plugin.Config.{Json, JsonConfig, to_object, to_json, from_json}
use dovecot_ceph_plugin.Config.Saving.{written, from_json-to_json}

-- `-ENOENT`.
abbrev pub not_found : ℤ
not_found = negsuc 1

module _ (L : Librados) where
  -- `none` is the io context that was never set.
  unfoldable pub save_object : Option L.IoCtx → Text → Text → L.State → ℤ × L.State
  save_object none oid buffer s = (minus_one, s)
  save_object (some io_ctx) oid buffer s = L.write_full io_ctx oid buffer s

  -- With `n` tries left; the buffer is cleared after a failed one.
  unfoldable pub read_tries : ℕ → ℤ → L.IoCtx → Text → L.State → ℤ × Text × L.State
  read_tries zero ret_read io_ctx oid s = (ret_read, [], s)
  read_tries (suc n) ret_read io_ctx oid s =
      let (ret, buffer, s1) = L.read io_ctx oid s in
      elim (not (is_neg ret) || int_eq ret not_found) [
        | true ↦ (ret, buffer, s1)
        | false ↦ read_tries n ret io_ctx oid s1
      ]

  unfoldable pub read_object : Option L.IoCtx → Text → L.State → ℤ × Text × L.State
  read_object none oid s = (minus_one, [], s)
  read_object (some io_ctx) oid s = read_tries 10 minus_one io_ctx oid s

  module _ (J : Json) (io_ctx : Option L.IoCtx) (cfg_object_name : Text) where
    unfoldable pub save_cfg : JsonConfig → L.State → ℤ × L.State
    save_cfg c s =
        let (ret, s1) = save_object io_ctx cfg_object_name (to_json J c) s in
        ((if is_neg ret then minus_one else pos 0), s1)

    -- The configuration counts as valid before it is read from the JSON text.
    unfoldable pub load_cfg : JsonConfig → L.State → Option (ℤ × JsonConfig × L.State)
    load_cfg c s =
        if c.valid
        then some (pos 0, c, s)
        else let (ret, buffer, s1) = read_object io_ctx cfg_object_name s in
          if is_neg ret
          then some (ret, c, s1)
          else elim (from_json J buffer (record c { valid = true })) [
            | none ↦ none
            | some (success, c1) ↦ some ((if success then pos 0 else minus_one), c1, s1)
          ]

    -- `RadosDovecotCephCfgImpl::save_default_rados_config`.
    unfoldable pub save_default_rados_config : JsonConfig → L.State → ℤ × JsonConfig × L.State
    save_default_rados_config c s =
        let (ret, s1) = save_cfg c s in
        ((if is_neg ret then minus_one else pos 0), record c { valid = not (is_neg ret) }, s1)

module _ (L : Librados) (w : ObjectLaws L) (r : ReadLaws L w) (J : Json) (io_ctx : L.IoCtx)
    (cfg_object_name : Text) where
  -- A first try that is answered.
  read_tries_first :
      (n : ℕ) (ret_read : ℤ) (s : L.State)
      → is_neg (L.read io_ctx cfg_object_name s).0 ≡ false
      → read_tries L (suc n) ret_read io_ctx cfg_object_name s ≡ L.read io_ctx cfg_object_name s
  unfolding read_tries
  read_tries_first n ret_read s h = rw (read_tries, h) refl

  read_object_first :
      (s : L.State)
      → is_neg (L.read io_ctx cfg_object_name s).0 ≡ false
      → read_object L (some io_ctx) cfg_object_name s ≡ L.read io_ctx cfg_object_name s
  unfolding read_object
  read_object_first s h = read_tries_first 9 minus_one s h

  -- What is read is what was written.
  read-save_cfg :
      (c : JsonConfig) (s : L.State)
      → is_neg (save_cfg L J (some io_ctx) cfg_object_name c s).0 ≡ false
      → is_neg (L.read io_ctx cfg_object_name (save_cfg L J (some io_ctx) cfg_object_name c s).1).0
        ≡ false
      → (L.read io_ctx cfg_object_name (save_cfg L J (some io_ctx) cfg_object_name c s).1).1
        ≡ to_json J c
  unfolding save_cfg save_object
  read-save_cfg c s saved answered =
      r.read_ok io_ctx cfg_object_name _ answered
      ∙ r.write_full_ok io_ctx cfg_object_name (to_json J c) s (ground arith)

  -- With a JSON library that loads the object it has dumped, and a store that answers: a configuration
  -- that was saved without an error is loaded again by a reader that has none, each setting up to its
  -- first NUL.
  pub load_cfg-save_cfg :
      (c d : JsonConfig) (s : L.State)
      → J.json_loads (c_str (J.json_dumps (to_object c))) ≡ some (to_object c)
      → d.valid ≡ false
      → is_neg (save_cfg L J (some io_ctx) cfg_object_name c s).0 ≡ false
      → is_neg (L.read io_ctx cfg_object_name (save_cfg L J (some io_ctx) cfg_object_name c s).1).0
        ≡ false
      → load_cfg L J
          (some io_ctx)
          cfg_object_name
          d
          (save_cfg L J (some io_ctx) cfg_object_name c s).1
        ≡ some (
          pos 0,
          written true c,
          (L.read io_ctx cfg_object_name (save_cfg L J (some io_ctx) cfg_object_name c s).1).2,
        )
  unfolding load_cfg
  load_cfg-save_cfg c d s h fresh saved answered =
      let t = (save_cfg L J (some io_ctx) cfg_object_name c s).1 in
      let first = read_object_first t answered in
      let parsed : from_json J (L.read io_ctx cfg_object_name t).1 (record d { valid = true })
          ≡ some (true, written true c) =
        rw (read-save_cfg c s saved answered)
          (from_json-to_json J c (record d { valid = true }) h) in
      ground arith
