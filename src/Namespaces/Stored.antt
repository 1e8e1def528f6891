-- ===== src/Namespaces/Stored.antt =====
-- src/librmb/rados-dovecot-ceph-cfg-impl.h: the configuration that the namespace manager works on, over
-- the objects of librados.
use dovecot_ceph_plugin.Prelude.{
  ℕ, zero, suc, ℤ, minus_one, is_neg, int_eq, Bool, true, false, not, ◌&&◌, ◌||◌, ◌≡◌, refl, ap,
  ◌∙◌, Option, none, some, Text, codes, str_eq, arith, Bool-cases, inl, inr,
}
use dovecot_ceph_plugin.Librados.{Librados}
use dovecot_ceph_plugin.Librados.Objects.{content_of}
use dovecot_ceph_plugin.Librados.Laws.{ObjectLaws, ReadLaws, WriteLaws}
use dovecot_ceph_plugin.Config.{JsonConfig}
use dovecot_ceph_plugin.Config.Loading.{not_found, read_tries, read_object, save_object}
use dovecot_ceph_plugin.Namespaces.{Config}
use dovecot_ceph_plugin.Namespaces.Entries.{StoreLaws}

-- The io context with a namespace in force, where there is one.
abbrev pub in_namespace : (L : Librados) → Option L.IoCtx → Text → Option L.IoCtx
in_namespace L none ns = none
in_namespace L (some c) ns = some (L.set_namespace ns c)

-- The configuration's own part of the state is the namespace that its io context has; the io context
-- may be missing. Both parts of the configuration have to be valid.
abbrev pub ceph_cfg : (L : Librados) → Option L.IoCtx → Bool → JsonConfig → Config
ceph_cfg L io_ctx dovecot_cfg_valid rados_cfg = record {
  State = Text × L.State;
  is_config_valid = λ s. dovecot_cfg_valid && rados_cfg.valid;
  is_user_mapping = λ s. str_eq rados_cfg.user_mapping (codes "true");
  get_user_ns = λ s. rados_cfg.user_ns;
  set_io_ctx_namespace = λ ns s. (ns, s.1);
  read_object = λ uid s.
      let (ret, buffer, s1) = read_object L (in_namespace L io_ctx s.0) uid s.1 in
      (ret, buffer, (s.0, s1));
  save_object = λ uid v s.
      let (ret, s1) = save_object L (in_namespace L io_ctx s.0) uid v s.1 in (ret, (s.0, s1));
}

module _ (L : Librados) (w : ObjectLaws L) (r : ReadLaws L w) (q : WriteLaws L w) where
  pub read_tries-keeps :
      (n : ℕ) (ret_read : ℤ) (c : L.IoCtx) (oid : Text) (s : L.State)
      → w.object (read_tries L n ret_read c oid s).2 ≡ w.object s
  unfolding read_tries
  read_tries-keeps zero ret_read c oid s = refl
  read_tries-keeps (suc n) ret_read c oid s =
      elim (Bool-cases (not (is_neg (L.read c oid s).0) || int_eq (L.read c oid s).0 not_found)) [
        | inl e ↦ rw (e, read_tries) (q.read_keeps c oid s)
        | inr e ↦
            rw (e, read_tries)
              (read_tries-keeps n (L.read c oid s).0 c oid (L.read c oid s).2
                ∙ q.read_keeps c oid s)
      ]

  -- Where one of the tries succeeds, the bytes of the object are read.
  pub read_tries-gives :
      (n : ℕ) (ret_read : ℤ) (c : L.IoCtx) (oid : Text) (s : L.State)
      → is_neg ret_read ≡ true
      → is_neg (read_tries L n ret_read c oid s).0 ≡ false
      → (read_tries L n ret_read c oid s).1 ≡ content_of (w.object s c oid)
  unfolding read_tries
  read_tries-gives zero ret_read c oid s neg h = absurd (ground arith)
  read_tries-gives (suc n) ret_read c oid s neg h =
      elim (Bool-cases (not (is_neg (L.read c oid s).0) || int_eq (L.read c oid s).0 not_found)) [
        | inl e ↦ rw (e, read_tries) (r.read_ok c oid s (rw (e, read_tries) at h))
        | inr e ↦
            rw (e, read_tries)
              (read_tries-gives n (L.read c oid s).0 c oid (L.read c oid s).2 (ground arith)
                  (rw (e, read_tries) at h)
                ∙ ap (λ o. content_of (o c oid)) (q.read_keeps c oid s))
      ]

  module _ (io_ctx : L.IoCtx) (dovecot_cfg_valid : Bool) (rados_cfg : JsonConfig) where
    -- The configuration over the objects does what the namespace manager relies on.
    unfoldable pub ceph_laws : StoreLaws (ceph_cfg L (some io_ctx) dovecot_cfg_valid rados_cfg)
    unfolding read_object save_object
    ceph_laws = record {
      stored = λ s ns oid. content_of (w.object s.1 (L.set_namespace ns io_ctx) oid);
      namespace = λ s. s.0;
      namespace_set = λ ns s. refl;
      set_keeps = λ ns s. refl;
      set_user_ns = λ ns s. refl;
      read_gives =
          λ uid s h. read_tries-gives 10 minus_one (L.set_namespace s.0 io_ctx) uid s.1 refl h;
      read_keeps = λ uid s.
          ap (λ o (ns oid : Text). content_of (o (L.set_namespace ns io_ctx) oid))
            (read_tries-keeps 10 minus_one (L.set_namespace s.0 io_ctx) uid s.1);
      read_user_ns = λ uid s. refl;
      save_gives = λ uid v s h. r.write_full_ok (L.set_namespace s.0 io_ctx) uid v s.1 h;
      save_keeps = λ uid v j s h.
          ap content_of (q.write_full_other (L.set_namespace s.0 io_ctx) uid j v s.1 h);
      save_failed = λ uid v j s h.
          ap (λ o. content_of (o (L.set_namespace s.0 io_ctx) j))
            (q.write_full_failed (L.set_namespace s.0 io_ctx) uid v s.1 h);
      save_user_ns = λ uid v s. refl;
    }
