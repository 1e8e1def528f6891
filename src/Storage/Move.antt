-- ===== src/Storage/Move.antt =====
-- Moving and copying an object to another namespace.
use dovecot_ceph_plugin.Prelude.{
  ℤ, is_neg, is_zero, true, false, ◌≡◌, ◌≢◌, refl, sym, ◌∙◌, ◌⊎◌, inl, inr, Bool-cases, Option,
  none, some, List, [], ◌∷◌, Text, Map, arith, str_eq, str_eq_iff, insert, c_str,
}
use dovecot_ceph_plugin.Metadata.{RadosMetadata}
use dovecot_ceph_plugin.Librados.{Librados, WriteStep, mtime, copy_from}
use dovecot_ceph_plugin.Librados.Objects.{Object, apply_steps, apply_step}
use dovecot_ceph_plugin.Librados.Laws.{ObjectLaws}
use dovecot_ceph_plugin.Storage.{Storage, aio_operate, xattr_steps}
use dovecot_ceph_plugin.Storage.Transfer.{move, move_by, copy}

-- Attributes after an update.
unfoldable pub updated : List RadosMetadata → Map Text → Map Text
updated [] m = m
updated (u ∷ us) m = updated us (insert (c_str u.key) u.bl m)

-- A copy of an object, made at the time `now`.
unfoldable pub copy_of : List RadosMetadata → ℤ → Object → Object
copy_of to_update now x = record x { xattrs = updated to_update x.xattrs; changed_at = now }

distinct : (a b : Text) → a ≢ b → str_eq a b ≡ false
distinct a b ne = elim (Bool-cases (str_eq a b)) [
  | inl same ↦ absurd (ne ((str_eq_iff a b).0 same))
  | inr e ↦ e
]

module _ (L : Librados) (w : ObjectLaws L) where
  apply_steps-xattr_steps :
      (find : L.IoCtx → Text → Option Object) (us : List RadosMetadata) (y : Object)
      → apply_steps find (xattr_steps L us) y ≡ some (record y { xattrs = updated us y.xattrs })
  unfolding apply_steps apply_step updated
  apply_steps-xattr_steps find [] y = refl
  apply_steps-xattr_steps find (u ∷ us) y = apply_steps-xattr_steps find us _

  apply_steps-copy :
      (find : L.IoCtx → Text → Option Object) (c : L.IoCtx) (oid : Text) (us : List RadosMetadata)
      (now : ℤ) (x y : Object)
      → find c oid ≡ some x
      → apply_steps find (copy_from oid c ∷ mtime now ∷ xattr_steps L us) y
        ≡ some (copy_of us now x)
  unfolding apply_steps apply_step copy_of
  apply_steps-copy find c oid us now x y h = rw (h, apply_steps) (apply_steps-xattr_steps find us _)

  module _ (st : Storage L) (src_oid src_ns dest_oid dest_ns : Text)
      (to_update : List RadosMetadata) (now : ℤ) (connected : st.is_connected ≡ true)
      (created : st.io_ctx_created ≡ true) (apart : src_ns ≢ dest_ns) where
    abbrev pub src_io_ctx : L.IoCtx
    src_io_ctx = L.set_namespace src_ns st.io_ctx

    abbrev pub dest_io_ctx : L.IoCtx
    dest_io_ctx = L.set_namespace dest_ns st.io_ctx

    abbrev operation : List (WriteStep L.IoCtx)
    operation = copy_from src_oid src_io_ctx ∷ mtime now ∷ xattr_steps L to_update

    -- Where an object was moved: it is gone from the source and a copy stands at the destination, or
    -- an error is reported and the source is untouched.
    pub Moved : Object → ℤ × Storage L × L.State → Type 0
    Moved x (ret, st', s') =
        ((is_zero ret ≡ true)
          × ((w.object s' dest_io_ctx dest_oid ≡ some (copy_of to_update now x))
              × (w.object s' src_io_ctx src_oid ≡ none)))
        ⊎ ((is_zero ret ≡ false) × (w.object s' src_io_ctx src_oid ≡ some x))

    dest_copy :
        (s : L.State) (x : Object)
        → w.object s src_io_ctx src_oid ≡ some x
        → is_neg (L.aio_operate dest_io_ctx dest_oid operation s).0 ≡ false
        → is_zero (L.aio_operate dest_io_ctx dest_oid operation s).1 ≡ true
        → w.object (L.aio_operate dest_io_ctx dest_oid operation s).2 dest_io_ctx dest_oid
          ≡ some (copy_of to_update now x)
    dest_copy s x h p q =
        w.aio_ok dest_io_ctx dest_oid operation s p q
        ∙ apply_steps-copy (w.object s) src_io_ctx src_oid to_update now x _ h

    src_kept :
        (s : L.State) (x : Object)
        → w.object s src_io_ctx src_oid ≡ some x
        → w.object (L.aio_operate dest_io_ctx dest_oid operation s).2 src_io_ctx src_oid ≡ some x
    src_kept s x h =
        w.aio_apart dest_io_ctx src_io_ctx dest_oid src_oid operation s
          (w.apart_namespaces st.io_ctx dest_ns src_ns dest_oid src_oid (λ e. apart (sym e)))
        ∙ h

    dest_kept :
        (s1 : L.State)
        → w.object (L.remove src_io_ctx src_oid s1).1 dest_io_ctx dest_oid
          ≡ w.object s1 dest_io_ctx dest_oid
    dest_kept s1 =
        w.remove_apart src_io_ctx dest_io_ctx src_oid dest_oid s1
          (w.apart_namespaces st.io_ctx dest_ns src_ns dest_oid src_oid (λ e. apart (sym e)))

    -- A connected storage, two namespaces, an object at the source, and a store that may refuse any of
    -- the calls: moving the object with its source deleted either succeeds, with the copy (its bytes,
    -- its omap, its updated attributes) at the destination and nothing at the source, or reports
    -- an error and leaves the source as it was.
    pub move-Moved :
        (s : L.State) (x : Object)
        → w.object s src_io_ctx src_oid ≡ some x
        → Moved x (move L src_oid src_ns dest_oid dest_ns to_update true now st s)
    unfolding move move_by aio_operate Moved
    move-Moved s x h =
        rw (connected, created, distinct src_ns dest_ns apart)
          (ground (
            arith,
            dest_copy s x h,
            src_kept s x h,
            dest_kept (L.aio_operate dest_io_ctx dest_oid operation s).2,
            w.remove_ok src_io_ctx src_oid (L.aio_operate dest_io_ctx dest_oid operation s).2,
            w.remove_failed src_io_ctx src_oid (L.aio_operate dest_io_ctx dest_oid operation s).2,
          ))

    -- A connected storage, two namespaces, an object at the source, and a store that may refuse any of
    -- the calls: a copy that does not report an error stands at the destination, and the source is
    -- as it was whatever is reported.
    pub copy_lem :
        (s : L.State) (x : Object)
        → w.object s src_io_ctx src_oid ≡ some x
        → ((is_zero (copy L src_oid src_ns dest_oid dest_ns to_update now st s).0 ≡ false)
            ⊎ (w.object
                  (copy L src_oid src_ns dest_oid dest_ns to_update now st s).2
                  dest_io_ctx
                  dest_oid
                ≡ some (copy_of to_update now x)))
          × (w.object
                (copy L src_oid src_ns dest_oid dest_ns to_update now st s).2
                src_io_ctx
                src_oid
              ≡ some x)
    unfolding copy aio_operate
    copy_lem s x h =
        rw (connected, created, distinct src_ns dest_ns apart)
          (ground (arith, dest_copy s x h), src_kept s x h)
