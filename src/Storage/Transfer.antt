-- ===== src/Storage/Transfer.antt =====
-- src/librmb/rados-storage-impl.cpp: copying and moving an object between namespaces.
use dovecot_ceph_plugin.Prelude.{
  ℤ, minus_one, is_neg, is_zero, Bool, false, not, ◌&&◌, ◌||◌, List, ◌∷◌, Text, str_eq,
  if◌then◌else◌,
}
use dovecot_ceph_plugin.Librados.{Librados, WriteStep, mtime, copy_from}
use dovecot_ceph_plugin.Metadata.{RadosMetadata}
use dovecot_ceph_plugin.Storage.{Storage, aio_operate, xattr_steps}

module _ (L : Librados) where
  -- `copy`, at the time `now`. The local `dest_io_ctx` shares the handle of the storage's, so its
  -- namespace is that of the destination afterwards.
  unfoldable pub copy :
      Text
      → Text
      → Text
      → Text
      → List RadosMetadata
      → ℤ
      → Storage L
      → L.State
      → ℤ × Storage L × L.State
  copy src_oid src_ns dest_oid dest_ns to_update now st s =
      if not st.is_connected || not st.io_ctx_created
      then (minus_one, st, s)
      else let same = str_eq src_ns dest_ns in
        let src_io_ctx = if same then st.io_ctx else L.set_namespace src_ns st.io_ctx in
        let dest_io_ctx = if same then st.io_ctx else L.set_namespace dest_ns st.io_ctx in
        let (ret, done, s') =
          aio_operate L dest_io_ctx dest_oid
            (copy_from src_oid src_io_ctx ∷ mtime now ∷ xattr_steps L to_update) st s in
        (
          (if is_neg ret then ret else done),
          record st { io_ctx = L.set_namespace dest_ns dest_io_ctx },
          s',
        )

  -- The end of `move`, from the operation on the destination on.
  unfoldable pub move_by :
      List (WriteStep L.IoCtx)
      → Bool
      → L.IoCtx
      → Text
      → L.IoCtx
      → Text
      → Text
      → Storage L
      → L.State
      → ℤ × Storage L × L.State
  move_by write_op removes src_io_ctx src_oid dest_io_ctx dest_oid dest_ns st s =
      let (ret, done, s1) = aio_operate L dest_io_ctx dest_oid write_op st s in
      let st' : Storage L = record st { io_ctx = L.set_namespace dest_ns dest_io_ctx } in
      if is_neg ret
      then (ret, st', s1)
      else if removes && is_zero done
      then (let (ret2, s2) = L.remove src_io_ctx src_oid s1 in (ret2, st', s2))
      else (done, st', s1)

  unfoldable pub move :
      Text
      → Text
      → Text
      → Text
      → List RadosMetadata
      → Bool
      → ℤ
      → Storage L
      → L.State
      → ℤ × Storage L × L.State
  move src_oid src_ns dest_oid dest_ns to_update delete_source now st s =
      if not st.is_connected || not st.io_ctx_created
      then (minus_one, st, s)
      else if str_eq src_ns dest_ns
      then (let (ret, size, t, s1) = L.stat st.io_ctx src_oid s in
          if is_neg ret
          then (ret, st, s1)
          else move_by (mtime now ∷ xattr_steps L to_update) false st.io_ctx src_oid st.io_ctx
              dest_oid dest_ns st s1)
      else let src_io_ctx = L.set_namespace src_ns st.io_ctx in
        move_by (copy_from src_oid src_io_ctx ∷ mtime now ∷ xattr_steps L to_update) delete_source
          src_io_ctx src_oid (L.set_namespace dest_ns st.io_ctx) dest_oid dest_ns st s
