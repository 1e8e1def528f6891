-- ===== src/Storage/Recovery.antt =====
-- src/librmb/rados-storage-impl.cpp: the recovery index, an object that lists the mails of a namespace.
use dovecot_ceph_plugin.Prelude.{
  ◌^◌, ℤ, is_neg, ◌||◌, [], Text, TextSet, length, ◌++◌, leb, ◌==◌, if◌then◌else◌, c_str,
}
use dovecot_ceph_plugin.Librados.{Librados}
use dovecot_ceph_plugin.Util.{convert_to_ceph_index, convert_set_to_ceph_index, ceph_index_to_set}
use dovecot_ceph_plugin.Storage.{Storage}

module _ (L : Librados) where
  pub ceph_index_append : Text → Storage L → L.State → ℤ × L.State
  ceph_index_append oid st s =
      let bl = convert_to_ceph_index oid in
      L.append_data st.recovery_io_ctx st.nspace bl (length bl) s

  pub ceph_index_append_all : TextSet → Storage L → L.State → ℤ × L.State
  ceph_index_append_all oids st s =
      let bl = convert_set_to_ceph_index oids in
      L.append_data st.recovery_io_ctx st.nspace bl (length bl) s

  unfoldable pub ceph_index_overwrite : TextSet → Storage L → L.State → ℤ × L.State
  ceph_index_overwrite oids st s =
      L.write_full st.recovery_io_ctx st.nspace (convert_set_to_ceph_index oids) s

  pub ceph_index_delete : Storage L → L.State → ℤ × L.State
  ceph_index_delete st s = L.remove st.recovery_io_ctx st.nspace s

  -- The size is a signed number here. The buffer is passed on as a text that ends at a NUL, which it has
  -- not got itself: `beyond` is what the memory holds after the buffer's last byte.
  unfoldable pub ceph_index_read : Text → Storage L → L.State → TextSet × L.State
  ceph_index_read beyond st s =
      let (found, psize, pmtime, s1) = L.stat st.recovery_io_ctx st.nspace s in
      if psize == 0 || leb (2 ^ 63) psize
      then ([], s1)
      else let (ret, bl, s2) = L.read st.recovery_io_ctx st.nspace s1 in
        (if is_neg ret then [] else ceph_index_to_set (c_str (bl ++ beyond)), s2)
