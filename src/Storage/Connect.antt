-- ===== src/Storage/Connect.antt =====
-- src/librmb/rados-storage-impl.cpp: opening and closing the connection to a pool.
use dovecot_ceph_plugin.Prelude.{
  ℤ, pos, minus_one, is_neg, is_zero, stoi, Bool, true, false, ◌&&◌, Option, none, some, Text,
  codes, if◌then◌else◌,
}
use dovecot_ceph_plugin.Librados.{Librados}
use dovecot_ceph_plugin.Storage.{Storage}

-- The calls that the storage makes on its cluster.
pub record ClusterCalls (L : Librados) : Type 0 where
  pub is_connected : L.State → Bool
  pub init : L.State → ℤ × L.State
  -- by the name of the cluster and the user
  pub init_named : Text → Text → L.State → ℤ × L.State
  pub io_ctx_create : Text → L.State → ℤ × L.IoCtx × L.State
  pub recovery_index_io_ctx : Text → L.State → ℤ × L.IoCtx × L.State
  pub get_config_option : Text → L.State → ℤ × Text × L.State
  pub deinit : L.State → L.State
  -- an `IoCtx` that was never set up
  pub no_io_ctx : L.IoCtx

module _ (L : Librados) (K : ClusterCalls L) where
  -- The constructor.
  pub new_storage : L.State → Storage L
  new_storage s = record {
    is_connected = K.is_connected s;
    io_ctx_created = false;
    io_ctx = K.no_io_ctx;
    recovery_io_ctx = K.no_io_ctx;
    nspace = codes "";
    pool_name = codes "";
    max_write_size = pos 10;
    max_object_size = pos 134217728;
  }

  -- The sizes are read as numbers, which can throw.
  read_sizes : Text → Storage L → L.State → Option (ℤ × Storage L × L.State)
  read_sizes poolname st s =
      let (err, write_size, s1) = K.get_config_option (codes "osd_max_write_size") s in
      if is_neg err then some (err, st, s1) else elim (stoi write_size) [
        | none ↦ none
        | some max_write_size ↦
            (let (err2, object_size, s2) = K.get_config_option (codes "osd_max_object_size") s1 in
              if is_neg err2
              then some (err2, record st { max_write_size = max_write_size }, s2)
              else elim (stoi object_size) [
                | none ↦ none
                | some max_object_size ↦ some (
                  pos 0,
                  record st {
                    max_write_size = max_write_size;
                    max_object_size = max_object_size;
                    io_ctx_created = if is_zero err2 then true else st.io_ctx_created;
                    pool_name = poolname;
                  },
                  s2,
                )
              ])
      ]

  pub create_connection : Text → Text → Storage L → L.State → Option (ℤ × Storage L × L.State)
  create_connection poolname index_pool st s =
      let (err, io_ctx, s1) = K.io_ctx_create poolname s in
      let st1 : Storage L = record st { io_ctx = io_ctx; is_connected = K.is_connected s1 } in
      if is_neg err
      then some (err, st1, s1)
      else let (err2, recovery, s2) = K.recovery_index_io_ctx index_pool s1 in
        let st2 : Storage L = record st1 {
          recovery_io_ctx = recovery;
          is_connected = K.is_connected s2;
        } in
        if is_neg err2 then some (err2, st2, s2) else read_sizes poolname st2 s2

  -- After the handle was set up, or could not be.
  after_init : Text → Text → Storage L → ℤ × L.State → Option (ℤ × Storage L × L.State)
  after_init poolname index_pool st (ret, s) =
      if is_neg ret
      then some (minus_one, record st { is_connected = K.is_connected s }, s)
      else create_connection poolname index_pool st s

  pub open_connection_named :
      Text → Text → Text → Text → Storage L → L.State → Option (ℤ × Storage L × L.State)
  open_connection_named poolname index_pool clustername rados_username st s =
      if K.is_connected s && st.io_ctx_created
      then some (pos 1, st, s)
      else after_init poolname index_pool st (K.init_named clustername rados_username s)

  pub open_connection : Text → Text → Storage L → L.State → Option (ℤ × Storage L × L.State)
  open_connection poolname index_pool st s = after_init poolname index_pool st (K.init s)

  -- `io_ctx_created` is left as it is.
  pub close_connection : Storage L → L.State → Storage L × L.State
  close_connection st s =
      if st.io_ctx_created
      then (let s1 = K.deinit s in (record st { is_connected = K.is_connected s1 }, s1))
      else (st, s)
