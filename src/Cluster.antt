-- ===== src/Cluster.antt =====
-- src/librmb/rados-cluster-impl.cpp: one client handle, shared by all users of the process and
-- counted. The handle's own calls are librados.
pub mod Lifetime
pub mod Tests
use dovecot_ceph_plugin.Prelude.{
  ℕ, zero, suc, ℤ, pos, negsuc, minus_one, is_neg, is_zero, ◌+◌, ◌-◌, Bool, true, false, not, ◌&&◌,
  ◌||◌, List, [], ◌∷◌, Text, Map, codes, str_eq, insert, ltb, ◌==◌, if◌then◌else◌,
}

-- The calls on a `librados::Rados` handle.
pub record Client : Type 1 where
  pub State : Type 0
  -- `new librados::Rados()`
  pub create : State → State
  pub init : State → ℤ × State
  pub init2 : Text → Text → State → ℤ × State
  pub conf_parse_env : State → ℤ × State
  pub conf_read_file : State → ℤ × State
  pub conf_get : Text → State → ℤ × Text
  pub conf_set : Text → Text → State → State
  pub connect : State → ℤ × State
  pub shutdown : State → State
  pub pool_list : State → ℤ × List Text × State
  pub pool_create : Text → State → ℤ × State
  pub ioctx_create : Text → State → ℤ × State

abbrev pub client_mount_timeout : Text
client_mount_timeout = codes "client_mount_timeout"

abbrev pub rados_mon_op_timeout : Text
rados_mon_op_timeout = codes "rados_mon_op_timeout"

abbrev pub rados_osd_op_timeout : Text
rados_osd_op_timeout = codes "rados_osd_op_timeout"

abbrev pub timeout_default : Text
timeout_default = codes "600"

-- The static members, and the options of the object. `allocated` is `cluster != nullptr`.
pub record Cluster (C : Client) : Type 0 where
  pub allocated : Bool
  pub ref_count : ℕ
  pub connected : Bool
  pub client : C.State
  pub client_options : Map Text

module _ (C : Client) where
  set_options : Map Text → C.State → C.State
  set_options [] s = s
  set_options ((option, value) ∷ options) s = set_options options (C.conf_set option value s)

  default_if : Bool → Text → C.State → C.State
  default_if true option s = C.conf_set option timeout_default s
  default_if false option s = s

  -- `initialize`, on the handle: what the first two calls return is overwritten.
  pub initialize : Map Text → C.State → ℤ × C.State
  initialize options s =
      let (env, s1) = C.conf_parse_env s in
      let s2 : C.State = if is_zero env then (C.conf_read_file s1).1 else s1 in
      let s3 = default_if (is_neg (C.conf_get client_mount_timeout s2).0) client_mount_timeout s2 in
      let (mon, mon_value) = C.conf_get rados_mon_op_timeout s3 in
      let s4 = default_if (is_neg mon || str_eq mon_value (codes "0")) rados_mon_op_timeout s3 in
      let (osd, osd_value) = C.conf_get rados_osd_op_timeout s4 in
      let s5 = default_if (is_neg osd || str_eq osd_value (codes "0")) rados_osd_op_timeout s4 in
      (osd, set_options options s5)

  -- Both forms of `init`, over the call that sets the handle up.
  init_by : (C.State → ℤ × C.State) → Cluster C → ℤ × Cluster C
  init_by set_up c =
      if c.ref_count == 0
      then (let (ret, s1) = set_up (C.create c.client) in
          if is_zero ret
          then (let (ret2, s2) = initialize c.client_options s1 in
              (
                ret2,
                record c {
                  allocated = true;
                  client = s2;
                  ref_count = if is_zero ret2 then c.ref_count + 1 else c.ref_count;
                },
              ))
          else (ret, record c { allocated = true; client = s1 }))
      else (pos 0, record c { ref_count = c.ref_count + 1 })

  pub init : Cluster C → ℤ × Cluster C
  init c = init_by C.init c

  pub init_named : Text → Text → Cluster C → ℤ × Cluster C
  init_named clustername rados_username c = init_by (C.init2 rados_username clustername) c

  pub connect : Cluster C → ℤ × Cluster C
  connect c =
      if ltb 0 c.ref_count && not c.connected
      then (let (ret, s) = C.connect c.client in
          (ret, record c { client = s; connected = is_zero ret }))
      else (pos 0, c)

  pub deinit : Cluster C → Cluster C
  deinit c =
      if ltb 0 c.ref_count
      then (if c.ref_count - 1 == 0
          then (if c.connected
              then record c {
                ref_count = 0;
                client = C.shutdown c.client;
                connected = false;
                allocated = false;
              }
              else record c { ref_count = 0 })
          else record c { ref_count = c.ref_count - 1 })
      else c

  is_listed : Text → List Text → Bool
  is_listed pool [] = false
  is_listed pool (p ∷ pools) = str_eq p pool || is_listed pool pools

  pub pool_create : Text → Cluster C → ℤ × Cluster C
  pool_create pool c =
      let (ret, c1) = connect c in
      if is_neg ret
      then (ret, c1)
      else let (ret2, pools, s) = C.pool_list c1.client in
        if is_neg ret2
        then (ret2, record c1 { client = s })
        else if is_listed pool pools
        then (ret2, record c1 { client = s })
        else let (ret3, s') = C.pool_create pool s in (ret3, record c1 { client = s' })

  create_ioctx : Text → ℤ × Cluster C → ℤ × Cluster C
  create_ioctx pool (ret, c) =
      if is_zero ret
      then (let (ret2, s) = C.ioctx_create pool c.client in (ret2, record c { client = s }))
      else (ret, c)

  pub io_ctx_create : Text → Cluster C → ℤ × Cluster C
  io_ctx_create pool c =
      if c.ref_count == 0
      then (negsuc 1, c)
      else let (ret, c1) = connect c in
        if is_neg ret then (ret, c1) else create_ioctx pool (pool_create pool c1)

  pub recovery_index_io_ctx : Text → Cluster C → ℤ × Cluster C
  recovery_index_io_ctx pool c =
      if not c.connected then (minus_one, c) else create_ioctx pool (pool_create pool c)

  pub set_config_option : Text → Text → Cluster C → Cluster C
  set_config_option option value c = record c {
    client_options = insert option value c.client_options;
  }
