-- ===== src/Cluster/Lifetime.antt =====
-- The handle's lifetime.
use dovecot_ceph_plugin.Prelude.{
  ℕ, zero, suc, ℤ, pos, ◌<◌, ◌≡◌, refl, true, false, List, [], ◌∷◌, Text, arith,
}
use dovecot_ceph_plugin.Cluster.{
  Client, Cluster, rados_osd_op_timeout, initialize, init, init_named, init_by, connect, deinit,
  pool_create, create_ioctx, io_ctx_create, recovery_index_io_ctx, set_config_option,
}

module _ (C : Client) where
  -- A handle that is counted is allocated, and only such a handle is connected.
  pub record IsLive (c : Cluster C) : Type 0 where
    pub counted : 0 < c.ref_count → c.allocated ≡ true
    pub open_only : c.connected ≡ true → 0 < c.ref_count

  init_by-IsLive :
      (set_up : C.State → ℤ × C.State) (c : Cluster C) → IsLive c → IsLive (init_by C set_up c).1
  unfolding init_by
  init_by-IsLive set_up c v = ground arith

  connect-IsLive : (c : Cluster C) → IsLive c → IsLive (connect C c).1
  unfolding connect
  connect-IsLive c v = ground arith

  deinit-IsLive : (c : Cluster C) → IsLive c → IsLive (deinit C c)
  unfolding deinit
  deinit-IsLive c v = ground arith

  pool_create-IsLive : (pool : Text) (c : Cluster C) → IsLive c → IsLive (pool_create C pool c).1
  unfolding pool_create
  pool_create-IsLive pool c v = ground (arith, connect-IsLive c v)

  create_ioctx-IsLive :
      (pool : Text) (r : ℤ × Cluster C) → IsLive r.1 → IsLive (create_ioctx C pool r).1
  unfolding create_ioctx
  create_ioctx-IsLive pool (ret, c) v = ground arith

  -- The calls on the cluster.
  pub data Call : Type 0 where
    inits connects deinits : Call
    inits_named : Text → Text → Call
    creates_pool creates_io_ctx recovers : Text → Call
    sets_option : Text → Text → Call

  pub step : Call → Cluster C → Cluster C
  step inits c = (init C c).1
  step (inits_named name user) c = (init_named C name user c).1
  step connects c = (connect C c).1
  step deinits c = deinit C c
  step (creates_pool pool) c = (pool_create C pool c).1
  step (creates_io_ctx pool) c = (io_ctx_create C pool c).1
  step (recovers pool) c = (recovery_index_io_ctx C pool c).1
  step (sets_option option value) c = set_config_option C option value c

  pub run : List Call → Cluster C → Cluster C
  unfolding step
  run [] c = c
  run (call ∷ calls) c = run calls (step call c)

  step-IsLive : (call : Call) (c : Cluster C) → IsLive c → IsLive (step call c)
  unfolding step init init_named io_ctx_create recovery_index_io_ctx set_config_option
  step-IsLive inits c v = init_by-IsLive C.init c v
  step-IsLive (inits_named name user) c v = init_by-IsLive (C.init2 user name) c v
  step-IsLive connects c v = connect-IsLive c v
  step-IsLive deinits c v = deinit-IsLive c v
  step-IsLive (creates_pool pool) c v = pool_create-IsLive pool c v
  step-IsLive (creates_io_ctx pool) c v = ground (
    arith,
    connect-IsLive c v,
    pool_create-IsLive pool (connect C c).1,
    create_ioctx-IsLive pool (pool_create C pool (connect C c).1),
  )
  step-IsLive (recovers pool) c v =
      ground (arith, pool_create-IsLive pool c v, create_ioctx-IsLive pool (pool_create C pool c))
  step-IsLive (sets_option option value) c v = record {
    counted = v.counted;
    open_only = v.open_only;
  }

  -- Whatever calls are made, and whatever librados answers, a handle that is counted stays
  -- allocated, and a handle that nobody counts is not connected.
  pub run-IsLive : (calls : List Call) (c : Cluster C) → IsLive c → IsLive (run calls c)
  unfolding run
  run-IsLive [] c v = v
  run-IsLive (call ∷ calls) c v = run-IsLive calls (step call c) (step-IsLive call c v)

  -- `n` calls of `deinit`.
  pub deinits_times : ℕ → Cluster C → Cluster C
  deinits_times zero c = c
  deinits_times (suc n) c = deinits_times n (deinit C c)

  deinit_shared :
      (n : ℕ) (c : Cluster C)
      → c.ref_count ≡ suc (suc n)
      → deinit C c ≡ record c { ref_count = suc n }
  unfolding deinit
  deinit_shared n c h = ground arith

  deinit_last :
      (c : Cluster C)
      → c.ref_count ≡ 1
      → c.connected ≡ true
      → deinit C c ≡ record c {
        ref_count = 0;
        client = C.shutdown c.client;
        connected = false;
        allocated = false;
      }
  unfolding deinit
  deinit_last c h k = ground arith

  -- The handle is shut down by the last of its users, and by no other: with a connected handle that
  -- has n more users than one, n calls of `deinit` leave it as it is but for the count, and the next
  -- call shuts it down and frees it.
  pub deinits_times_last :
      (n : ℕ) (c : Cluster C)
      → c.ref_count ≡ suc n
      → c.connected ≡ true
      → (deinits_times n c ≡ record c { ref_count = 1 })
        × (deinits_times (suc n) c ≡ record c {
          ref_count = 0;
          client = C.shutdown c.client;
          connected = false;
          allocated = false;
        })
  unfolding deinits_times
  deinits_times_last zero c h k = (ground arith, deinit_last c h k)
  deinits_times_last (suc n) c h k =
      let (one, last) = deinits_times_last n (record c { ref_count = suc n }) refl k in
      rw (deinit_shared n c h) (one, last)

  -- The first `init` succeeds and counts its user whenever the handle can be made and the option of
  -- the last query is known: whether the environment and the configuration file could be read
  -- does not matter.
  pub init_unread :
      (c : Cluster C)
      → c.ref_count ≡ 0
      → ((s : C.State) → (C.init s).0 ≡ pos 0)
      → ((s : C.State) → (C.conf_get rados_osd_op_timeout s).0 ≡ pos 0)
      → ((init C c).0 ≡ pos 0) × ((init C c).1.ref_count ≡ 1) × ((init C c).1.allocated ≡ true)
  unfolding init init_by initialize
  init_unread c h made known = rw (h, made (C.create c.client), known) (refl, refl, refl)
