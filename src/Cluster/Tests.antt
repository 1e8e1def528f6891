-- ===== src/Cluster/Tests.antt =====
-- Runs of the cluster over a client that always answers, and whose configuration file is unread.
use dovecot_ceph_plugin.Prelude.{
  ℕ, pos, minus_one, ◌≡◌, refl, true, false, [], ◌∷◌, codes, ◌+◌, arith,
}
use dovecot_ceph_plugin.Cluster.{Client, Cluster}
use dovecot_ceph_plugin.Cluster.Lifetime.{
  IsLive, inits, deinits, creates_io_ctx, run, run-IsLive, deinits_times, deinits_times_last,
}

-- Counts how often the handle was made and shut down.
abbrev toy_client : Client
toy_client = record {
  State = ℕ × ℕ;
  create = λ s. (s.0 + 1, s.1);
  init = λ s. (pos 0, s);
  init2 = λ name user s. (pos 0, s);
  conf_parse_env = λ s. (pos 0, s);
  conf_read_file = λ s. (minus_one, s);
  conf_get = λ option s. (pos 0, codes "0");
  conf_set = λ option value s. s;
  connect = λ s. (pos 0, s);
  shutdown = λ s. (s.0, s.1 + 1);
  pool_list = λ s. (pos 0, [], s);
  pool_create = λ pool s. (pos 0, s);
  ioctx_create = λ pool s. (pos 0, s);
}

abbrev unused : Cluster toy_client
unused = record {
  allocated = false;
  ref_count = 0;
  connected = false;
  client = (0, 0);
  client_options = [];
}

-- Three users share a connected handle.
abbrev shared : Cluster toy_client
shared = record {
  allocated = true;
  ref_count = 3;
  connected = true;
  client = (1, 0);
  client_options = [];
}

unused-IsLive : IsLive toy_client unused
unused-IsLive = record { counted = λ h. ground arith; open_only = λ h. ground arith }

run-IsLive_example :
    IsLive toy_client
      (run toy_client (inits ∷ inits ∷ creates_io_ctx (codes "mail") ∷ deinits ∷ []) unused)
run-IsLive_example =
    run-IsLive toy_client (inits ∷ inits ∷ creates_io_ctx (codes "mail") ∷ deinits ∷ []) unused
      unused-IsLive

deinits_times_last_example :
    (deinits_times toy_client 2 shared ≡ record shared { ref_count = 1 })
    × (deinits_times toy_client 3 shared ≡ record {
      allocated = false;
      ref_count = 0;
      connected = false;
      client = (1, 1);
      client_options = [];
    })
deinits_times_last_example = deinits_times_last toy_client 2 shared refl refl
