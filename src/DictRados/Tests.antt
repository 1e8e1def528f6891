-- ===== src/DictRados/Tests.antt =====
-- Runs and witnesses for the dictionary.
use dovecot_ceph_plugin.Prelude.{
  ◌≡◌, refl, false, inl, inr, some, List, [], ◌∷◌, Text, codes, arith,
}
use dovecot_ceph_plugin.Librados.Memory.{memory, memory_omap, Objects, no_objects}
use dovecot_ceph_plugin.DictRados.{Dictionary, ok, transaction_init, transaction_commit}
use dovecot_ceph_plugin.DictRados.Calls.{Call, sets, unsets, steps, acts}
use dovecot_ceph_plugin.DictRados.Deploy.{IsOpening, view}
use dovecot_ceph_plugin.DictRados.Commit.{commit-acts}
use dovecot_ceph_plugin.DictRados.Iterate.{IterateContext, iterate_all, iterate_all_lem, is_hidden}

abbrev dict : Dictionary memory
dict = record {
  private_oid = codes "dict";
  shared_oid = codes "dict";
  private_io_ctx = λ s. (codes "user", s);
  shared_io_ctx = λ s. (codes "public", s);
}

abbrev dict_opening : IsOpening memory dict memory_omap
dict_opening = record {
  private_handle = codes "user";
  shared_handle = codes "public";
  private_io = λ s. refl;
  shared_io = λ s. refl;
  private_keeps = λ s c oid j. refl;
  shared_keeps = λ s c oid j. refl;
}

abbrev calls : List Call
calls =
    sets (codes "priv/a") (codes "1")
    ∷ unsets (codes "priv/a")
    ∷ sets (codes "shared/b") (codes "2")
    ∷ sets (codes "priv/a") (codes "3")
    ∷ unsets (codes "shared/b")
    ∷ []

commit-acts_example :
    (s' : Objects) × (transaction_commit memory dict (steps calls transaction_init) no_objects
      ≡ some (ok, s'))
    × ((j : Text)
        → view memory dict memory_omap dict_opening s' j
          ≡ acts calls (view memory dict memory_omap dict_opening no_objects) j)
commit-acts_example =
    commit-acts memory dict memory_omap dict_opening calls no_objects
      (inl refl, (inl refl, (inr refl, (inl refl, (inr refl, tt)))))

abbrev two_maps : IterateContext
two_maps = record {
  failed = false;
  recurse = false;
  exact_key = false;
  no_value = false;
  key = codes "priv/";
  entries = (codes "priv/a", codes "1") ∷ (codes "priv/b/c", codes "2") ∷ [];
  results = record { key = codes "shared/"; map = (codes "shared/x", codes "3") ∷ [] } ∷ [];
}

iterate_all_lem_example :
    iterate_all 4 two_maps
    ≡ (codes "priv/a", some (codes "1")) ∷ (codes "shared/x", some (codes "3")) ∷ []
unfolding is_hidden
iterate_all_lem_example = iterate_all_lem 4 two_maps refl (omega arith)
