-- ===== src/DictRados/Commit.antt =====
-- A committed transaction against the meaning of its calls.
use dovecot_ceph_plugin.Prelude.{◌≡◌, ◌∙◌, false, some, List, [], Text, arith, All}
use dovecot_ceph_plugin.Librados.{Librados}
use dovecot_ceph_plugin.Librados.Laws.{OmapLaws}
use dovecot_ceph_plugin.DictRados.{
  Dictionary, Transaction, ok, transaction_init, deploy_sets, deploy_incs, deploy_unsets,
  transaction_commit,
}
use dovecot_ceph_plugin.DictRados.Calls.{
  Call, Called, steps, acts, pending, pending-steps, IsReady, steps-IsReady,
  transaction_init-IsReady, pending-transaction_init, acts_cong,
}
use dovecot_ceph_plugin.DictRados.Deploy.{IsOpening, view, deploy_sets_lem, deploy_unsets_lem}

module _ (L : Librados) (d : Dictionary L) (w : OmapLaws L) (o : IsOpening L d w) where
  ends :
      (ctx : Transaction) (s : L.State) (c1 : Transaction) (s1 : L.State) (c3 : Transaction)
      (s3 : L.State)
      → deploy_sets L d ctx.set_map ctx s ≡ some (c1, s1)
      → c1.atomic_inc_map ≡ []
      → deploy_unsets L d c1.unset_set (record c1 { set_map = []; atomic_inc_map = [] }) s1
        ≡ some (c3, s3)
      → c3.atomic_inc_not_found ≡ false
      → transaction_commit L d ctx s ≡ some (ok, s3)
  unfolding transaction_commit deploy_incs
  ends ctx s c1 s1 c3 s3 p q u f = ground arith

  -- The three loops of a commit, put together.
  commit-ready :
      (ctx : Transaction) (s : L.State)
      → IsReady ctx
      → (s' : L.State) × (transaction_commit L d ctx s ≡ some (ok, s'))
        × ((j : Text) → view L d w o s' j ≡ pending ctx (view L d w o s) j)
  commit-ready ctx s r =
      let first = deploy_sets_lem L d w o ctx.set_map ctx s r.map_keys r.ordered in
      let middle : Transaction = record first.ctx' { set_map = []; atomic_inc_map = [] } in
      let last =
        deploy_unsets_lem L d w o first.ctx'.unset_set middle first.store
          (rw first.same_unset r.set_keys) in
      (
        last.store,
        ends ctx s first.ctx' first.store last.ctx' last.store first.result
            (first.same_incs ∙ r.no_incs) last.result (last.same_flag ∙ first.same_flag ∙ r.found),
        λ j. last.shows j ∙ ground (arith, first.same_unset, first.shows j),
      )

-- Keys with one of the two prefixes, a reachable store: the commit of any sequence of settings and
-- removals reports success, and the dictionary then holds what the calls mean one after another,
-- also where a key is set, removed and set again.
pub commit-acts :
    (L : Librados) (d : Dictionary L) (w : OmapLaws L) (o : IsOpening L d w) (cs : List Call)
    (s : L.State)
    → All Called cs
    → (s' : L.State) × (transaction_commit L d (steps cs transaction_init) s ≡ some (ok, s'))
      × ((j : Text) → view L d w o s' j ≡ acts cs (view L d w o s) j)
commit-acts L d w o cs s h =
    let (s', result, shows) =
      commit-ready L d w o (steps cs transaction_init) s
        (steps-IsReady cs transaction_init h transaction_init-IsReady) in
    (
      s',
      result,
      λ j.
          shows j
          ∙ pending-steps cs transaction_init (view L d w o s) j
          ∙ acts_cong cs _ _ (pending-transaction_init (view L d w o s)) j,
    )
