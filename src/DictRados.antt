-- ===== src/DictRados.antt =====
-- src/dict-rados/dict-rados.cpp: the Dovecot dictionary on a Ceph object map.
pub mod Uri
pub mod Calls
pub mod Deploy
pub mod Commit
pub mod Iterate
pub mod Tests
use dovecot_ceph_plugin.Prelude.{
  ℕ, ℤ, pos, negsuc, minus_one, is_neg, is_zero, int_eq, ◌+ℤ◌, ◌++◌, Bool, true, false, not, ◌&&◌,
  Option, none, some, List, [], ◌∷◌, Text, Map, TextSet, codes, has_prefix, lookup, insert, member,
  add, remove, is_empty, encode, decimal_int, c_str, if◌then◌else◌,
}
use dovecot_ceph_plugin.Librados.{Librados}

abbrev pub path_private : Text
path_private = codes "priv/"

abbrev pub path_shared : Text
path_shared = codes "shared/"

-- What the transactions use of the class `RadosDictionary`. Getting an `IoCtx` may open it.
pub record Dictionary (L : Librados) : Type 0 where
  pub private_oid : Text
  pub shared_oid : Text
  pub private_io_ctx : L.State → L.IoCtx × L.State
  pub shared_io_ctx : L.State → L.IoCtx × L.State

pub record Transaction : Type 0 where
  pub changed : Bool
  pub atomic_inc_not_found : Bool
  pub set_map : Map Text
  pub unset_set : TextSet
  pub atomic_inc_map : Map ℤ
  pub dirty_private : Bool
  pub locked_private : Bool
  pub result_private : ℤ
  pub dirty_shared : Bool
  pub locked_shared : Bool
  pub result_shared : ℤ

-- `-ENORESULT`.
abbrev pub no_result : ℤ
no_result = negsuc 999

-- `rados_dict_transaction_init`.
unfoldable pub transaction_init : Transaction
transaction_init = record {
  changed = false;
  atomic_inc_not_found = false;
  set_map = [];
  unset_set = [];
  atomic_inc_map = [];
  dirty_private = false;
  locked_private = false;
  result_private = no_result;
  dirty_shared = false;
  locked_shared = false;
  result_shared = no_result;
}

-- `none` is `i_unreached()`, which ends the process.
unfoldable pub is_private : Text → Transaction → Option (Bool × Transaction)
is_private key ctx =
    if has_prefix path_private key
    then some (true, record ctx { dirty_private = true })
    else if has_prefix path_shared key
    then some (false, record ctx { dirty_shared = true })
    else none

unfoldable pub set_locked : Text → Transaction → Transaction
set_locked key ctx =
    if has_prefix path_shared key
    then record ctx { locked_shared = true }
    else if has_prefix path_private key
    then record ctx { locked_private = true }
    else ctx

unfoldable pub is_locked : Text → Transaction → Option Bool
is_locked key ctx =
    if has_prefix path_shared key
    then some ctx.locked_shared
    else if has_prefix path_private key
    then some ctx.locked_private
    else none

-- `enum rados_commit_ret`.
pub data CommitRet : Type 0 where
  ok notfound failed : CommitRet

unfoldable pub get_result : ℤ → CommitRet
get_result result = if is_neg result && not (int_eq result no_result) then failed else ok

unfoldable pub add_set_item : Text → Text → Transaction → Transaction
add_set_item key value ctx = record ctx {
  unset_set = remove key ctx.unset_set;
  set_map = insert key value ctx.set_map;
}

unfoldable pub add_unset_item : Text → Transaction → Transaction
add_unset_item key ctx = record ctx { unset_set = add key ctx.unset_set }

unfoldable pub add_atomic_inc_item : Text → ℤ → Transaction → Transaction
add_atomic_inc_item key diff ctx =
    let total : ℤ = elim (lookup key ctx.atomic_inc_map) [ none ↦ diff | some d ↦ diff +ℤ d ] in
    record ctx { atomic_inc_map = insert key total ctx.atomic_inc_map }

-- `rados_dict_set`, `rados_dict_unset`, `rados_dict_atomic_inc`; keys are given without a NUL.
unfoldable pub dict_set : Text → Text → Transaction → Transaction
unfolding add_set_item
dict_set key value ctx = add_set_item key value (record ctx { changed = true })

unfoldable pub dict_unset : Text → Transaction → Transaction
unfolding add_unset_item
dict_unset key ctx = add_unset_item key (record ctx { changed = true })

unfoldable pub dict_atomic_inc : Text → ℤ → Transaction → Transaction
unfolding add_atomic_inc_item
dict_atomic_inc key diff ctx = add_atomic_inc_item key diff ctx

module _ (L : Librados) (d : Dictionary L) where
  -- The object and the handle that a key belongs to; the code tests the key for each of the two.
  route : Text → Transaction → L.State → Option (Text × L.IoCtx × Transaction × L.State)
  unfolding is_private
  route key ctx s = elim (is_private key ctx) [
    | none ↦ none
    | some (for_oid, ctx1) ↦ elim (is_private key ctx1) [
      | none ↦ none
      | some (for_io, ctx2) ↦
          let oid = if for_oid then d.private_oid else d.shared_oid in
          let (io, s1) = if for_io then d.private_io_ctx s else d.shared_io_ctx s in
          some (oid, io, ctx2, s1)
    ]
  ]

  -- The loop of `deploy_set_map`; a failed call is only logged.
  pub deploy_sets : Map Text → Transaction → L.State → Option (Transaction × L.State)
  deploy_sets [] ctx s = some (ctx, s)
  deploy_sets ((key, value) ∷ m) ctx s = elim (route key ctx s) [
    | none ↦ none
    | some (oid, io, ctx1, s1) ↦ deploy_sets m ctx1 (L.omap_set_now io oid ((key, value) ∷ []) s1).1
  ]

  -- The loop of `deploy_atomic_inc_map`, with `osd_add`; the calls' results are not used.
  pub deploy_incs : Map ℤ → Transaction → L.State → Option (Transaction × L.State)
  deploy_incs [] ctx s = some (ctx, s)
  deploy_incs ((key, diff) ∷ m) ctx s = elim ctx.atomic_inc_not_found [
    | true ↦ some (ctx, s)
    | false ↦ elim (route key ctx s) [
      | none ↦ none
      | some (oid, io, ctx1, s1) ↦
          deploy_incs m ctx1
            (L.exec io oid (codes "numops") (codes "add") (encode key ++ encode (decimal_int diff))
              s1).1
    ]
  ]

  -- The loop of `deploy_unset_set`.
  pub deploy_unsets : TextSet → Transaction → L.State → Option (Transaction × L.State)
  deploy_unsets [] ctx s = some (ctx, s)
  deploy_unsets (key ∷ keys) ctx s = elim (route key ctx s) [
    | none ↦ none
    | some (oid, io, ctx1, s1) ↦ deploy_unsets keys ctx1 (L.omap_rm_keys io oid (key ∷ []) s1).1
  ]

  -- `rados_dict_transaction_commit`: the result that the callback gets, and the store after it.
  -- The local `failed` is never set.
  pub transaction_commit : Transaction → L.State → Option (CommitRet × L.State)
  transaction_commit ctx s = elim (deploy_sets ctx.set_map ctx s) [
    | none ↦ none
    | some (ctx1, s1) ↦ elim (deploy_incs ctx1.atomic_inc_map (record ctx1 { set_map = [] }) s1) [
      | none ↦ none
      | some (ctx2, s2) ↦
          elim (deploy_unsets ctx2.unset_set (record ctx2 { atomic_inc_map = [] }) s2) [
            | none ↦ none
            | some (ctx3, s3) ↦ some (if ctx3.atomic_inc_not_found then notfound else ok, s3)
          ]
    ]
  ]

  -- `get_io_ctx` and `get_full_oid` of the dictionary; `none` is the failed assertion.
  io_ctx_of : Text → L.State → Option (L.IoCtx × L.State)
  io_ctx_of key s =
      if has_prefix path_private key
      then some (d.private_io_ctx s)
      else if has_prefix path_shared key
      then some (d.shared_io_ctx s)
      else none

  full_oid : Text → Text
  full_oid key =
      if has_prefix path_private key
      then d.private_oid
      else if has_prefix path_shared key
      then d.shared_oid
      else []

  -- `rados_dict_lookup`: the return code and the value.
  pub dict_lookup : Text → L.State → Option (CommitRet × Option Text × L.State)
  unfolding io_ctx_of full_oid
  dict_lookup key s = elim (io_ctx_of key s) [
    | none ↦ none
    | some (io, s1) ↦
        let (err, result_map, s2) = L.omap_get_vals_by_keys io (full_oid key) (key ∷ []) s1 in
        some (
          if is_zero err
          then elim (lookup key result_map) [
            | none ↦ (notfound, none, s2)
            | some value ↦ (ok, some (c_str value), s2)
          ]
          else if is_neg err && not (int_eq err (negsuc 1))
          then (failed, none, s2)
          else (notfound, none, s2))
  ]
