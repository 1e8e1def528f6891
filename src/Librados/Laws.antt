-- ===== src/Librados/Laws.antt =====
-- What the calls of librados are documented to do, as far as theorems rely on it.
use dovecot_ceph_plugin.Prelude.{
  ℕ, ◌≤◌, ◌+◌, ◌≡◌, ◌≢◌, true, false, is_neg, is_zero, length, take, drop, ◌++◌, Option, none, some,
  List, [], ◌∷◌, Text,
}
use dovecot_ceph_plugin.Librados.Objects.{Object, or_new, content_of, apply_steps}
use dovecot_ceph_plugin.Librados.{Librados, WriteStep}

-- The omap of a reachable store: `value` is what an object holds under a key. A call for one key
-- succeeds, changes that key of that object, and leaves every other key of every object alone.
pub record OmapLaws (L : Librados) : Type 1 where
  pub value : L.State → L.IoCtx → Text → Text → Option Text
  pub set_self :
      (c : L.IoCtx) (oid k v : Text) (s : L.State)
      → value (L.omap_set_now c oid ((k, v) ∷ []) s).1 c oid k ≡ some v
  pub set_other :
      (c d : L.IoCtx) (oid oid' k j v : Text) (s : L.State)
      → k ≢ j
      → value (L.omap_set_now c oid ((k, v) ∷ []) s).1 d oid' j ≡ value s d oid' j
  pub rm_self :
      (c : L.IoCtx) (oid k : Text) (s : L.State)
      → value (L.omap_rm_keys c oid (k ∷ []) s).1 c oid k ≡ none
  pub rm_other :
      (c d : L.IoCtx) (oid oid' k j : Text) (s : L.State)
      → k ≢ j
      → value (L.omap_rm_keys c oid (k ∷ []) s).1 d oid' j ≡ value s d oid' j

-- The objects of a reachable store. A call that reports success has had its effect, one that
-- reports an error has none, and no call reaches an object apart from its own.
pub record ObjectLaws (L : Librados) : Type 1 where
  pub object : L.State → L.IoCtx → Text → Option Object
  pub Apart : L.IoCtx → Text → L.IoCtx → Text → Type 0
  pub apart_namespaces :
      (c : L.IoCtx) (ns ns' oid oid' : Text)
      → ns ≢ ns'
      → Apart (L.set_namespace ns c) oid (L.set_namespace ns' c) oid'
  pub operate_ok :
      (c : L.IoCtx) (oid : Text) (sts : List (WriteStep L.IoCtx)) (s : L.State)
      → is_neg (L.operate c oid sts s).0 ≡ false
      → object (L.operate c oid sts s).1 c oid
        ≡ apply_steps (object s) sts (or_new (object s c oid))
  pub operate_failed :
      (c : L.IoCtx) (oid : Text) (sts : List (WriteStep L.IoCtx)) (s : L.State)
      → is_neg (L.operate c oid sts s).0 ≡ true
      → object (L.operate c oid sts s).1 c oid ≡ object s c oid
  pub aio_ok :
      (c : L.IoCtx) (oid : Text) (sts : List (WriteStep L.IoCtx)) (s : L.State)
      → is_neg (L.aio_operate c oid sts s).0 ≡ false
      → is_zero (L.aio_operate c oid sts s).1 ≡ true
      → object (L.aio_operate c oid sts s).2 c oid
        ≡ apply_steps (object s) sts (or_new (object s c oid))
  pub aio_apart :
      (c d : L.IoCtx) (oid oid' : Text) (sts : List (WriteStep L.IoCtx)) (s : L.State)
      → Apart c oid d oid'
      → object (L.aio_operate c oid sts s).2 d oid' ≡ object s d oid'
  pub remove_ok :
      (c : L.IoCtx) (oid : Text) (s : L.State)
      → is_zero (L.remove c oid s).0 ≡ true
      → object (L.remove c oid s).1 c oid ≡ none
  pub remove_failed :
      (c : L.IoCtx) (oid : Text) (s : L.State)
      → is_zero (L.remove c oid s).0 ≡ false
      → object (L.remove c oid s).1 c oid ≡ object s c oid
  pub remove_apart :
      (c d : L.IoCtx) (oid oid' : Text) (s : L.State)
      → Apart d oid' c oid
      → object (L.remove c oid s).1 d oid' ≡ object s d oid'
  pub append_ok :
      (c : L.IoCtx) (oid bl : Text) (len : ℕ) (s : L.State)
      → len ≤ length bl
      → is_neg (L.append_data c oid bl len s).0 ≡ false
      → content_of (object (L.append_data c oid bl len s).1 c oid)
        ≡ content_of (object s c oid) ++ take len bl
  pub substr_of_inside :
      (bl : Text) (off len : ℕ)
      → off + len ≤ length bl
      → L.substr_of bl off len ≡ some (take len (drop off bl))

-- What a whole write and the two reading calls are documented to do; a read changes no object.
pub record ReadLaws (L : Librados) (w : ObjectLaws L) : Type 0 where
  pub write_full_ok :
      (c : L.IoCtx) (oid bl : Text) (s : L.State)
      → is_neg (L.write_full c oid bl s).0 ≡ false
      → content_of (w.object (L.write_full c oid bl s).1 c oid) ≡ bl
  pub stat_ok :
      (c : L.IoCtx) (oid : Text) (s : L.State)
      → is_neg (L.stat c oid s).0 ≡ false
      → (L.stat c oid s).1 ≡ length (content_of (w.object s c oid))
  pub stat_keeps :
      (c : L.IoCtx) (oid : Text) (s : L.State) → w.object (L.stat c oid s).3 ≡ w.object s
  pub read_ok :
      (c : L.IoCtx) (oid : Text) (s : L.State)
      → is_neg (L.read c oid s).0 ≡ false
      → (L.read c oid s).1 ≡ content_of (w.object s c oid)

-- What else a read and a whole write are documented to do: a read changes no object, and a write no
-- object of another name, nor any where it reports an error.
pub record WriteLaws (L : Librados) (w : ObjectLaws L) : Type 0 where
  pub read_keeps :
      (c : L.IoCtx) (oid : Text) (s : L.State) → w.object (L.read c oid s).2 ≡ w.object s
  pub write_full_other :
      (c : L.IoCtx) (oid oid' bl : Text) (s : L.State)
      → oid ≢ oid'
      → w.object (L.write_full c oid bl s).1 c oid' ≡ w.object s c oid'
  pub write_full_failed :
      (c : L.IoCtx) (oid bl : Text) (s : L.State)
      → is_neg (L.write_full c oid bl s).0 ≡ true
      → w.object (L.write_full c oid bl s).1 ≡ w.object s

-- What reading the attributes is documented to do.
pub record AttributeLaws (L : Librados) (w : ObjectLaws L) : Type 0 where
  pub getxattrs_ok :
      (c : L.IoCtx) (oid : Text) (s : L.State)
      → is_neg (L.getxattrs c oid s).0 ≡ false
      → (L.getxattrs c oid s).1 ≡ (or_new (w.object s c oid)).xattrs

-- A removal creates no object.
pub record RemoveLaws (L : Librados) (w : ObjectLaws L) : Type 0 where
  pub remove_none :
      (c d : L.IoCtx) (oid oid' : Text) (s : L.State)
      → w.object s d oid' ≡ none
      → w.object (L.remove c oid s).1 d oid' ≡ none
