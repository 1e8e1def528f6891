-- ===== src/Storage/Write.antt =====
-- What write operations do to the bytes of an object.
use dovecot_ceph_plugin.Prelude.{
  ℕ, zero, suc, ◌+◌, ◌≡◌, refl, ap, ◌∙◌, ◌++◌, ◌≤◌, true, append-nil, Option, List, [], ◌∷◌, Text,
  All, arith, length, take, drop,
}
use dovecot_ceph_plugin.Librados.{
  Librados, WriteStep, mtime, setxattr, omap_set, write, copy_from, set_alloc_hint,
}
use dovecot_ceph_plugin.Librados.Objects.{
  Object, or_new, content_of, apply_steps, apply_step, overlay, zeros,
}
use dovecot_ceph_plugin.Librados.Laws.{ObjectLaws}
use dovecot_ceph_plugin.Storage.{Storage, execute_operation, append_to_object}

-- The steps that leave the bytes of an object alone.
abbrev pub Keeps : {C : Type 0} → WriteStep C → Type 0
Keeps (write off new) = ⊥
Keeps (copy_from oid c) = ⊥
Keeps (mtime t) = Unit
Keeps (setxattr k v) = Unit
Keeps (omap_set m) = Unit
Keeps (set_alloc_hint size len) = Unit

apply_steps-Keeps :
    {C : Type 0} (find : C → Text → Option Object) (sts : List (WriteStep C)) (x : Object)
    → All Keeps sts
    → content_of (apply_steps find sts x) ≡ x.content
unfolding apply_steps apply_step
apply_steps-Keeps find [] x h = refl
apply_steps-Keeps find (mtime t ∷ sts) x (k, h) = apply_steps-Keeps find sts _ h
apply_steps-Keeps find (setxattr i v ∷ sts) x (k, h) = apply_steps-Keeps find sts _ h
apply_steps-Keeps find (omap_set m ∷ sts) x (k, h) = apply_steps-Keeps find sts _ h
apply_steps-Keeps find (set_alloc_hint i j ∷ sts) x (k, h) = apply_steps-Keeps find sts _ h
apply_steps-Keeps find (write off new ∷ sts) x (k, h) = absurd k
apply_steps-Keeps find (copy_from oid c ∷ sts) x (k, h) = absurd k

drop_nil : (n : ℕ) → drop {A = ℕ} n [] ≡ []
drop_nil zero = refl
drop_nil (suc n) = refl

write_whole :
    {C : Type 0} (find : C → Text → Option Object) (new : Text) (x : Object)
    → x.content ≡ []
    → content_of (apply_steps find (write 0 new ∷ []) x) ≡ new
unfolding apply_steps apply_step overlay zeros
write_whole find new x h = rw h (ap (λ y. new ++ y) (drop_nil (0 + length new)) ∙ append-nil new)

module _ (L : Librados) (w : ObjectLaws L) (st : Storage L) (oid : Text) where
  -- The bytes of the object in the storage's pool.
  unfoldable pub bytes : L.State → Text
  bytes s = content_of (w.object s st.io_ctx oid)

  pub operate-Keeps :
      (sts : List (WriteStep L.IoCtx)) (s : L.State)
      → All Keeps sts
      → bytes (execute_operation L oid sts st s).1 ≡ bytes s
  unfolding bytes execute_operation
  operate-Keeps sts s h = ground (
    arith,
    w.operate_ok st.io_ctx oid sts s,
    w.operate_failed st.io_ctx oid sts s,
    apply_steps-Keeps (w.object s) sts (or_new (w.object s st.io_ctx oid)),
  )

  pub operate-write :
      (new : Text) (s : L.State)
      → bytes s ≡ []
      → (execute_operation L oid (write 0 new ∷ []) st s).0 ≡ true
      → bytes (execute_operation L oid (write 0 new ∷ []) st s).1 ≡ new
  unfolding bytes execute_operation
  operate-write new s h k = ground (
    arith,
    w.operate_ok st.io_ctx oid (write 0 new ∷ []) s,
    write_whole (w.object s) new (or_new (w.object s st.io_ctx oid)),
  )

  pub append-bytes :
      (bl : Text) (len : ℕ) (s : L.State)
      → len ≤ length bl
      → (append_to_object L oid bl len st s).0 ≡ true
      → bytes (append_to_object L oid bl len st s).1 ≡ bytes s ++ take len bl
  unfolding bytes append_to_object
  append-bytes bl len s h k = ground (arith, w.append_ok st.io_ctx oid bl len s)
