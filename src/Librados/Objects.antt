-- ===== src/Librados/Objects.antt =====
-- What an object of the store holds, and what a write operation is documented to do to it.
use dovecot_ceph_plugin.Prelude.{
  ℕ, zero, suc, ℤ, pos, ◌+◌, ◌++◌, Option, none, some, List, [], ◌∷◌, Text, Map, insert, length,
  take, drop,
}
use dovecot_ceph_plugin.Librados.{
  WriteStep, mtime, setxattr, omap_set, write, copy_from, set_alloc_hint,
}

pub record Object : Type 0 where
  pub content : Text
  pub xattrs : Map Text
  pub omap : Map Text
  pub changed_at : ℤ

abbrev pub new_object : Object
new_object = record { content = []; xattrs = []; omap = []; changed_at = pos 0 }

abbrev pub or_new : Option Object → Object
or_new none = new_object
or_new (some x) = x

abbrev pub content_of : Option Object → Text
content_of x = (or_new x).content

abbrev pub insert_all : Map Text → Map Text → Map Text
insert_all [] m = m
insert_all ((k, v) ∷ n) m = insert_all n (insert k v m)

unfoldable pub zeros : ℕ → Text
zeros zero = []
zeros (suc n) = 0 ∷ zeros n

-- The new bytes replace those from an offset on; a gap before them is filled with zeros.
unfoldable pub overlay : ℕ → Text → Text → Text
overlay off new old = take off (old ++ zeros off) ++ (new ++ drop (off + length new) old)

module _ {IoCtx : Type 0} (find : IoCtx → Text → Option Object) where
  unfoldable pub apply_step : WriteStep IoCtx → Object → Option Object
  apply_step (mtime t) x = some (record x { changed_at = t })
  apply_step (setxattr k v) x = some (record x { xattrs = insert k v x.xattrs })
  apply_step (omap_set m) x = some (record x { omap = insert_all m x.omap })
  apply_step (write off new) x = some (record x { content = overlay off new x.content })
  apply_step (set_alloc_hint size len) x = some x
  apply_step (copy_from oid c) x = elim (find c oid) [
    | none ↦ none
    | some y ↦ some (record x { content = y.content; xattrs = y.xattrs; omap = y.omap })
  ]

  -- The steps of an operation take effect together; it fails when one of them does.
  unfoldable pub apply_steps : List (WriteStep IoCtx) → Object → Option Object
  unfolding apply_step
  apply_steps [] x = some x
  apply_steps (st ∷ sts) x = elim (apply_step st x) [ none ↦ none | some y ↦ apply_steps sts y ]
