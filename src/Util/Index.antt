-- ===== src/Util/Index.antt =====
-- The index of objects: names, each followed by a comma.
use dovecot_ceph_plugin.Prelude.{
  ◌≡◌, refl, ap, sym, ◌∙◌, ◌++◌, true, false, List, [], ◌∷◌, Text, arith, is_empty, free_of, add,
  add_greatest, split_on, split_on-append, All, str_lt, str_lt_trans, Above, IsIncreasing,
  append_assoc, append-nil, if◌then◌else◌, member, member-add, str_eq, ◌||◌,
}
use dovecot_ceph_plugin.Util.{
  convert_to_ceph_index, convert_set_to_ceph_index, ceph_index_to_set, insert_items,
}

-- A name that the index can hold.
abbrev pub IsName : Text → Type 0
IsName s = (free_of b',' s ≡ true) × (is_empty s ≡ false)

split_names :
    (names : List Text) (rest : Text)
    → All IsName names
    → split_on b',' (convert_set_to_ceph_index names ++ rest) ≡ names ++ split_on b',' rest
unfolding convert_set_to_ceph_index
split_names [] rest h = refl
split_names (s ∷ names) rest h =
    ap (split_on b',') (append_assoc s (b',' ∷ convert_set_to_ceph_index names) rest)
    ∙ split_on-append b',' s (convert_set_to_ceph_index names ++ rest) h.0.0
    ∙ ap (◌∷◌ s) (split_names names rest h.1)

split_written :
    (names : List Text) → All IsName names → split_on b',' (convert_set_to_ceph_index names) ≡ names
unfolding split_on
split_written names h =
    ap (split_on b',') (sym (append-nil (convert_set_to_ceph_index names)))
    ∙ split_names names [] h
    ∙ append-nil names

split_append :
    (names : List Text) (oid : Text)
    → All IsName names
    → IsName oid
    → split_on b',' (convert_set_to_ceph_index names ++ convert_to_ceph_index oid)
      ≡ names ++ oid ∷ []
unfolding convert_to_ceph_index split_on
split_append names oid h n =
    split_names names (oid ++ b',' ∷ []) h ∙ ap (◌++◌ names) (split_on-append b',' oid [] n.0)

-- Every name is below a bound.
abbrev Under : Text → List Text → Type 0
Under k = All λ j. str_lt j k ≡ true

Under-snoc :
    (k j : Text) (names : List Text) → Under k names → str_lt k j ≡ true → Under j (names ++ k ∷ [])
Under-snoc k j [] h lt = (lt, tt)
Under-snoc k j (i ∷ names) h lt = (str_lt_trans i k j h.0 lt, Under-snoc k j names h.1 lt)

insert_increasing :
    (k : Text) (names done : List Text)
    → is_empty k ≡ false
    → All IsName names
    → Above k names
    → Under k done
    → insert_items (k ∷ names) done ≡ done ++ k ∷ names
unfolding insert_items
insert_increasing k [] done e h a u = rw e (add_greatest done k u)
insert_increasing k (j ∷ names) done e h a u =
    rw (e, add_greatest done k u)
      (insert_increasing j names (done ++ k ∷ []) h.0.1 h.1 a.1 (Under-snoc k j done u a.0)
        ∙ append_assoc done (k ∷ []) (j ∷ names))

insert_names :
    (names : List Text) → All IsName names → IsIncreasing names → insert_items names [] ≡ names
insert_names [] h i = unfold insert_items in refl
insert_names (k ∷ names) h i = insert_increasing k names [] h.0.1 h.1 i tt

-- A set of names, none empty or with a comma, is read back from the index written for it.
pub ceph_index_to_set-convert_set :
    (names : List Text)
    → All IsName names
    → IsIncreasing names
    → ceph_index_to_set (convert_set_to_ceph_index names) ≡ names
unfolding ceph_index_to_set
ceph_index_to_set-convert_set names h i = rw (split_written names h) (insert_names names h i)

insert_items-append :
    (xs ys done : List Text) → insert_items (xs ++ ys) done ≡ insert_items ys (insert_items xs done)
unfolding insert_items
insert_items-append [] ys done = refl
insert_items-append (x ∷ xs) ys done =
    insert_items-append xs ys (if is_empty x then done else add x done)

-- Appending a name to an index of names, as `ceph_index_append` does, adds the name to the set that is
-- read, and a name that is there already changes nothing in it.
pub member-ceph_index_append :
    (names : List Text) (oid j : Text)
    → All IsName names
    → IsName oid
    → member j (ceph_index_to_set (convert_set_to_ceph_index names ++ convert_to_ceph_index oid))
      ≡ (str_eq oid j || member j (ceph_index_to_set (convert_set_to_ceph_index names)))
unfolding ceph_index_to_set
member-ceph_index_append names oid j h n =
    rw
      (
        split_append names oid h n,
        split_written names h,
        insert_items-append names (oid ∷ []) [],
        last oid (insert_items names []) n.1,
        member-add oid j (insert_items names []),
      )
      (ground arith)
  where
    last :
        (s : Text) (done : List Text) → is_empty s ≡ false → insert_items (s ∷ []) done ≡ add s done
    last s done e = unfold insert_items in rw e refl
