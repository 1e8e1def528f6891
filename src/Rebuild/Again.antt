-- ===== src/Rebuild/Again.antt =====
-- Rebuilding the index of a mailbox once more.
use dovecot_ceph_plugin.Prelude.{
  ℕ, ◌<◌, ℤ, pos, is_neg, Bool, false, ◌≡◌, refl, ap, ◌∙◌, Option, none, some, List, [], ◌∷◌, Text,
  All, lookup, insert, lookup-insert, str_eq_refl, arith,
}
use dovecot_ceph_plugin.Librados.{Librados}
use dovecot_ceph_plugin.Attributes.{MailObject, MetadataModule}
use dovecot_ceph_plugin.Rebuild.{
  IndexCalls, RadosMails, add_objects, before, first_uid, finish_entry, rebuild_entry,
}
use dovecot_ceph_plugin.Rebuild.Uids.{IsRestored, Restores, turn_kept, add_objects-Restores}

-- A value that is inserted twice.
insert-insert {ℓ} :
    {V : Type ℓ} (k : Text) (v : V) (m : List (Text × V)) → insert k v (insert k v m) ≡ insert k v m
unfolding insert
insert-insert k v [] = rw (str_eq_refl k) refl
insert-insert k v ((j, w) ∷ m) = ground (arith, str_eq_refl k, insert-insert k v m)

lookup-insert_self {ℓ} :
    {V : Type ℓ} (k : Text) (v : V) (m : List (Text × V)) → lookup k (insert k v m) ≡ some v
lookup-insert_self k v m = rw (lookup-insert k k v m, str_eq_refl k) refl

module _ (L : Librados) (K : IndexCalls L) (M : MetadataModule L) where
  -- Mails that are restored are passed over.
  add_objects_restored :
      (ctx : K.Context) (alt : Bool) (mails : List MailObject) (uid : ℕ) (ret : ℤ) (s : L.State)
      → All IsRestored mails
      → add_objects L K M ctx alt mails uid ret s ≡ some (ret, mails, uid, s)
  unfolding add_objects before
  add_objects_restored ctx alt [] uid ret s h = refl
  add_objects_restored ctx alt (mail ∷ mails) uid ret s h =
      turn_kept L K M ctx alt mail mails uid ret s h.0
      ∙ ap (before L K M mail) (add_objects_restored ctx alt mails uid ret s h.1)

  -- What the end of a rebuild without an error leaves.
  finish_entry_ok :
      (box : K.Box) (m r : RadosMails) (ret : ℤ) (n : ℕ) (s1 : L.State) (mails : List MailObject)
      (uid : ℕ) (o : Option (ℤ × List MailObject × ℕ × L.State))
      → Restores L K M uid mails o
      → finish_entry L K M box m o ≡ some (ret, r, n, s1)
      → is_neg ret ≡ false
      → (mails' : List MailObject) × (r ≡ insert (K.mailbox_guid box) mails' m)
        × All IsRestored mails'
  unfolding finish_entry
  finish_entry_ok box m r ret n s1 mails uid none h e ok = absurd (ground arith)
  finish_entry_ok box m r ret n s1 mails uid (some (ret0, mails', uid', s)) h e ok =
      let q : is_neg ret0 ≡ false = ground arith in (mails', ground arith, (h q).0)

  -- The rebuild of a mailbox whose mails are restored.
  again :
      (box : K.Box) (ctx : K.Context) (alt : Bool) (mails : List MailObject) (m : RadosMails)
      (uid : ℕ) (s : L.State)
      → All IsRestored mails
      → rebuild_entry L K M box ctx alt (insert (K.mailbox_guid box) mails m) uid s
        ≡ some (pos 0, insert (K.mailbox_guid box) mails m, first_uid L K M ctx uid s, s)
  unfolding rebuild_entry finish_entry
  again box ctx alt mails m uid s h =
      rw
        (
          rebuild_entry,
          lookup-insert_self (K.mailbox_guid box) mails m,
          add_objects_restored ctx alt mails (first_uid L K M ctx uid s) (pos 0) s h,
          insert-insert (K.mailbox_guid box) mails m,
        )
        refl

  rebuild_entry-none :
      (box : K.Box) (ctx : K.Context) (alt : Bool) (m : RadosMails) (uid : ℕ) (s : L.State)
      → lookup (K.mailbox_guid box) m ≡ none
      → rebuild_entry L K M box ctx alt m uid s ≡ some (pos 0, m, first_uid L K M ctx uid s, s)
  unfolding rebuild_entry
  rebuild_entry-none box ctx alt m uid s e = rw (rebuild_entry, e) refl

  from_lookup :
      (box : K.Box) (ctx ctx' : K.Context) (alt alt' : Bool) (m r : RadosMails) (uid uid' n : ℕ)
      (s s1 s2 : L.State) (ret : ℤ) (o : Option (List MailObject))
      → first_uid L K M ctx uid s < 4294967296
      → lookup (K.mailbox_guid box) m ≡ o
      → rebuild_entry L K M box ctx alt m uid s ≡ some (ret, r, n, s1)
      → is_neg ret ≡ false
      → rebuild_entry L K M box ctx' alt' r uid' s2
        ≡ some (pos 0, r, first_uid L K M ctx' uid' s2, s2)
  unfolding rebuild_entry
  from_lookup box ctx ctx' alt alt' m r uid uid' n s s1 s2 ret none h f e ok =
      let q : r ≡ m = ground arith in rw q (rebuild_entry-none box ctx' alt' m uid' s2 f)
  from_lookup box ctx ctx' alt alt' m r uid uid' n s s1 s2 ret (some mails) h f e ok =
      let (mails', g, all) =
        finish_entry_ok box m r ret n s1 mails (first_uid L K M ctx uid s) _
          (add_objects-Restores L K M ctx alt mails (first_uid L K M ctx uid s) (pos 0) s h)
          (ground arith) ok in
      rw g (again box ctx' alt' mails' m uid' s2 all)

  -- Where the mails of a mailbox were added without an error, starting from a uid of 32 bits, doing it
  -- once more, in any state and from any uid, adds none of them again: the result is 0, and neither the
  -- mails nor the state change.
  pub rebuild_entry_again :
      (box : K.Box) (ctx ctx' : K.Context) (alt alt' : Bool) (m r : RadosMails) (uid uid' n : ℕ)
      (s s1 s2 : L.State) (ret : ℤ)
      → first_uid L K M ctx uid s < 4294967296
      → rebuild_entry L K M box ctx alt m uid s ≡ some (ret, r, n, s1)
      → is_neg ret ≡ false
      → rebuild_entry L K M box ctx' alt' r uid' s2
        ≡ some (pos 0, r, first_uid L K M ctx' uid' s2, s2)
  rebuild_entry_again box ctx ctx' alt alt' m r uid uid' n s s1 s2 ret h e ok =
      from_lookup box ctx ctx' alt alt' m r uid uid' n s s1 s2 ret _ h refl e ok
