-- ===== src/Sync/Expunge.antt =====
-- What expunging a range of mails marks in the index, and the items it keeps for later.
use dovecot_ceph_plugin.Prelude.{
  ℕ, zero, suc, ◌<◌, ◌+◌, ◌≡◌, refl, sym, ◌==◌, ==_iff, Bool, true, false, ◌||◌, ◌&&◌, not, Option,
  none, some, List, [], ◌∷◌, ◌++◌, Text, append_assoc, append-nil, if◌then◌else◌, arith, ltb, leb,
}
use dovecot_ceph_plugin.Librados.{Librados}
use dovecot_ceph_plugin.Sync.{
  SyncCalls, ExpungedItem, rounds, is_in_alt, expunge_one, expunge_from, sync_expunge,
}

-- The view that is synchronised does not change while mails are expunged in the transaction, which
-- remembers the numbers of those that are.
pub record ViewLaws (L : Librados) (K : SyncCalls L) : Type 0 where
  pub flags_keep :
      (i j : ℕ) (s : L.State) → K.lookup_flags j (K.mail_index_expunge i s) ≡ K.lookup_flags j s
  pub ext_keep :
      (i j : ℕ) (s : L.State) → K.lookup_ext j (K.mail_index_expunge i s) ≡ K.lookup_ext j s
  pub uid_keep :
      (i j : ℕ) (s : L.State) → K.lookup_uid j (K.mail_index_expunge i s) ≡ K.lookup_uid j s
  pub expunged :
      (i j : ℕ) (s : L.State)
      → K.is_expunged j (K.mail_index_expunge i s) ≡ (i == j) || K.is_expunged j s

abbrev pub is_some {ℓ} : {A : Type ℓ} → Option A → Bool
is_some none = false
is_some (some a) = true

module _ (L : Librados) (K : SyncCalls L) where
  -- The item of a mail that has a record with an oid and is not expunged yet.
  unfoldable pub item_at : Option ℕ → Option Text → Bool → ℕ → List ExpungedItem
  item_at (some mail_flags) (some oid) false uid =
      record { uid = uid; oid = oid; alt_storage = is_in_alt L K mail_flags } ∷ []
  item_at (some mail_flags) (some oid) true uid = []
  item_at (some mail_flags) none is_expunged uid = []
  item_at none oid is_expunged uid = []

  abbrev pub item_of : ℕ → L.State → List ExpungedItem
  item_of seq s =
      item_at (K.lookup_flags seq s) (K.lookup_ext seq s) (K.is_expunged seq s) (K.lookup_uid seq s)

  -- The items of `n` mails from `seq` on, all looked up in one state.
  unfoldable pub items_from : ℕ → ℕ → L.State → List ExpungedItem
  items_from zero seq s = []
  items_from (suc n) seq s = item_of seq s ++ items_from n (suc seq) s

  module _ (v : ViewLaws L K) where
    eq_later : (i j : ℕ) → i < j → (i == j) ≡ false
    eq_later i j h = ground arith

    item_of_keep :
        (i seq : ℕ) (s : L.State) → i < seq → item_of seq (K.mail_index_expunge i s) ≡ item_of seq s
    item_of_keep i seq s h =
        rw
          (
            v.flags_keep i seq s,
            v.ext_keep i seq s,
            v.uid_keep i seq s,
            v.expunged i seq s,
            eq_later i seq h,
          )
          refl

    items_from_keep :
        (n i seq : ℕ) (s : L.State)
        → i < seq
        → items_from n seq (K.mail_index_expunge i s) ≡ items_from n seq s
    unfolding items_from
    items_from_keep zero i seq s h = refl
    items_from_keep (suc n) i seq s h =
        rw (item_of_keep i seq s h, items_from_keep n i (suc seq) s (omega arith)) refl

    -- One round: what it keeps, and that the state is the same or one mail is expunged.
    expunge_one_lem :
        (seq : ℕ) (items : List ExpungedItem) (s : L.State)
        → ((expunge_one L K seq items s).0 ≡ items ++ item_of seq s)
          × ((expunge_one L K seq items s).1 ≡ (
              if is_some (K.lookup_flags seq s) && not (K.is_expunged seq s)
              then K.mail_index_expunge seq s
              else s))
    unfolding expunge_one item_at
    expunge_one_lem seq items s = ground (arith, v.ext_keep seq seq s, append-nil items)

    -- What holds of the state and of the state with one mail expunged holds after a round.
    module _ (seq : ℕ) (items : List ExpungedItem) (s : L.State) where
      after_one :
          (P : L.State → Type 0)
          → P s
          → P (K.mail_index_expunge seq s)
          → P (expunge_one L K seq items s).1
      after_one P p q =
          rw (expunge_one_lem seq items s).1
            (elim (is_some (K.lookup_flags seq s) && not (K.is_expunged seq s))
              as (λ b. P (if b then K.mail_index_expunge seq s else s)) [ true ↦ q | false ↦ p ])

      marks_one :
          (j : ℕ)
          → K.is_expunged j (expunge_one L K seq items s).1
            ≡ K.is_expunged j s || ((seq == j) && is_some (K.lookup_flags j s))
      marks_one j =
          rw (expunge_one_lem seq items s).1 (ground (arith, v.expunged seq j s, ==_iff seq j))

    -- The mails from `seq` on, of which there are `n`.
    abbrev is_within : ℕ → ℕ → ℕ → Bool
    is_within n seq j = leb seq j && ltb j (seq + n)

    -- What is expunged in the transaction afterwards.
    expunge_from-marks :
        (n seq j : ℕ) (items : List ExpungedItem) (s : L.State)
        → K.is_expunged j (expunge_from L K n seq items s).1
          ≡ K.is_expunged j s || (is_within n seq j && is_some (K.lookup_flags j s))
    unfolding expunge_from
    expunge_from-marks zero seq j items s = ground arith
    expunge_from-marks (suc n) seq j items s =
        let (items1, s1) = expunge_one L K seq items s in
        let flags_s1 : K.lookup_flags j s1 ≡ K.lookup_flags j s =
          after_one seq items s (λ t. K.lookup_flags j t ≡ K.lookup_flags j s) refl
            (v.flags_keep seq j s) in
        rw (expunge_from-marks n (suc seq) j items1 s1, flags_s1, marks_one seq items s j)
          (ground arith)

    expunge_from-items :
        (n seq : ℕ) (items : List ExpungedItem) (s : L.State)
        → (expunge_from L K n seq items s).0 ≡ items ++ items_from n seq s
    unfolding expunge_from items_from
    expunge_from-items zero seq items s = sym (append-nil items)
    expunge_from-items (suc n) seq items s =
        let (items1, s1) = expunge_one L K seq items s in
        let items_s1 : items_from n (suc seq) s1 ≡ items_from n (suc seq) s =
          after_one seq items s (λ t. items_from n (suc seq) t ≡ items_from n (suc seq) s) refl
            (items_from_keep n seq (suc seq) s (omega arith)) in
        rw
          (
            expunge_from-items n (suc seq) items1 s1,
            items_s1,
            (expunge_one_lem seq items s).0,
            append_assoc items (item_of seq s) (items_from n (suc seq) s),
          )
          refl

    -- Expunging a range keeps, behind the items that were there, exactly one item for each mail of it
    -- that has a record with an oid and was not expunged before, in their order, and afterwards those
    -- mails are expunged that were before or that are in the range and have a record.
    pub sync_expunge-items_from :
        (seq1 seq2 j : ℕ) (items : List ExpungedItem) (s : L.State)
        → ((sync_expunge L K seq1 seq2 items s).0 ≡ items ++ items_from (rounds seq1 seq2) seq1 s)
          × (K.is_expunged j (sync_expunge L K seq1 seq2 items s).1
              ≡ K.is_expunged j s || (leb seq1 j && leb j seq2 && is_some (K.lookup_flags j s)))
    unfolding sync_expunge
    sync_expunge-items_from seq1 seq2 j items s = (
      expunge_from-items (rounds seq1 seq2) seq1 items s,
      rw (expunge_from-marks (rounds seq1 seq2) seq1 j items s) (ground arith),
    )
