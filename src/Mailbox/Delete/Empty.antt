-- ===== src/Mailbox/Delete/Empty.antt =====
-- When the object that maps a user to a namespace is left alone.
use dovecot_ceph_plugin.Prelude.{
  ℕ, ◌+◌, ◌%◌, ◌^◌, ◌<◌, ◌≡◌, refl, ◌∙◌, ◌==◌, ℤ, minus_one, true, false, some, List, [], ◌∷◌, Text,
  arith, if◌then◌else◌,
}
use dovecot_ceph_plugin.Librados.{Librados}
use dovecot_ceph_plugin.Librados.Laws.{ObjectLaws}
use dovecot_ceph_plugin.Config.{JsonConfig}
use dovecot_ceph_plugin.Storage.{Storage}
use dovecot_ceph_plugin.Mailbox.Delete.{
  Listed, Space, DeleteCalls, mails_of, count_mails, check_space,
}

module _ (L : Librados) (C : DeleteCalls L) where
  -- All mails of the mailboxes, by the answers that are given in this order, with no bound on the number.
  unfoldable pub mails : List Listed → L.State → ℕ
  mails [] s = 0
  mails (box ∷ boxes) s = elim box.exists [
    | false ↦ mails boxes s
    | true ↦ (let (messages, s1) = C.get_status box.vname s in mails_of messages + mails boxes s1)
  ]

  some_differ : (n : ℕ) → 0 < n → (n == 0) ≡ false
  some_differ n h = ground arith

  count_mails-mails :
      (boxes : List Listed) (total : ℕ) (s : L.State)
      → total + mails boxes s < 2 ^ 32
      → (count_mails L C boxes total s).0 ≡ total + mails boxes s
  unfolding count_mails mails
  count_mails-mails [] total s h = omega arith
  count_mails-mails (box ∷ boxes) total s h =
      let (messages, s1) = C.get_status box.vname s in
      let n = mails_of messages in
      elim box.exists
          as (λ b.
            total + (elim b as (λ x. ℕ) [ false ↦ mails boxes s | true ↦ n + mails boxes s1 ])
              < 2 ^ 32
            → (elim b as (λ x. ℕ × L.State) [
              | false ↦ count_mails L C boxes total s
              | true ↦ count_mails L C boxes ((total + n) % 2 ^ 32) s1
            ]).0
              ≡ total
                + (elim b as (λ x. ℕ) [ false ↦ mails boxes s | true ↦ n + mails boxes s1 ])) [
                  | false ↦ λ e. count_mails-mails boxes total s e
                  | true ↦ λ e.
                      let small : (total + n) % 2 ^ 32 ≡ total + n = omega arith in
                      count_mails-mails boxes ((total + n) % 2 ^ 32) s1 (omega arith) ∙ omega arith
                ]
        h

  module _ (w : ObjectLaws L) (cfg : JsonConfig)
      (status_keeps : (vname : Text) (s : L.State)
        → w.object (C.get_status vname s).1 ≡ w.object s) where
    count_mails-keeps :
        (boxes : List Listed) (total : ℕ) (s : L.State)
        → w.object (count_mails L C boxes total s).1 ≡ w.object s
    unfolding count_mails
    count_mails-keeps [] total s = refl
    count_mails-keeps (box ∷ boxes) total s =
        let (messages, s1) = C.get_status box.vname s in
        elim box.exists
          as (λ b.
            w.object
              (elim b as (λ x. ℕ × L.State) [
                | false ↦ count_mails L C boxes total s
                | true ↦ count_mails L C boxes ((total + mails_of messages) % 2 ^ 32) s1
              ]).1
            ≡ w.object s) [
              | false ↦ count_mails-keeps boxes total s
              | true ↦ count_mails-keeps boxes _ s1 ∙ status_keeps box.vname s
            ]

    -- Where a mailbox of a namespace has mails, or one whose status cannot be found out, and there are
    -- less than 2 ^ 32 mails in all, looking at the namespace changes no object and not the storage;
    -- finding out the status changes no object.
    pub check_space-keeps :
        (space : Space) (ret : ℤ) (st : Storage L) (s : L.State)
        → 0 < mails space.boxes s
        → mails space.boxes s < 2 ^ 32
        → (ret1 : ℤ) × (s1 : L.State) × (check_space L C cfg space ret st s ≡ some (ret1, st, s1))
          × (w.object s1 ≡ w.object s)
    unfolding check_space
    check_space-keeps space ret st s some_mail few =
        let counted : ((count_mails L C space.boxes 0 s).0 == 0) ≡ false =
          rw (count_mails-mails space.boxes 0 s (omega arith))
            (some_differ (0 + mails space.boxes s) (omega arith)) in
        (
          (if space.iterated then ret else minus_one),
          (count_mails L C space.boxes 0 s).1,
          rw (check_space, counted) refl,
          count_mails-keeps space.boxes 0 s,
        )
