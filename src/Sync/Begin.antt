-- ===== src/Sync/Begin.antt =====
-- Beginning to synchronise: an index that cannot be trusted is built anew first.
pub mod Outcome
use dovecot_ceph_plugin.Prelude.{
  ℕ, zero, suc, ◌==◌, ℤ, pos, minus_one, is_neg, is_zero, is_pos, Bool, true, false, not, ◌&&◌,
  ◌||◌, Option, none, some, List, [], ◌∷◌, if◌then◌else◌,
}
use Prim.Native.Nat.{bit_and, bit_or}
use dovecot_ceph_plugin.Librados.{Librados}
use dovecot_ceph_plugin.Mailbox.{Pools}
use dovecot_ceph_plugin.Sync.{SyncCalls, SyncRec, ExpungedItem}
use dovecot_ceph_plugin.Sync.Finish.{FinishCalls, sync_finish}

-- What the beginning calls: Dovecot's index, the header that `rbox_read_header` reads, and the rebuild.
pub record BeginCalls (L : Librados) : Type 0 where
  -- whether a view can be opened
  pub view_open : L.State → Bool
  pub read_header : L.State → ℤ × L.State
  pub mail_index_refresh : L.State → L.State
  pub corrupted_rebuild_count : L.State → ℕ
  -- the flag `MAIL_INDEX_HDR_FLAG_FSCKD` of the header, where Dovecot has it
  pub fsckd : L.State → Option Bool
  -- `none` ends the process
  pub rebuild_in_context : Bool → L.State → Option (ℤ × L.State)
  pub recent_flags_reset : L.State → L.State
  pub get_sync_flags : L.State → ℕ
  pub flag_require_changes : ℕ
  pub flag_fsync : ℕ
  pub flag_avoid_flag_updates : ℕ
  -- the changes that are to be gone through
  pub expunged_sync_begin : ℕ → L.State → ℤ × List SyncRec × L.State
  pub reset_fscked : L.State → Bool × L.State
  pub mailbox_open : L.State → ℤ × L.State
  pub is_opened : L.State → Bool
  pub want_full_sync : ℕ → L.State → Bool
  -- `MAILBOX_SYNC_FLAG_FORCE_RESYNC`
  pub flag_force_resync : ℕ

-- The context that is given back. `index_sync` says whether the synchronisation of the index is still
-- open: a rollback frees it and its view.
pub record SyncContext : Type 0 where
  pub expunged_items : List ExpungedItem
  pub index_sync : Bool

-- The bits 0x01, 0x02 and 0x04 of `enum rbox_sync_flags`.
pub record SyncFlags : Type 0 where
  pub force : Bool
  pub fsync : Bool
  pub force_rebuild : Bool

module _ (L : Librados) (K : SyncCalls L) (F : FinishCalls L) (B : BeginCalls L) where
  -- The view itself is not used, and its closing is left out.
  read_by_view : L.State → ℤ × L.State
  read_by_view s = if B.view_open s then B.read_header s else (minus_one, s)

  unfoldable pub refresh_header : L.State → ℤ × L.State
  unfolding read_by_view
  refresh_header s =
      let (ret, s1) = read_by_view s in
      if B.view_open s && is_neg ret then read_by_view (B.mail_index_refresh s1) else (ret, s1)

  -- The header is read only where nothing else asks for a rebuild.
  suspects : SyncFlags → L.State → Bool × L.State
  suspects fl s =
      let (ret, s1) = refresh_header s in
      if fl.force_rebuild || not (B.corrupted_rebuild_count s == 0)
      then (true, s)
      else (is_neg ret, s1)

  -- Where Dovecot has the flag in its header, it alone counts.
  unfoldable pub needs_rebuild : SyncFlags → L.State → Bool × L.State
  unfolding suspects
  needs_rebuild fl s =
      let (rebuild, s1) = suspects fl s in
      (elim (B.fsckd s1) [ none ↦ rebuild | some flag ↦ flag ], s1)

  -- With `n` of the three tries left.
  rebuild_tries : ℕ → Bool → L.State → Option (Bool × L.State)
  rebuild_tries zero force s = some (false, s)
  rebuild_tries (suc n) force s = elim (B.rebuild_in_context force s) [
    | none ↦ none
    | some (ret, s1) ↦ elim (is_neg ret) [
      | true ↦ rebuild_tries n force s1
      | false ↦ some (true, B.recent_flags_reset s1)
    ]
  ]

  -- The result is false where the index keeps breaking.
  prepare : Bool → Bool → L.State → Option (Bool × L.State)
  prepare false force s = some (true, s)
  prepare true force s = elim (rebuild_tries 3 force s) [
    | none ↦ none
    | some (true, s1) ↦ some (true, s1)
    | some (false, s1) ↦ some (false, K.set_critical s1)
  ]

  add_flag : Bool → ℕ → ℕ → ℕ
  add_flag true flag n = bit_or n flag
  add_flag false flag n = n

  sync_flags_of : Bool → SyncFlags → L.State → ℕ
  sync_flags_of rebuild fl s =
      bit_or
        (add_flag fl.fsync B.flag_fsync
          (add_flag (not rebuild && not fl.force) B.flag_require_changes (B.get_sync_flags s)))
        B.flag_avoid_flag_updates

  -- The index is asked for its changes only once it is in order.
  unfoldable pub begin_index : Bool → Bool → SyncFlags → L.State → ℤ × List SyncRec × L.State
  unfolding sync_flags_of add_flag
  begin_index false rebuild fl s = (minus_one, [], s)
  begin_index true rebuild fl s =
      let (ret, rs, s1) = B.expunged_sync_begin (sync_flags_of rebuild fl s) s in
      let (fscked, s2) = B.reset_fscked s1 in
      (ret, rs, if fscked then K.set_mailbox_corrupted s2 else s2)

  -- Everything that the beginning gives back: the result and the context.
  abbrev pub Begun : Type 0
  Begun = Option (ℤ × Option SyncContext × Pools L × L.State)

  -- After the changes have been gone through.
  after_sync_index : Option (ℤ × List ExpungedItem × Pools L × L.State) → Begun
  after_sync_index none = none
  after_sync_index (some (ret, items, p, s)) =
      if is_pos ret
      then some (pos 0, some (record { expunged_items = items; index_sync = true }), p, s)
      else let s1 = F.index_sync_rollback s in
        if is_neg ret
        then some (minus_one, none, p, F.expunging_deinit s1)
        else some (pos 0, some (record { expunged_items = items; index_sync = false }), p, s1)

  module _
      (sync_index : List SyncRec
        → Pools L
        → L.State
        → Option (ℤ × List ExpungedItem × Pools L × L.State)) where
    unfoldable pub begin_changes : Bool → ℤ × List SyncRec × L.State → Pools L → Begun
    unfolding after_sync_index
    begin_changes rebuild (ret, rs, s) p =
        if not (is_pos ret)
        then some (ret, none, p, F.expunging_deinit s)
        else after_sync_index (if rebuild then some (ret, [], p, s) else sync_index rs p s)

    unfoldable pub sync_begin : SyncFlags → Pools L → L.State → Begun
    unfolding prepare rebuild_tries
    sync_begin fl p s =
        let (rebuild, s1) = needs_rebuild fl s in
        elim (prepare rebuild fl.force_rebuild s1) [
          | none ↦ none
          | some (ok, s2) ↦ begin_changes rebuild (begin_index ok rebuild fl s2) p
        ]

    -- A context whose synchronisation is not open any more is used after it was freed.
    finish_begun : Begun → Option (ℤ × Pools L × L.State)
    finish_begun none = none
    finish_begun (some (ret, none, p, s)) = some ((if is_neg ret then minus_one else pos 0), p, s)
    finish_begun (some (ret, some ctx, p, s)) =
        if ctx.index_sync then some (sync_finish L K F true ctx.expunged_items p s) else none

    -- `none` ends the process, or what it does is not defined.
    unfoldable pub rbox_sync : SyncFlags → Pools L → L.State → Option (ℤ × Pools L × L.State)
    unfolding finish_begun
    rbox_sync fl p s = finish_begun (sync_begin fl p s)

    -- Whether Dovecot is told of a failure.
    sync_if : Bool → SyncFlags → Pools L → L.State → Option (ℤ × Pools L × L.State)
    sync_if false fl p s = some (pos 0, p, s)
    sync_if true fl p s = rbox_sync fl p s

    mark_fscked : L.State → L.State
    mark_fscked s =
        let (fscked, s1) = B.reset_fscked s in if fscked then K.set_mailbox_corrupted s1 else s1

    unfoldable pub storage_sync_init : ℕ → Pools L → L.State → Option (Bool × Pools L × L.State)
    unfolding sync_if mark_fscked
    storage_sync_init flags p s =
        let (opened, s1) = if B.is_opened s then (pos 0, s) else B.mailbox_open s in
        let s2 = mark_fscked s1 in
        if is_neg opened
        then some (true, p, s2)
        else elim (sync_if (B.want_full_sync flags s2 || not (B.corrupted_rebuild_count s2 == 0))
            (record {
              force = false;
              fsync = false;
              force_rebuild = not (bit_and flags B.flag_force_resync == 0);
            })
            p s2) [ none ↦ none | some (ret, p1, s3) ↦ some (is_neg ret, p1, s3) ]
