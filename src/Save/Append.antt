-- ===== src/Save/Append.antt =====
-- What `save_mail_write_append` leaves in the store.
use native.Mathlib.Nat.{mod-eq_of_lt}
use dovecot_ceph_plugin.Prelude.{
  ℕ, zero, suc, ◌+◌, ◌*◌, ◌%◌, ◌<◌, ◌≤◌, ℤ, pos, minus_one, to_u64, to_u64_small, int_eq, Bool,
  true, false, ◌≡◌, refl, ap, ◌∙◌, Option, some, ◌++◌, Text, length, take, drop, take_all,
  length-take, length-drop, arith, ltb, if◌then◌else◌,
}
use dovecot_ceph_plugin.Librados.{Librados}
use dovecot_ceph_plugin.Librados.Laws.{ObjectLaws}
use dovecot_ceph_plugin.Storage.{Storage, Mail, chunk_length, append_to_object}
use dovecot_ceph_plugin.Storage.Chunks.{
  count, begins, ends_all, chunk_offset-pos, chunk_fits, chunk_length-narrow, chunk_continues,
}
use dovecot_ceph_plugin.Storage.Write.{bytes, append-bytes}
use dovecot_ceph_plugin.Save.{chunk_of, append_chunks}

-- A mail whose size is that of its buffer, and is one of an `int`.
pub record IsSized (mail : Mail) : Type 0 where
  pub size : mail.mail_size ≡ pos (length mail.mail_buffer)
  pub small : length mail.mail_buffer < 2147483648

module _ (L : Librados) (w : ObjectLaws L) (st : Storage L) where
  -- The write returned: it reports success and the object holds the mail's bytes, or it reports an
  -- error.
  pub data Saved (mail : Mail) (result : Option (ℤ × L.State)) : Type 0 where
    saved :
        (s' : L.State)
        → result ≡ some (pos 0, s')
        → bytes L w st mail.oid s' ≡ mail.mail_buffer
        → Saved mail result
    reported : (s' : L.State) → result ≡ some (minus_one, s') → Saved mail result

  module _ (mail : Mail) (m : ℕ) (v : IsSized mail) (positive : 0 < m)
      (narrow : m < 4294967296) where
    pub size_read : to_u64 mail.mail_size ≡ length mail.mail_buffer
    size_read = rw (v.size) (to_u64_small (length mail.mail_buffer) v.small)

    not_past :
        (off len : ℕ)
        → off + len ≤ length mail.mail_buffer
        → ltb
            (length mail.mail_buffer % 4294967296)
            ((off % 18446744073709551616 + len) % 18446744073709551616)
          ≡ false
    not_past off len h = ground (arith, v.small)

    low :
        (off len : ℕ)
        → off + len ≤ length mail.mail_buffer
        → off % 18446744073709551616 % 4294967296 ≡ off
    low off len h = omega (arith, v.small)

    chunk_of-inside :
        (off len : ℕ)
        → off + len ≤ length mail.mail_buffer
        → len < 4294967296
        → chunk_of L (pos off) len mail.mail_buffer ≡ some (take len (drop off mail.mail_buffer))
    unfolding chunk_of to_u64
    chunk_of-inside off len h k =
        rw (not_past off len h, low off len h, mod-eq_of_lt k)
          (w.substr_of_inside mail.mail_buffer off len h)

    in_size :
        (off len : ℕ)
        → off + len ≤ length mail.mail_buffer
        → ltb (length mail.mail_buffer) ((off + len) % 18446744073709551616) ≡ false
    in_size off len h = ground (arith, v.small)

    abbrev piece_length : ℕ → ℕ
    piece_length i = chunk_length (length mail.mail_buffer) m i

    abbrev piece : ℕ → Text
    piece i = take (piece_length i) (drop (i * m) mail.mail_buffer)

    -- What the loop does with the result of an append.
    goes_on : ℤ → ℕ → ℕ → Bool × L.State → Option (ℤ × L.State)
    goes_on div n i (ok, s) =
        if ok then append_chunks L m div mail st n (suc i) (pos 0) s else some (minus_one, s)

    goes_on-Saved :
        (div : ℤ) (n i : ℕ) (r : Bool × L.State)
        → (r.0 ≡ true → Saved mail (append_chunks L m div mail st n (suc i) (pos 0) r.1))
        → Saved mail (goes_on div n i r)
    unfolding goes_on
    goes_on-Saved div n i (true, s) f = f refl
    goes_on-Saved div n i (false, s) f = reported s refl

    -- One turn of the loop, on a mail of several chunks: the next bytes are appended.
    append_chunks-next :
        (n i : ℕ) (ret : ℤ) (div : ℤ) (s : L.State)
        → int_eq div (pos 1) ≡ false
        → i < count (length mail.mail_buffer) m
        → append_chunks L m div mail st (suc n) i ret s
          ≡ goes_on div n i (append_to_object L mail.oid (piece i) (piece_length i) st s)
    unfolding append_chunks goes_on
    append_chunks-next n i ret div s several h =
        let inside = begins _ m v.small positive narrow i h in
        let fits = chunk_fits _ m v.small positive narrow i inside in
        rw
          (
            several,
            append_chunks,
            size_read,
            chunk_offset-pos _ m v.small positive narrow i inside,
            to_u64_small (i * m) (omega (arith, v.small)),
            in_size (i * m) _ fits,
            size_read,
            chunk_offset-pos _ m v.small positive narrow i inside,
            chunk_of-inside (i * m) _ fits
                (chunk_length-narrow _ m v.small positive narrow i inside),
            size_read,
          )
          refl

    all_done :
        (i : ℕ) (ret : ℤ) (div : ℤ) (s : L.State)
        → ret ≡ pos 0
        → append_chunks L m div mail st 0 i ret s ≡ some (pos 0, s)
    unfolding append_chunks
    all_done i ret div s h = ap (λ r. some (r, s)) h

    reached : (i : ℕ) → i + 0 ≡ count (length mail.mail_buffer) m → length mail.mail_buffer ≤ i * m
    reached i h =
        let last : i ≡ count (length mail.mail_buffer) m = omega arith in
        rw last (ends_all _ m v.small positive narrow)

    -- The bytes after an append that worked.
    grown :
        (i : ℕ) (s : L.State)
        → i < count (length mail.mail_buffer) m
        → bytes L w st mail.oid s ≡ take (i * m) mail.mail_buffer
        → (append_to_object L mail.oid (piece i) (piece_length i) st s).0 ≡ true
        → bytes L w st mail.oid (append_to_object L mail.oid (piece i) (piece_length i) st s).1
          ≡ take (suc i * m) mail.mail_buffer
    grown i s h so_far ok =
        let inside = begins _ m v.small positive narrow i h in
        let fits = chunk_fits _ m v.small positive narrow i inside in
        let whole = length-take (piece_length i) (drop (i * m) mail.mail_buffer) in
        let left = length-drop (i * m) mail.mail_buffer in
        append-bytes L w st mail.oid (piece i) (piece_length i) s (omega arith) ok
        ∙ ap (λ x. x ++ take (piece_length i) (piece i)) so_far
        ∙ ap (λ x. take (i * m) mail.mail_buffer ++ x)
            (take_all (piece_length i) (piece i) (omega arith))
        ∙ chunk_continues _ m v.small positive narrow i inside mail.mail_buffer refl

    pub append_chunks_lem :
        (n i : ℕ) (ret : ℤ) (div : ℤ) (s : L.State)
        → int_eq div (pos 1) ≡ false
        → i + n ≡ count (length mail.mail_buffer) m
        → bytes L w st mail.oid s ≡ take (i * m) mail.mail_buffer
        → (n ≡ 0 → ret ≡ pos 0)
        → Saved mail (append_chunks L m div mail st n i ret s)
    append_chunks_lem zero i ret div s several h so_far done =
        saved s (all_done i ret div s (done refl))
          (so_far ∙ take_all (i * m) mail.mail_buffer (reached i h))
    append_chunks_lem (suc n) i ret div s several h so_far done =
        rw (append_chunks-next n i ret div s several (omega arith)) (
          goes_on-Saved div n i _ (λ ok.
            append_chunks_lem n (suc i) (pos 0) div _ several (omega arith)
              (grown i s (omega arith) so_far ok) (λ e. refl)))
