-- ===== src/Storage/Index.antt =====
-- The recovery index, written and read.
use dovecot_ceph_plugin.Prelude.{
  ℕ, ◌<◌, is_neg, true, false, ◌≡◌, refl, ap, ◌++◌, ◌∙◌, [], ◌∷◌, Text, TextSet, All, free_of,
  c_str, length, arith, leb, ◌==◌, IsIncreasing,
}
use dovecot_ceph_plugin.Librados.{Librados}
use dovecot_ceph_plugin.Librados.Objects.{content_of}
use dovecot_ceph_plugin.Librados.Laws.{ObjectLaws, ReadLaws}
use dovecot_ceph_plugin.Util.{convert_set_to_ceph_index, ceph_index_to_set}
use dovecot_ceph_plugin.Util.Index.{IsName, ceph_index_to_set-convert_set}
use dovecot_ceph_plugin.Storage.{Storage}
use dovecot_ceph_plugin.Storage.Recovery.{ceph_index_overwrite, ceph_index_read}

c_str_free : (s rest : Text) → free_of 0 s ≡ true → c_str rest ≡ [] → c_str (s ++ rest) ≡ s
c_str_free [] rest h e = e
c_str_free (c ∷ s) rest h e = ground (arith, c_str_free s rest)

not_zero : (n : ℕ) → 0 < n → n == 0 ≡ false
not_zero n h = ground arith

not_large : (n : ℕ) → n < 9223372036854775808 → leb 9223372036854775808 n ≡ false
not_large n h = ground arith

module _ (L : Librados) (w : ObjectLaws L) (r : ReadLaws L w) (st : Storage L) where
  -- An index whose bytes are known, with calls that answer and a NUL after the buffer: the set that
  -- the bytes spell is read.
  read_bytes :
      (bytes beyond : Text) (s : L.State)
      → c_str beyond ≡ []
      → content_of (w.object s st.recovery_io_ctx st.nspace) ≡ bytes
      → free_of 0 bytes ≡ true
      → 0 < length bytes
      → length bytes < 9223372036854775808
      → is_neg (L.stat st.recovery_io_ctx st.nspace s).0 ≡ false
      → is_neg (L.read st.recovery_io_ctx st.nspace (L.stat st.recovery_io_ctx st.nspace s).3).0
        ≡ false
      → (ceph_index_read L beyond st s).0 ≡ ceph_index_to_set bytes
  unfolding ceph_index_read
  read_bytes bytes beyond s ended h free filled bounded found readable =
      let size : (L.stat st.recovery_io_ctx st.nspace s).1 ≡ length bytes =
        r.stat_ok st.recovery_io_ctx st.nspace s found ∙ ap length h in
      let text : (L.read st.recovery_io_ctx st.nspace (L.stat st.recovery_io_ctx st.nspace s).3).1
          ≡ bytes =
        r.read_ok st.recovery_io_ctx st.nspace _ readable
        ∙ ap (λ f. content_of (f st.recovery_io_ctx st.nspace))
            (r.stat_keeps st.recovery_io_ctx st.nspace s)
        ∙ h in
      rw
        (
          size,
          not_zero (length bytes) filled,
          not_large (length bytes) bounded,
          readable,
          text,
          c_str_free bytes beyond free ended,
        )
        refl

  -- A pool of the recovery index whose calls answer, and a set of names without a comma or a NUL
  -- that is not empty and whose text has less than 2 ^ 63 bytes. Where the memory happens to hold a NUL
  -- right after the buffer that is read, which no one puts there, the set that overwrote the index is
  -- the set that is read from it.
  pub ceph_index_read-ceph_index_overwrite :
      (names : TextSet) (beyond : Text) (s : L.State)
      → c_str beyond ≡ []
      → All IsName names
      → IsIncreasing names
      → free_of 0 (convert_set_to_ceph_index names) ≡ true
      → 0 < length (convert_set_to_ceph_index names)
      → length (convert_set_to_ceph_index names) < 9223372036854775808
      → is_neg (ceph_index_overwrite L names st s).0 ≡ false
      → is_neg (L.stat st.recovery_io_ctx st.nspace (ceph_index_overwrite L names st s).1).0 ≡ false
      → is_neg
          (L.read st.recovery_io_ctx st.nspace
            (L.stat st.recovery_io_ctx st.nspace (ceph_index_overwrite L names st s).1).3).0
        ≡ false
      → (ceph_index_read L beyond st (ceph_index_overwrite L names st s).1).0 ≡ names
  unfolding ceph_index_overwrite
  ceph_index_read-ceph_index_overwrite names beyond s ended h i free filled bounded done found
        readable =
      read_bytes (convert_set_to_ceph_index names) beyond _ ended
        (r.write_full_ok st.recovery_io_ctx st.nspace (convert_set_to_ceph_index names) s done) free
        filled bounded found readable
      ∙ ceph_index_to_set-convert_set names h i
