-- ===== src/SaveLog/Moves.antt =====
-- Reading back the operation of a moved object.
use dovecot_ceph_plugin.Prelude.{
  ℕ, ◌≡◌, refl, ap, ◌∙◌, ◌++◌, true, false, some, List, [], ◌∷◌, Text, codes, arith, is_empty,
  free_of, cut, cut-append, split_on, split_on-append, split_on_last, All, free_of-append,
  append_assoc, append-nil, map,
}
use dovecot_ceph_plugin.Types.{MetadataKey, key_to_char}
use dovecot_ceph_plugin.Metadata.{RadosMetadata, convert, to_string}
use dovecot_ceph_plugin.Metadata.Format.{to_string-convert, from_string-to_string}
use dovecot_ceph_plugin.SaveLog.{
  RadosSaveLogEntry, parse_items, parse_right, parse_left, parse_mv_op, convert_metadata, op_mv,
}

-- A value that the text form of a list of entries can carry.
abbrev pub IsItem : MetadataKey × Text → Type 0
IsItem (k, v) = (free_of b'=' v ≡ true) × (free_of b':' v ≡ true) × (is_empty v ≡ false)

abbrev pub stored : List (MetadataKey × Text) → List RadosMetadata
stored = map λ p. convert p.0 p.1

-- The same entries without the NUL.
abbrev pub reread : List (MetadataKey × Text) → List RadosMetadata
reread = map λ p. record { bl = p.1; key = key_to_char p.0 }

key_to_char_free : (k : MetadataKey) → free_of b':' (key_to_char k) ≡ true
unfolding key_to_char
key_to_char_free (MetadataKey.other c) = refl
key_to_char_free _ = refl

item_free :
    (k : MetadataKey) (v : Text)
    → free_of b':' v ≡ true
    → free_of b':' (to_string (convert k v)) ≡ true
item_free k v h =
    rw (to_string-convert k v)
      (free_of-append b':' (key_to_char k) (b'=' ∷ v) (key_to_char_free k) (ground arith))

split_whole :
    (a : Text) (c : ℕ) (b : Text)
    → free_of b':' (a ++ c ∷ b) ≡ true
    → split_on b':' (a ++ c ∷ b) ≡ (a ++ c ∷ b) ∷ []
split_whole [] c b h = split_on_last b':' c b h
split_whole (d ∷ a) c b h = split_on_last b':' d (a ++ c ∷ b) h

split_item :
    (k : MetadataKey) (v : Text)
    → free_of b':' v ≡ true
    → split_on b':' (to_string (convert k v)) ≡ to_string (convert k v) ∷ []
split_item k v h =
    rw (to_string-convert k v)
      (split_whole (key_to_char k) b'=' v (rw (to_string-convert k v) at (item_free k v h)))

split_stored :
    (ps : List (MetadataKey × Text))
    → All IsItem ps
    → split_on b':' (convert_metadata (stored ps) (codes ":")) ≡ map to_string (stored ps)
unfolding convert_metadata
split_stored [] h = unfold split_on in refl
split_stored ((k, v) ∷ []) h = rw append-nil (split_item k v h.0.1)
split_stored ((k, v) ∷ q ∷ ps) h =
    split_on-append b':' (to_string (convert k v)) (convert_metadata (stored (q ∷ ps)) (codes ":"))
      (item_free k v h.0.1)
    ∙ ap (◌∷◌ (to_string (convert k v))) (split_stored (q ∷ ps) h.1)

parse_stored :
    (ps : List (MetadataKey × Text)) (acc : List RadosMetadata)
    → All IsItem ps
    → parse_items (map to_string (stored ps)) acc ≡ (true, acc ++ reread ps)
unfolding parse_items
parse_stored [] acc h = rw append-nil
parse_stored ((k, v) ∷ ps) acc h =
    rw (from_string-to_string k v h.0.0 h.0.2, parse_items)
      (parse_stored ps (acc ++ record { bl = v; key = key_to_char k } ∷ []) h.1
        ∙ ap (λ ms. (true, ms)) (append_assoc acc _ (reread ps)))

-- A field of the left part of a move.
abbrev pub IsSource : Text → Type 0
IsSource s = (free_of b':' s ≡ true) × (free_of b';' s ≡ true)

pub record IsMove (ns oid user : Text) (ps : List (MetadataKey × Text)) : Type 0 where
  pub ns_lem : IsSource ns
  pub oid_lem : IsSource oid
  pub user_lem : IsSource user
  pub user_given : is_empty user ≡ false
  pub items : All IsItem ps

abbrev left : Text → Text → Text → Text
left ns oid user = codes "mv" ++ b':' ∷ (ns ++ b':' ∷ (oid ++ b':' ∷ user))

left_free :
    (ns oid user : Text)
    → IsSource ns
    → IsSource oid
    → IsSource user
    → free_of b';' (left ns oid user) ≡ true
left_free ns oid user n o u =
    free_of-append b';' ns _ n.1 (free_of-append b';' oid (b':' ∷ user) o.1 u.1)

split_user : (s : Text) → IsSource s → is_empty s ≡ false → split_on b':' s ≡ s ∷ []
split_user [] h ne = cc
split_user (c ∷ s) h ne = split_on_last b':' c s h.0

split_left :
    (ns oid user : Text)
    → IsSource ns
    → IsSource oid
    → IsSource user
    → is_empty user ≡ false
    → split_on b':' (left ns oid user) ≡ codes "mv" ∷ ns ∷ oid ∷ user ∷ []
split_left ns oid user n o u ne =
    split_on-append b':' (codes "mv") (ns ++ b':' ∷ (oid ++ b':' ∷ user)) refl
    ∙ ap (◌∷◌ (codes "mv")) (
        rw (
          split_on-append b':' ns (oid ++ b':' ∷ user) n.0,
          split_on-append b':' oid user o.0,
          split_user user u ne,
        ))

op_mv-left :
    (ns oid user : Text) (ms : List RadosMetadata)
    → op_mv ns oid user ms ≡ left ns oid user ++ b';' ∷ convert_metadata ms (codes ":")
unfolding op_mv
op_mv-left ns oid user ms = simp append_assoc

parse_cut :
    (e : RadosSaveLogEntry) (c : ℕ) (l r : Text)
    → cut b';' e.op ≡ some (c ∷ l, r)
    → parse_mv_op e ≡ parse_left (split_on b':' (c ∷ l)) r e
unfolding parse_mv_op
parse_cut e c l r h = rw (h, parse_mv_op)

parse_tokens :
    (e : RadosSaveLogEntry) (ns oid user right : Text) (ms : List RadosMetadata)
    → parse_items (split_on b':' right) e.metadata ≡ (true, ms)
    → parse_left (codes "mv" ∷ ns ∷ oid ∷ user ∷ []) right e
      ≡ (true, record e { src_ns = ns; src_oid = oid; src_user = user; metadata = ms })
unfolding parse_left parse_right
parse_tokens e ns oid user right ms h = rw (h, parse_left, parse_right)

-- Take a move whose namespace, name and user have no colon and no semicolon, whose user is not empty,
-- and whose metadata values are not empty and have no equals sign and no colon. In an entry without
-- metadata, the operation that the move writes into the log parses to the source's namespace, name and
-- user, and to the metadata without the NULs; the other fields keep their values.
pub parse_mv_op-op_mv :
    (e : RadosSaveLogEntry) (ns oid user : Text) (ps : List (MetadataKey × Text))
    → IsMove ns oid user ps
    → e.op ≡ op_mv ns oid user (stored ps)
    → e.metadata ≡ []
    → parse_mv_op e
      ≡ (true, record e { src_ns = ns; src_oid = oid; src_user = user; metadata = reread ps })
parse_mv_op-op_mv e ns oid user ps m h k =
    parse_cut e _ _ (convert_metadata (stored ps) (codes ":")) (
      ap (cut b';') (h ∙ op_mv-left ns oid user (stored ps))
      ∙ cut-append b';' (left ns oid user) (convert_metadata (stored ps) (codes ":"))
          (left_free ns oid user m.ns_lem m.oid_lem m.user_lem))
    ∙ ap (λ ts. parse_left ts (convert_metadata (stored ps) (codes ":")) e)
        (split_left ns oid user m.ns_lem m.oid_lem m.user_lem m.user_given)
    ∙ parse_tokens e ns oid user (convert_metadata (stored ps) (codes ":")) (reread ps)
        (rw (split_stored ps m.items, k) (parse_stored ps [] m.items))
