-- ===== src/DictRados/Uri.antt =====
-- src/dict-rados/dict-rados.cpp: the properties that `rados_dict_init` reads from the URI.
use dovecot_ceph_plugin.Prelude.{
  ℕ, ◌≡◌, refl, ap, ◌∙◌, ◌++◌, true, Option, none, some, List, [], ◌∷◌, Text, codes, arith,
  has_prefix, drop, is_empty, length, ltb, free_of, split_on, split_on-append, split_on_last,
  if◌then◌else◌,
}

pub record Properties : Type 0 where
  pub oid : Text
  pub poolname : Text
  pub clustername : Text
  pub rados_username : Text
  pub ceph_cfg : Text

-- `throws` is the exception of `substr` past the end.
pub data Parsed : Type 0 where
  parsed : Properties → Parsed
  invalid_uri throws : Parsed

-- `explode`.
unfoldable pub explode : Text → ℕ → List Text
explode str sep = split_on sep str

abbrev pub defaults : Properties
defaults = record {
  oid = [];
  poolname = codes "mail_dictionaries";
  clustername = codes "ceph";
  rados_username = codes "client.admin";
  ceph_cfg = codes "rbox_cfg";
}

-- The offset of `dict_user_name=` is one more than its length.
unfoldable pub read_property : Text → Properties → Parsed
read_property it p =
    if has_prefix (codes "oid=") it
    then parsed (record p { oid = drop 4 it })
    else if has_prefix (codes "pool=") it
    then parsed (record p { poolname = drop 5 it })
    else if has_prefix (codes "dict_cluster_name=") it
    then parsed (record p { clustername = drop 18 it })
    else if has_prefix (codes "dict_user_name=") it
    then (if ltb (length it) 16 then throws else parsed (record p { rados_username = drop 16 it }))
    else if has_prefix (codes "dict_cfg_object_name=") it
    then parsed (record p { ceph_cfg = drop 21 it })
    else invalid_uri

unfoldable pub read_properties : List Text → Properties → Parsed
read_properties [] p = parsed p
read_properties (it ∷ its) p = elim (read_property it p) [
  | invalid_uri ↦ invalid_uri
  | throws ↦ throws
  | parsed q ↦ read_properties its q
]

-- `none` is the null pointer.
unfoldable pub parse_uri : Option Text → Parsed
parse_uri none = parsed defaults
parse_uri (some uri) = read_properties (explode uri b':') defaults

abbrev pub uri_of : Properties → Text
uri_of p =
    (codes "oid=" ++ p.oid)
    ++ b':'
      ∷ ((codes "pool=" ++ p.poolname)
          ++ b':'
            ∷ ((codes "dict_cluster_name=" ++ p.clustername)
                ++ b':' ∷ (codes "dict_cfg_object_name=" ++ p.ceph_cfg)))

-- A URI of the object's name, the pool, the cluster and the configuration object, none with a
-- colon, is read back as written, with the default user.
pub parse_uri-uri_of :
    (p : Properties)
    → free_of b':' p.oid ≡ true
    → free_of b':' p.poolname ≡ true
    → free_of b':' p.clustername ≡ true
    → free_of b':' p.ceph_cfg ≡ true
    → parse_uri (some (uri_of p)) ≡ parsed (record p { rados_username = codes "client.admin" })
unfolding parse_uri explode read_properties read_property
parse_uri-uri_of p ho hp hc hf =
    ap (λ its. read_properties its defaults)
      (split_on-append b':' (codes "oid=" ++ p.oid) _ ho
        ∙ ap (◌∷◌ (codes "oid=" ++ p.oid)) (
            split_on-append b':' (codes "pool=" ++ p.poolname) _ hp
            ∙ ap (◌∷◌ (codes "pool=" ++ p.poolname)) (
                split_on-append b':' (codes "dict_cluster_name=" ++ p.clustername) _ hc
                ∙ ap (◌∷◌ (codes "dict_cluster_name=" ++ p.clustername))
                    (split_on_last b':' b'd' (codes "ict_cfg_object_name=" ++ p.ceph_cfg) hf))))

-- The user's name loses its first byte, and an empty name ends in an exception.
pub parse_uri_user :
    (name : Text)
    → free_of b':' name ≡ true
    → parse_uri (some (codes "dict_user_name=" ++ name)) ≡ (
        if is_empty name then throws else parsed (record defaults { rados_username = drop 1 name }))
unfolding parse_uri explode read_properties read_property
parse_uri_user name h = rw (split_on_last b':' b'd' (codes "ict_user_name=" ++ name) h) (by name)
  where
    by :
        (name : Text)
        → read_properties ((codes "dict_user_name=" ++ name) ∷ []) defaults ≡ (
            if is_empty name
            then throws
            else parsed (record defaults { rados_username = drop 1 name }))
    by [] = refl
    by (c ∷ name) = ground arith
