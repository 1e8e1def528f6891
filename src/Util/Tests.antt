-- ===== src/Util/Tests.antt =====
-- Runs and witnesses for the utilities.
use dovecot_ceph_plugin.Prelude.{◌≡◌, ◌↔◌, true, some, [], ◌∷◌, Text, Map, arith, codes}
use dovecot_ceph_plugin.Util.{validate_metadata}
use dovecot_ceph_plugin.Util.Validate.{IsValidMail, validate_metadata_iff}
use dovecot_ceph_plugin.Util.Replace.{find_and_replace, find_and_replace_ends}

abbrev mail_metadata : Map Text
mail_metadata =
    (codes "G", codes "g1")
    ∷ (codes "M", codes "m1")
    ∷ (codes "R", codes "1511")
    ∷ (codes "U", codes "7")
    ∷ (codes "V", codes "20")
    ∷ (codes "Z", codes "19")
    ∷ []

validate_metadata_iff_example : (validate_metadata mail_metadata ≡ true) ↔ IsValidMail mail_metadata
validate_metadata_iff_example = validate_metadata_iff mail_metadata

find_and_replace_ends_example :
    (r : Text) × (find_and_replace 6 (codes "ab") (codes "aba") (codes "xabab") 0 ≡ some r)
find_and_replace_ends_example =
    find_and_replace_ends 6 (codes "ab") (codes "aba") (codes "xabab") 0 (omega arith) (omega arith)
      (omega arith)
