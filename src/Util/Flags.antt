-- ===== src/Util/Flags.antt =====
-- Mail flags as text.
use dovecot_ceph_plugin.Prelude.{
  is_space, ℕ, zero, suc, ◌+◌, ◌%◌, ◌<◌, ◌≡◌, refl, Bool, true, ◌&&◌, none, some, List, [], ◌∷◌,
  Text, arith, codes, str_eq, split_on, ◌==◌, ==_iff, if◌then◌else◌,
}
use dovecot_ceph_plugin.Util.{flags_to_string, string_to_flags, resolve_flags}

-- Writing flags and reading them back gives the flags again, unless their value is the code of a
-- white space character: then nothing is written and nothing can be read.
pub string_to_flags-flags_to_string :
    (flags : ℕ)
    → string_to_flags (flags_to_string flags []) ≡ (if is_space flags then none else some flags)
unfolding string_to_flags flags_to_string
string_to_flags-flags_to_string flags = ground arith

-- The value of a word of the description.
word_value : Text → ℕ
word_value w =
    if str_eq w (codes "\\Answered")
    then 1
    else if str_eq w (codes "\\Flagged")
    then 2
    else if str_eq w (codes "\\Deleted")
    then 4
    else if str_eq w (codes "\\Seen")
    then 8
    else if str_eq w (codes "\\Draft")
    then 16
    else if str_eq w (codes "\\Recent")
    then 32
    else 0

words_value : List Text → ℕ
unfolding word_value
words_value [] = 0
words_value (w ∷ ws) = word_value w + words_value ws

-- The flags that a description names.
pub described : Text → ℕ
unfolding words_value
described text = words_value (split_on 32 text)

-- The description of `flags` names their six lowest bits.
names_itself : ℕ → Bool
unfolding described
names_itself flags = described (resolve_flags flags) == flags % 64

table_holds : ℕ → Bool
table_holds zero = true
table_holds (suc top) = table_holds top && names_itself top

table_entry : (flags top : ℕ) → flags < top → table_holds top ≡ true → names_itself flags ≡ true
unfolding table_holds
table_entry flags zero within checked = absurd (omega arith)
table_entry flags (suc top) within checked = ground (arith, table_entry flags top)

byte_table : table_holds 256 ≡ true
unfolding table_holds names_itself resolve_flags split_on
byte_table = refl

-- The description of a byte of flags names exactly its six lowest bits.
pub described-resolve_flags :
    (flags : ℕ) → flags < 256 → described (resolve_flags flags) ≡ flags % 64
unfolding names_itself
described-resolve_flags flags h = (==_iff _ (flags % 64)).0 (table_entry flags 256 h byte_table)
