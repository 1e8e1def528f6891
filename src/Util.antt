-- ===== src/Util.antt =====
-- src/librmb/rados-util.cpp: tests on metadata, flags, the object index, placement groups.
pub mod Validate
pub mod Flags
pub mod Index
pub mod Groups
pub mod Replace
pub mod Tests
use dovecot_ceph_plugin.Prelude.{
  ℕ, suc, ◌+◌, ◌/◌, ◌%◌, ◌++◌, Bool, true, false, not, ◌&&◌, ◌||◌, Option, none, some, List, [],
  ◌∷◌, Text, Map, codes, every, is_digit, is_space, is_empty, keep, take, drop, length, get_elem?,
  leb, ltb, ◌==◌, c_str, lookup, insert, add, split_on, if◌then◌else◌,
}
use dovecot_ceph_plugin.Types.{
  MetadataKey, mail_uid, received_time, physical_size, virtual_size, oldv1_flags, pvt_flags,
  mailbox_guid, guid, oldv1_save_time, key_to_char,
}

-- `none` is the null pointer; the text ends at its first NUL.
unfoldable pub is_numeric : Option Text → Bool
is_numeric none = false
is_numeric (some s) = every is_digit (c_str s)

unfoldable pub is_numeric_optional : Option Text → Bool
unfolding is_numeric
is_numeric_optional none = true
is_numeric_optional (some s) = is_numeric (some s)

unfoldable pub is_date_attribute : MetadataKey → Bool
is_date_attribute oldv1_save_time = true
is_date_attribute received_time = true
is_date_attribute _ = false

-- The pointer that `c_str` of a value's buffer gives: the null pointer for a buffer without a byte.
unfoldable pub buffer_start : Option Text → Option Text
buffer_start none = none
buffer_start (some bl) = if is_empty bl then none else some bl

-- The bytes that the returned pointer leads to; what follows the buffer in memory, where a value has no
-- NUL of its own, is not modelled: the readers of the text take the buffer's end for a NUL.
unfoldable pub get_metadata : Text → Map Text → Option Text
get_metadata key metadata = buffer_start (lookup key metadata)

unfoldable pub get_key_metadata : MetadataKey → Map Text → Option Text
unfolding get_metadata
get_key_metadata key metadata = get_metadata (key_to_char key) metadata

abbrev fails : Bool → ℕ
fails true = 0
fails false = 1

abbrev is_null : Option Text → Bool
is_null none = true
is_null (some s) = false

-- The sum of the tests that fail is zero.
unfoldable pub validate_metadata : Map Text → Bool
validate_metadata metadata =
    fails (is_numeric (get_key_metadata mail_uid metadata))
      + fails (is_numeric (get_key_metadata received_time metadata))
      + fails (is_numeric (get_key_metadata physical_size metadata))
      + fails (is_numeric (get_key_metadata virtual_size metadata))
      + fails (is_numeric_optional (get_key_metadata oldv1_flags metadata))
      + fails (is_numeric_optional (get_key_metadata pvt_flags metadata))
      + fails (not (is_null (get_key_metadata mailbox_guid metadata)))
      + fails (not (is_null (get_key_metadata guid metadata)))
    == 0

-- The stream prints a `uint8_t` as a character, also under `std::hex`; the second argument is
-- what the target held, which a read that finds no word leaves there.
unfoldable pub flags_to_string : ℕ → Text → Text
flags_to_string flags flags_str = if is_space flags then flags_str else flags ∷ []

-- Reading a `uint8_t` reads one character after white space; `none` is the result `false`.
unfoldable pub string_to_flags : Text → Option ℕ
string_to_flags [] = none
string_to_flags (c ∷ s) = let rest = string_to_flags s in if is_space c then rest else some c

-- The test of one bit, and its word.
abbrev word_if : ℕ → ℕ → Text → Text
word_if flags bit word = if flags / bit % 2 == 0 then [] else word

unfoldable pub resolve_flags : ℕ → Text
resolve_flags flags =
    word_if flags 1 (codes "\\Answered ")
    ++ (word_if flags 2 (codes "\\Flagged ")
        ++ (word_if flags 4 (codes "\\Deleted ")
            ++ (word_if flags 8 (codes "\\Seen ")
                ++ (word_if flags 16 (codes "\\Draft ") ++ word_if flags 32 (codes "\\Recent ")))))

-- `convert_to_ceph_index` of one name, and of a set.
unfoldable pub convert_to_ceph_index : Text → Text
convert_to_ceph_index str = str ++ b',' ∷ []

unfoldable pub convert_set_to_ceph_index : List Text → Text
convert_set_to_ceph_index [] = []
convert_set_to_ceph_index (s ∷ list) = s ++ b',' ∷ convert_set_to_ceph_index list

insert_items : List Text → List Text → List Text
insert_items [] index = index
insert_items (s ∷ items) index = insert_items items (if is_empty s then index else add s index)

-- The last round of the loop may read nothing; its empty item is passed over like any other.
unfoldable pub ceph_index_to_set : Text → List Text
unfolding insert_items
ceph_index_to_set str = insert_items (split_on b',' str) []

-- `token.erase(std::remove_if(…, ::isspace), …)`.
abbrev pub squeeze : Text → Text
squeeze = keep λ c. not (is_space c)

keep_tokens : List Text → List Text
keep_tokens [] = []
keep_tokens (t ∷ ts) =
    let rest = keep_tokens ts in if is_empty (squeeze t) then rest else squeeze t ∷ rest

unfoldable pub split : Text → ℕ → List Text
unfolding keep_tokens
split str delimiter = keep_tokens (split_on delimiter str)

abbrev pgs_of : List Text → List Text
pgs_of [] = []
pgs_of (line ∷ rest) = squeeze (take 10 line) ∷ pgs_of rest

abbrev pop_back : List Text → Option (List Text)
pop_back [] = none
pop_back (x ∷ []) = some []
pop_back (x ∷ y ∷ xs) = elim (pop_back (y ∷ xs)) [ none ↦ none | some ys ↦ some (x ∷ ys) ]

-- `none` is the removal of an element that is not there, which is undefined.
unfoldable pub extract_pgs : Text → Option (List Text)
extract_pgs str = elim (pgs_of (split_on 10 str)) [ [] ↦ none | header ∷ rest ↦ pop_back rest ]

push_back : Text → Text → Map (List Text) → Map (List Text)
push_back osd pg tokens = elim (lookup osd tokens) [
  | none ↦ insert osd (pg ∷ []) tokens
  | some pgs ↦ insert osd (pgs ++ pg ∷ []) tokens
]

-- What one row adds. `none` is an access past the end of an empty vector.
add_row : Text → Map (List Text) → Option (Map (List Text))
unfolding push_back
add_row row tokens =
    let line = split row 32 in
    elim (get_elem? line 13) [
      | none ↦ some tokens
      | some column ↦ elim (split column b',') [
        | [] ↦ none
        | osd ∷ more ↦ elim line [
          | [] ↦ none
          | pg ∷ columns ↦ some (push_back (drop 1 osd) pg tokens)
        ]
      ]
    ]

add_rows : List Text → Map (List Text) → Option (Map (List Text))
unfolding add_row
add_rows [] tokens = some tokens
add_rows (row ∷ rows) tokens = elim (add_row row tokens) [
  | none ↦ none
  | some tokens' ↦ add_rows rows tokens'
]

-- The first line is the header.
unfoldable pub extract_pg_and_primary_osd : Text → Option (Map (List Text))
unfolding add_rows
extract_pg_and_primary_osd str = elim (split_on 10 str) [
  | [] ↦ some []
  | header ∷ rows ↦ add_rows rows []
]
