-- ===== src/Util/Groups.antt =====
-- Columns of a listing, and the placement groups of each object store daemon.
use dovecot_ceph_plugin.Prelude.{
  is_space, ℕ, zero, suc, ◌≡◌, refl, ap, sym, ◌∙◌, ◌++◌, true, false, not, Option, none, some, List,
  [], ◌∷◌, Text, Map, arith, is_empty, every, free_of, split_on, split_on-append, All, map,
  get_elem?, lookup, lookup-insert, str_eq, str_eq_iff, append_assoc, append-nil, Bool-cases, inl,
  inr, if◌then◌else◌,
}
use dovecot_ceph_plugin.Util.{
  squeeze, keep_tokens, split, push_back, add_row, add_rows, extract_pg_and_primary_osd,
}

-- A column: no white space, no delimiter, and not empty.
abbrev pub IsColumn : ℕ → Text → Type 0
IsColumn d w =
    (every (λ c. not (is_space c)) w ≡ true) × (free_of d w ≡ true) × (is_empty w ≡ false)

abbrev pub padding : ℕ → ℕ → Text
padding d zero = []
padding d (suc n) = d ∷ padding d n

-- Columns, each followed by one delimiter and some more.
abbrev pub padded : ℕ → List (Text × ℕ) → Text
padded d [] = []
padded d ((w, n) ∷ cols) = w ++ d ∷ (padding d n ++ padded d cols)

abbrev pub Columns : ℕ → List (Text × ℕ) → Type 0
Columns d = All λ c. IsColumn d c.0

squeeze_column : (w : Text) → every (λ c. not (is_space c)) w ≡ true → squeeze w ≡ w
squeeze_column [] h = refl
squeeze_column (c ∷ w) h = ground (arith, squeeze_column w)

split-padding : (d n : ℕ) (s : Text) → split (padding d n ++ s) d ≡ split s d
unfolding split split_on keep_tokens
split-padding d zero s = refl
split-padding d (suc n) s = ground (arith, split-padding d n s)

split_column : (d : ℕ) (w s : Text) → IsColumn d w → split (w ++ d ∷ s) d ≡ w ∷ split s d
unfolding split keep_tokens
split_column d w s (clean, free, full) =
    rw (split_on-append d w s free, squeeze_column w clean, full)

-- The columns of a row are found whatever the padding between them.
pub split-padded :
    (d : ℕ) (cols : List (Text × ℕ))
    → Columns d cols
    → split (padded d cols) d ≡ map (λ c. c.0) cols
split-padded d [] h = unfold split split_on keep_tokens in refl
split-padded d ((w, n) ∷ cols) h =
    split_column d w (padding d n ++ padded d cols) h.0
    ∙ ap (◌∷◌ w) (split-padding d n (padded d cols) ∙ split-padded d cols h.1)

-- A row whose first column is `pg` and whose acting set begins with `osd` behind one character.
abbrev pub Gives : Text → Text × Text → Type 0
Gives row (pg, osd) =
    (column : Text) × (rest : List Text) × (columns : List Text) × (c : ℕ) × (split row 32
      ≡ pg ∷ columns)
    × (get_elem? (pg ∷ columns) 13 ≡ some column)
    × (split column b',' ≡ (c ∷ osd) ∷ rest)

abbrev pub AllGive : List Text → List (Text × Text) → Type 0
AllGive [] [] = Unit {0}
AllGive [] (p ∷ ps) = ⊥
AllGive (row ∷ rows) [] = ⊥
AllGive (row ∷ rows) (p ∷ ps) = Gives row p × AllGive rows ps

-- The groups of one daemon, in the order of the rows.
abbrev pub groups_of : Text → List (Text × Text) → List Text
groups_of o [] = []
groups_of o ((pg, osd) ∷ ps) = let rest = groups_of o ps in if str_eq osd o then pg ∷ rest else rest

abbrev pub listed : Option (List Text) → List Text
listed none = []
listed (some pgs) = pgs

lookup-push_back :
    (osd pg o : Text) (t : Map (List Text))
    → listed (lookup o (push_back osd pg t))
      ≡ (if str_eq osd o then listed (lookup o t) ++ pg ∷ [] else listed (lookup o t))
unfolding push_back
lookup-push_back osd pg o t = ground (
  arith,
  str_eq_iff osd o,
  lookup-insert osd o (pg ∷ []) t,
  lookup-insert osd o (listed (lookup osd t) ++ pg ∷ []) t,
)

add_row_lem :
    (row : Text) (p : Text × Text) (t : Map (List Text))
    → Gives row p
    → add_row row t ≡ some (push_back p.1 p.0 t)
unfolding add_row
add_row_lem row (pg, osd) t (column, rest, columns, c, e, at, first) = ground arith

add_rows_lem :
    (rows : List Text) (ps : List (Text × Text)) (t : Map (List Text))
    → AllGive rows ps
    → (t' : Map (List Text)) × (add_rows rows t ≡ some t')
      × ((o : Text) → listed (lookup o t') ≡ listed (lookup o t) ++ groups_of o ps)
unfolding add_rows
add_rows_lem [] [] t h = (t, refl, λ o. sym (append-nil (listed (lookup o t))))
add_rows_lem [] (p ∷ ps) t h = absurd h
add_rows_lem (row ∷ rows) [] t h = absurd h
add_rows_lem (row ∷ rows) ((pg, osd) ∷ ps) t (h, hs) =
    let (t', e, at) = add_rows_lem rows ps (push_back osd pg t) hs in
    (t', rw (add_row_lem row (pg, osd) t h, add_rows) e, λ o. at o ∙ grown o)
  where
    grown :
        (o : Text)
        → listed (lookup o (push_back osd pg t)) ++ groups_of o ps
          ≡ listed (lookup o t) ++ groups_of o ((pg, osd) ∷ ps)
    grown o = elim (Bool-cases (str_eq osd o)) [
      | inl e ↦
          rw (lookup-push_back osd pg o t, e)
            (append_assoc (listed (lookup o t)) (pg ∷ []) (groups_of o ps))
      | inr e ↦ rw (lookup-push_back osd pg o t, e) refl
    ]

-- A listing of a header and rows that give a group and a daemon each: the result has for every
-- daemon its groups, in the order of the rows, and none for a daemon that no row names.
pub extract-groups_of :
    (str header : Text) (rows : List Text) (ps : List (Text × Text))
    → split_on 10 str ≡ header ∷ rows
    → AllGive rows ps
    → (t : Map (List Text)) × (extract_pg_and_primary_osd str ≡ some t)
      × ((o : Text) → listed (lookup o t) ≡ groups_of o ps)
unfolding extract_pg_and_primary_osd lookup
extract-groups_of str header rows ps e h =
    let (t, found, at) = add_rows_lem rows ps [] h in
    (t, rw (e, extract_pg_and_primary_osd) found, at)
