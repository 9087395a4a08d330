-- ===== src/Fat/Lookup.antt =====
-- Names that are looked up in a directory, and names that are listed.
use juice_os_kernel.Prelude.{
  ℕ, zero, suc, ◌≡◌, refl, sym, ap, ◌∙◌, inl, inr, Bool, true, false, Option, none, some, List, [],
  ◌∷◌, ◌++◌, append-nil, append_assoc, Bool-cases,
}
use juice_os_kernel.Text.Defs.{text_equal}
use juice_os_kernel.Fat.Layout.{FileState}
use juice_os_kernel.Fat.Entries.{EntryParser}
use juice_os_kernel.Fat.Clusters.{
  Fat, ClusterReader, reader_at, read_next, DirEntry, Scanned, scanned, returned, outside,
  scan_entries,
}
use juice_os_kernel.Fat.Files.{
  Walk, finished, dir_entries, after_read, after_scan, walk, walk_from, new_parser, visit_part,
  resolve_path_part,
}
use juice_os_kernel.Fat.Scans.{list_entry, found_in, found_scan, found_walk, scan_entries-Agree}

found_in-append :
    (part : List ℕ) (xs ys : List DirEntry) (state : FileState)
    → found_in part xs ≡ some state
    → found_in part (xs ++ ys) ≡ some state
found_in-append part [] ys state e = absurd (cc)
found_in-append part (x ∷ xs) ys state e = elim (Bool-cases (text_equal part x.name)) [
  | inl t ↦ rw t (rw t at e)
  | inr t ↦ rw t (found_in-append part xs ys state (rw t at e))
]

found_in-append_none :
    (part : List ℕ) (xs ys : List DirEntry)
    → found_in part xs ≡ none
    → found_in part (xs ++ ys) ≡ found_in part ys
found_in-append_none part [] ys e = refl
found_in-append_none part (x ∷ xs) ys e = elim (Bool-cases (text_equal part x.name)) [
  | inl t ↦ let impossible : some x.file_state ≡ none = rw t at e in absurd (cc)
  | inr t ↦ rw t (found_in-append_none part xs ys (rw t at e))
]

-- What a walk finds of what another lists.
abbrev WalksAgree : (part : List ℕ) → (fuel : ℕ) → Fat → ClusterReader → Type 0
WalksAgree part fuel driver reader =
    (b : List ℕ) (p : EntryParser) (before after : List DirEntry)
    → walk fuel driver list_entry reader b p before ≡ finished after
    → (listed : List DirEntry) × (after ≡ before ++ listed)
      × (walk fuel driver (visit_part part) reader b p none ≡ found_walk (found_in part listed))

-- The rest of a walk behind the scan of a cluster.
abbrev walk_rest :
    {S : Type 0}
    → (fuel : ℕ) → Fat
    → (visit : DirEntry → S → S × Bool) → ClusterReader
    → S
    → List ℕ
    → EntryParser
    → Walk S
walk_rest fuel driver visit r s b p = elim r.has_more_data as (λ x. Walk _) [
  | true ↦ walk fuel driver visit r b p s
  | false ↦ finished s
]

rest_true :
    {S : Type 0} (fuel : ℕ) (driver : Fat) (visit : DirEntry → S → S × Bool) (r : ClusterReader)
    (s : S) (b : List ℕ) (p : EntryParser)
    → r.has_more_data ≡ true
    → walk_rest fuel driver visit r s b p ≡ walk fuel driver visit r b p s
rest_true {S} fuel driver visit r s b p m =
    ap
      (λ (c : Bool). elim c as (λ x. Walk S) [
        | true ↦ walk fuel driver visit r b p s
        | false ↦ finished s
      ])
      m

rest_false :
    {S : Type 0} (fuel : ℕ) (driver : Fat) (visit : DirEntry → S → S × Bool) (r : ClusterReader)
    (s : S) (b : List ℕ) (p : EntryParser)
    → r.has_more_data ≡ false
    → walk_rest fuel driver visit r s b p ≡ finished s
rest_false {S} fuel driver visit r s b p m =
    ap
      (λ (c : Bool). elim c as (λ x. Walk S) [
        | true ↦ walk fuel driver visit r b p s
        | false ↦ finished s
      ])
      m

rest_found :
    (part : List ℕ) (fuel : ℕ) (driver : Fat) (r : ClusterReader) (o : Option FileState)
    (s after listed : List DirEntry) (b : List ℕ) (p : EntryParser)
    → found_in part listed ≡ o
    → WalksAgree part fuel driver r
    → walk_rest fuel driver list_entry r s b p ≡ finished after
    → (more : List DirEntry) × (after ≡ s ++ more)
      × (after_scan (found_scan o b p) (walk_rest fuel driver (visit_part part) r)
          ≡ found_walk (found_in part (listed ++ more)))
rest_found part fuel driver r (some state) s after listed b p f ih e =
    elim (Bool-cases r.has_more_data) [
      | inr m ↦
          let stop = sym (rest_false fuel driver list_entry r s b p m) ∙ e in
          let same : s ≡ after = cc in
          (
            [],
            sym same ∙ sym (append-nil s),
            ap found_walk (sym (found_in-append part listed [] state f)),
          )
      | inl m ↦
          let (more, g, k) =
            ih b p s after (sym (rest_true fuel driver list_entry r s b p m) ∙ e) in
          (more, g, ap found_walk (sym (found_in-append part listed more state f)))
    ]
rest_found part fuel driver r none s after listed b p f ih e = elim (Bool-cases r.has_more_data) [
  | inr m ↦
      let stop = sym (rest_false fuel driver list_entry r s b p m) ∙ e in
      let same : s ≡ after = cc in
      (
        [],
        sym same ∙ sym (append-nil s),
        rest_false fuel driver (visit_part part) r none b p m
            ∙ ap found_walk (sym (found_in-append_none part listed [] f)),
      )
  | inl m ↦
      let (more, g, k) = ih b p s after (sym (rest_true fuel driver list_entry r s b p m) ∙ e) in
      (
        more,
        g,
        rest_true fuel driver (visit_part part) r none b p m
            ∙ (k ∙ ap found_walk (sym (found_in-append_none part listed more f))),
      )
]

scanned_found :
    (part : List ℕ) (fuel : ℕ) (driver : Fat) (r : ClusterReader) (x : Scanned (List DirEntry))
    (entries : List (List ℕ)) (b : List ℕ) (p : EntryParser) (before after : List DirEntry)
    → scan_entries list_entry entries b p before ≡ x
    → WalksAgree part fuel driver r
    → after_scan x (walk_rest fuel driver list_entry r) ≡ finished after
    → (listed : List DirEntry) × (after ≡ before ++ listed)
      × (after_scan
            (scan_entries (visit_part part) entries b p none)
            (walk_rest fuel driver (visit_part part) r)
          ≡ found_walk (found_in part listed))
scanned_found part fuel driver r outside entries b p before after f ih e = absurd (cc)
scanned_found part fuel driver r (returned s) entries b p before after f ih e = absurd (cc)
scanned_found part fuel driver r (scanned s b' p') entries b p before after f ih e =
    let (listed, g, k) = scan_entries-Agree part entries b p before s b' p' f in
    let (more, h, l) =
      rest_found part fuel driver r (found_in part listed) s after listed b' p' refl ih e in
    (
      listed ++ more,
      h ∙ (ap (λ (xs : List DirEntry). xs ++ more) g ∙ append_assoc before listed more),
      ap
            (λ (x : Scanned (Option FileState)).
              after_scan x (walk_rest fuel driver (visit_part part) r))
            k
          ∙ l,
    )

walk_step :
    {S : Type 0} (fuel : ℕ) (driver : Fat) (visit : DirEntry → S → S × Bool)
    (reader : ClusterReader) (b : List ℕ) (p : EntryParser) (s : S)
    → walk (suc fuel) driver visit reader b p s
      ≡ after_read (read_next driver reader) (λ r.
        after_scan (scan_entries visit (dir_entries r) b p s) (walk_rest fuel driver visit r))
unfolding walk
walk_step fuel driver visit reader b p s = refl

read_found :
    (part : List ℕ) (fuel : ℕ) (driver : Fat) (o : Option ClusterReader) (b : List ℕ)
    (p : EntryParser) (before after : List DirEntry)
    → ((r : ClusterReader) → WalksAgree part fuel driver r)
    → after_read o (λ r.
      after_scan
        (scan_entries list_entry (dir_entries r) b p before)
        (walk_rest fuel driver list_entry r))
      ≡ finished after
    → (listed : List DirEntry) × (after ≡ before ++ listed)
      × (after_read o (λ r.
            after_scan
              (scan_entries (visit_part part) (dir_entries r) b p none)
              (walk_rest fuel driver (visit_part part) r))
          ≡ found_walk (found_in part listed))
read_found part fuel driver none b p before after ih e = absurd (cc)
read_found part fuel driver (some r) b p before after ih e =
    scanned_found part fuel driver r _ (dir_entries r) b p before after refl (ih r) e

walk_found :
    (part : List ℕ) (fuel : ℕ) (driver : Fat) (reader : ClusterReader)
    → WalksAgree part fuel driver reader
walk_found part zero driver reader b p before after e = absurd (nothing e)
  where
    nothing : walk zero driver list_entry reader b p before ≡ finished after → ⊥
    nothing e = unfold walk in cc
walk_found part (suc fuel) driver reader b p before after e =
    let (listed, g, k) =
      read_found part fuel driver (read_next driver reader) b p before after
        (walk_found part fuel driver)
        (sym (walk_step fuel driver list_entry reader b p before) ∙ e) in
    (listed, g, walk_step fuel driver (visit_part part) reader b p none ∙ k)

-- Where the names of a directory are listed to the end, resolve_path_part finds in it the first
-- entry of the list with the name that it looks for, and nothing where no entry has it.
pub resolve_path_part-listed :
    (fuel : ℕ) (driver : Fat) (cluster : ℕ) (part filename_buff : List ℕ) (listed : List DirEntry)
    → walk_from fuel driver list_entry cluster filename_buff [] ≡ finished listed
    → resolve_path_part fuel driver cluster part filename_buff ≡ found_walk (found_in part listed)
unfolding resolve_path_part
resolve_path_part-listed fuel driver cluster part filename_buff listed e =
    let (l, g, k) =
      walk_found part fuel driver (reader_at cluster) filename_buff new_parser [] listed e in
    k ∙ ap (λ (xs : List DirEntry). found_walk (found_in part xs)) (sym g)
