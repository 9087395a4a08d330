-- ===== src/Fat/Scans.antt =====
-- The loop over the entries of a cluster of core/filesystems/fat.cpp, for a part of a path and for a listing.
use juice_os_kernel.Prelude.{
  ℕ, ◌≡◌, refl, sym, ◌∙◌, inl, inr, Bool, true, false, not, Option, none, some, List, [], ◌∷◌, ◌++◌,
  append-nil, append_assoc, ◌==◌, if◌then◌else◌, Bool-cases, Option-cases,
}
use juice_os_kernel.Text.Defs.{text_equal}
use juice_os_kernel.Fat.Layout.{FileState, u8}
use juice_os_kernel.Fat.Entries.{EntryParser, Handled, handle_next}
use juice_os_kernel.Fat.Clusters.{
  DirEntry, found_entry, Scanned, scanned, returned, outside, scan_entries,
}
use juice_os_kernel.Fat.Files.{Walk, finished, stopped, visit_part}

-- Entries of which the names are collected, in order.
abbrev pub list_entry : DirEntry → List DirEntry → List DirEntry × Bool
list_entry entry listed = (listed ++ (entry ∷ []), true)

-- The first of the entries with a name.
abbrev pub found_in : (part : List ℕ) → List DirEntry → Option FileState
found_in part [] = none
found_in part (entry ∷ listed) =
    if text_equal part entry.name then some entry.file_state else found_in part listed

abbrev pub found_scan :
    Option FileState → (filename_buff : List ℕ) → EntryParser → Scanned (Option FileState)
found_scan none filename_buff parser = scanned none filename_buff parser
found_scan (some state) filename_buff parser = returned (some state)

abbrev pub found_walk : Option FileState → Walk (Option FileState)
found_walk none = finished none
found_walk (some state) = stopped (some state)

scan_end :
    {S : Type 0} (visit : DirEntry → S → S × Bool) (entry : List ℕ) (entries : List (List ℕ))
    (b : List ℕ) (p : EntryParser) (s : S)
    → (u8 entry 0 == 0) ≡ true
    → scan_entries visit (entry ∷ entries) b p s ≡ scanned s b p
unfolding scan_entries
scan_end visit entry entries b p s e = rw e refl

scan_outside :
    {S : Type 0} (visit : DirEntry → S → S × Bool) (entry : List ℕ) (entries : List (List ℕ))
    (b : List ℕ) (p : EntryParser) (s : S)
    → (u8 entry 0 == 0) ≡ false
    → handle_next entry b p ≡ none
    → scan_entries visit (entry ∷ entries) b p s ≡ outside
unfolding scan_entries
scan_outside visit entry entries b p s e h = rw (e, h) refl

scan_unnamed :
    {S : Type 0} (visit : DirEntry → S → S × Bool) (entry : List ℕ) (entries : List (List ℕ))
    (b : List ℕ) (p : EntryParser) (s : S) (h : Handled)
    → (u8 entry 0 == 0) ≡ false
    → handle_next entry b p ≡ some h
    → h.is_ready ≡ false
    → scan_entries visit (entry ∷ entries) b p s
      ≡ scan_entries visit entries h.filename_buff h.parser s
unfolding scan_entries
scan_unnamed visit entry entries b p s h e f r = rw (e, f, r) refl

scan_named :
    {S : Type 0} (visit : DirEntry → S → S × Bool) (entry : List ℕ) (entries : List (List ℕ))
    (b : List ℕ) (p : EntryParser) (s : S) (h : Handled)
    → (u8 entry 0 == 0) ≡ false
    → handle_next entry b p ≡ some h
    → h.is_ready ≡ true
    → scan_entries visit (entry ∷ entries) b p s ≡ (
        if not (visit (found_entry entry h.filename_buff) s).1
        then returned (visit (found_entry entry h.filename_buff) s).0
        else scan_entries visit entries h.filename_buff h.parser
            (visit (found_entry entry h.filename_buff) s).0)
unfolding scan_entries
scan_named visit entry entries b p s h e f r = rw (e, f, r) refl

-- Both scans of the same entries.
abbrev Agree :
    (part : List ℕ)
    → List (List ℕ)
    → (b : List ℕ) → EntryParser
    → (before after : List DirEntry) → (b' : List ℕ) → EntryParser
    → Type 0
Agree part entries b p before after b' p' =
    (listed : List DirEntry) × (after ≡ before ++ listed)
    × (scan_entries (visit_part part) entries b p none ≡ found_scan (found_in part listed) b' p')

scan_nothing :
    {S : Type 0} (visit : DirEntry → S → S × Bool) (b : List ℕ) (p : EntryParser) (s : S)
    → scan_entries visit [] b p s ≡ scanned s b p
unfolding scan_entries
scan_nothing visit b p s = refl

ended :
    (before after : List DirEntry) (b b' : List ℕ) (p p' : EntryParser)
    → scanned before b p ≡ scanned after b' p'
    → (after ≡ before ++ [])
      × (◌≡◌ {A = Scanned (Option FileState)} (scanned none b p) (scanned none b' p'))
ended before after b b' p p' e =
    let same : before ≡ after = cc in (sym same ∙ sym (append-nil before), cc)

visited :
    (part : List ℕ) (x : DirEntry) (entries : List (List ℕ)) (b : List ℕ) (p : EntryParser)
    (listed : List DirEntry) (b' : List ℕ) (p' : EntryParser)
    → scan_entries (visit_part part) entries b p none ≡ found_scan (found_in part listed) b' p'
    → (if not (visit_part part x none).1
        then returned (visit_part part x none).0
        else scan_entries (visit_part part) entries b p (visit_part part x none).0)
      ≡ found_scan (found_in part (x ∷ listed)) b' p'
unfolding visit_part
visited part x entries b p listed b' p' k = elim (Bool-cases (text_equal part x.name)) [
  | inl e ↦ rw e refl
  | inr e ↦ rw e k
]

pub scan_entries-Agree :
    (part : List ℕ) (entries : List (List ℕ)) (b : List ℕ) (p : EntryParser)
    (before after : List DirEntry) (b' : List ℕ) (p' : EntryParser)
    → scan_entries list_entry entries b p before ≡ scanned after b' p'
    → Agree part entries b p before after b' p'
scan_entries-Agree part [] b p before after b' p' e =
    let (g, k) = ended before after b b' p p' (sym (scan_nothing list_entry b p before) ∙ e) in
    ([], g, scan_nothing (visit_part part) b p none ∙ k)
scan_entries-Agree part (entry ∷ entries) b p before after b' p' e =
    elim (Bool-cases (u8 entry 0 == 0)) [
      | inl z ↦
          let (g, k) =
            ended before after b b' p p'
              (sym (scan_end list_entry entry entries b p before z) ∙ e) in
          ([], g, scan_end (visit_part part) entry entries b p none z ∙ k)
      | inr z ↦ elim (Option-cases (handle_next entry b p)) [
        | inl n ↦
            let impossible : outside ≡ scanned after b' p' =
              sym (scan_outside list_entry entry entries b p before z n) ∙ e in
            absurd (cc)
        | inr (h, f) ↦ elim (Bool-cases h.is_ready) [
          | inr r ↦
              let (listed, g, k) =
                scan_entries-Agree part entries h.filename_buff h.parser before after b' p'
                  (sym (scan_unnamed list_entry entry entries b p before h z f r) ∙ e) in
              (listed, g, scan_unnamed (visit_part part) entry entries b p none h z f r ∙ k)
          | inl r ↦
              let x = found_entry entry h.filename_buff in
              let (listed, g, k) =
                scan_entries-Agree part entries h.filename_buff h.parser (before ++ (x ∷ [])) after
                  b' p' (sym (scan_named list_entry entry entries b p before h z f r) ∙ e) in
              (
                x ∷ listed,
                g ∙ append_assoc before (x ∷ []) listed,
                scan_named (visit_part part) entry entries b p none h z f r
                    ∙ visited part x entries h.filename_buff h.parser listed b' p' k,
              )
        ]
      ]
    ]
