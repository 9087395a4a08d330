-- ===== src/Fat/LongNames.antt =====
-- Long file names in the directories of core/filesystems/fat.cpp.
use juice_os_kernel.Prelude.{
  ℕ, suc, ◌*◌, ◌≤◌, ◌≡◌, refl, ap, ◌∙◌, ◌≢◌, Bool, true, false, Option, none, some, List, [], ◌∷◌,
  ◌++◌, arith, ◌==◌, length, take, length-append, over, length-over, length-take_le, over_twice,
}
use juice_os_kernel.Fat.Layout.{
  u8, attributes, stored_checksum, has_flag, fattr_lfn, fattr_device, fattr_unused,
}
use juice_os_kernel.Fat.Entries.{EntryParser, Handled, handle_next, part_number, calculate_checksum}
use juice_os_kernel.Fat.NameParts.{part_text, length-part_text, handle_next-part}

-- The parts of a name as they stand in a directory: the last part first.
abbrev pub Parts : (checksum : ℕ) → List (List ℕ) → Type 0
Parts checksum [] = Unit {0}
Parts checksum (entry ∷ entries) =
    (u8 entry 0 ≢ 0xE5)
    × (attributes entry ≡ fattr_lfn)
    × (part_number entry ≡ suc (length entries))
    × (stored_checksum entry ≡ checksum)
    × Parts checksum entries

-- The text of the parts, of thirteen characters each.
abbrev pub parts_text : List (List ℕ) → List ℕ
parts_text [] = []
parts_text (entry ∷ entries) = parts_text entries ++ part_text entry

length-parts_text : (entries : List (List ℕ)) → length (parts_text entries) ≡ 13 * length entries
length-parts_text [] = refl
length-parts_text (entry ∷ entries) = omega (
  arith,
  length-append (parts_text entries) (part_text entry),
  length-part_text entry,
  length-parts_text entries,
)

-- Entries handled one after the other, each with what the one before left.
unfoldable pub handle_all :
    List (List ℕ) → (filename_buff : List ℕ) → EntryParser → (is_ready : Bool) → Option Handled
handle_all [] filename_buff parser is_ready =
    some (record { parser = parser; filename_buff = filename_buff; is_ready = is_ready })
handle_all (entry ∷ entries) filename_buff parser is_ready =
    elim (handle_next entry filename_buff parser) [
      | none ↦ none
      | some s ↦ handle_all entries s.filename_buff s.parser s.is_ready
    ]

handle_all-cons :
    (entry : List ℕ) (entries : List (List ℕ)) (filename_buff : List ℕ) (parser : EntryParser)
    (is_ready : Bool) (s : Handled)
    → handle_next entry filename_buff parser ≡ some s
    → handle_all (entry ∷ entries) filename_buff parser is_ready
      ≡ handle_all entries s.filename_buff s.parser s.is_ready
unfolding handle_all
handle_all-cons entry entries filename_buff parser is_ready s e =
    ap
      (λ (o : Option Handled). elim o as (λ x. Option Handled) [
        | none ↦ none
        | some t ↦ handle_all entries t.filename_buff t.parser t.is_ready
      ])
      e

handle_next-named :
    (entry filename_buff : List ℕ) (parser : EntryParser)
    → u8 entry 0 ≢ 0xE5
    → attributes entry ≢ fattr_lfn
    → has_flag (attributes entry) fattr_device ≡ false
    → has_flag (attributes entry) fattr_unused ≡ false
    → parser.parsing_long_filename ≡ true
    → parser.lfn_checksum ≡ calculate_checksum entry
    → handle_next entry filename_buff parser
      ≡ some (record {
        parser = record parser { parsing_long_filename = false };
        filename_buff = filename_buff;
        is_ready = true;
      })
unfolding handle_next
handle_next-named entry filename_buff parser n a d u b c =
    let present : (u8 entry 0 == 0xE5) ≡ false = ground arith in
    let no_part : (attributes entry == fattr_lfn) ≡ false = ground arith in
    let fits : (parser.lfn_checksum == calculate_checksum entry) ≡ true = ground arith in
    rw (present, no_part, d, u, b, fits) refl

-- The buffer as the parts leave it.
handle_all-append :
    (entries : List (List ℕ)) (rest : List (List ℕ)) (filename_buff : List ℕ) (parser : EntryParser)
    (is_ready : Bool) (checksum : ℕ)
    → Parts checksum entries
    → 13 * length entries ≤ 256
    → length filename_buff ≡ 256
    → (entries ≡ [] → (parser.parsing_long_filename ≡ true) × (parser.lfn_checksum ≡ checksum))
    → (s : EntryParser) × (r : Bool) × (handle_all (entries ++ rest) filename_buff parser is_ready
        ≡ handle_all rest (over (parts_text entries) filename_buff) s r)
      × ((s.parsing_long_filename ≡ true) × (s.lfn_checksum ≡ checksum))
handle_all-append [] rest filename_buff parser is_ready checksum p h l k =
    (parser, is_ready, unfold over in refl, k refl)
handle_all-append (entry ∷ entries) rest filename_buff parser is_ready checksum (n, a, m, c, p) h l
      k =
    let at = 13 * length entries in
    let buff1 = over (take at filename_buff ++ part_text entry) filename_buff in
    let front = length-take_le at filename_buff (omega arith) in
    let size = length-over (take at filename_buff ++ part_text entry) filename_buff (
      omega
        (arith, length-append (take at filename_buff) (part_text entry), length-part_text entry)) in
    let parser1 : EntryParser = record { parsing_long_filename = true; lfn_checksum = checksum } in
    let (s, r, e, q) =
      handle_all-append entries rest buff1 parser1 false checksum p (omega arith) (omega arith)
        (λ z. (refl, refl)) in
    let joined : over (parts_text entries) buff1
        ≡ over (parts_text entries ++ part_text entry) filename_buff =
      over_twice (parts_text entries) (take at filename_buff) (part_text entry) filename_buff
        (omega (arith, length-parts_text entries)) in
    (
      s,
      r,
      handle_all-cons entry (entries ++ rest) filename_buff parser is_ready _
            (handle_next-part entry filename_buff parser (length entries) checksum n a m c h l)
          ∙ (e ∙ ap (λ (b : List ℕ). handle_all rest b s r) joined),
      q,
    )

-- The parts of a long name, in the order in which a directory has them, and then the entry with
-- the short name that they belong to, name that entry: the buffer holds the characters of the
-- parts from the first on, and behind them what it held before.
pub handle_all-long_name :
    (part entry : List ℕ) (parts : List (List ℕ)) (filename_buff : List ℕ) (parser : EntryParser)
    → Parts (calculate_checksum entry) (part ∷ parts)
    → 13 * suc (length parts) ≤ 256
    → length filename_buff ≡ 256
    → u8 entry 0 ≢ 0xE5
    → attributes entry ≢ fattr_lfn
    → has_flag (attributes entry) fattr_device ≡ false
    → has_flag (attributes entry) fattr_unused ≡ false
    → (s : Handled) × (handle_all ((part ∷ parts) ++ (entry ∷ [])) filename_buff parser false
        ≡ some s)
      × ((s.is_ready ≡ true) × (s.filename_buff ≡ over (parts_text (part ∷ parts)) filename_buff))
handle_all-long_name part entry parts filename_buff parser p h l n a d u =
    let (s, r, e, (b, c)) =
      handle_all-append (part ∷ parts) (entry ∷ []) filename_buff parser false
        (calculate_checksum entry) p h l (λ z. absurd (cc)) in
    let buff = over (parts_text (part ∷ parts)) filename_buff in
    let named = handle_next-named entry buff s n a d u b c in
    (
      record {
        parser = record s { parsing_long_filename = false };
        filename_buff = buff;
        is_ready = true;
      },
      e ∙ (handle_all-cons entry [] buff s r _ named ∙ unfold handle_all in refl),
      (refl, refl),
    )
