-- ===== src/Fat/NameParts.antt =====
-- One part of a long name in the directories of core/filesystems/fat.cpp, and its place in the name buffer.
use juice_os_kernel.Prelude.{
  ℕ, suc, ◌+◌, ◌-◌, ◌*◌, ◌%◌, ◌≤◌, ◌<◌, ◌≡◌, refl, sym, ap, ◌∙◌, ◌≢◌, ◌⊎◌, inl, inr, true, false,
  ◌&&◌, none, some, List, [], ◌∷◌, ◌++◌, append-nil, append_assoc, arith, leb, ltb, ◌==◌,
  ℕ_discrete, dec_lt, Bool-cases, length, take, set, length-set, length-append, over, set-over,
  over-take, length-over, length-take_le,
}
use juice_os_kernel.Text.Defs.{utf16_to_ascii}
use juice_os_kernel.Fat.Layout.{u8, attributes, stored_checksum, name_chars, fattr_lfn}
use juice_os_kernel.Fat.Entries.{
  EntryParser, buffer_address, after_part, handle_lfn, handle_next, part_number,
}

abbrev low_bytes : List ℕ → List ℕ
low_bytes [] = []
low_bytes (w ∷ ws) = (w % 256) ∷ low_bytes ws

utf16_to_ascii-over :
    (dest base : ℕ) (ws written buffer : List ℕ)
    → dest ≡ base + length written
    → length written + length ws ≤ length buffer
    → utf16_to_ascii dest ws (length ws) base (over written buffer)
      ≡ some (over (written ++ low_bytes ws) buffer)
unfolding utf16_to_ascii
utf16_to_ascii-over dest base [] written buffer e h =
    ap (λ (w : List ℕ). some (over w buffer)) (sym (append-nil written))
utf16_to_ascii-over dest base (w ∷ ws) written buffer e h =
    let c = w % 256 in
    let size = length-over written buffer (omega arith) in
    let inside : (leb base dest && ltb dest (base + length (over written buffer))) ≡ true =
      ground arith in
    let at : dest - base ≡ length written = omega arith in
    rw (inside, at)
      (ap (utf16_to_ascii (dest + 1) ws (length ws) base)
          (set-over written buffer (length written) c refl (omega arith))
        ∙ utf16_to_ascii-over (dest + 1) base ws (written ++ (c ∷ [])) buffer
            (omega (arith, length-append written (c ∷ [])))
            (omega (arith, length-append written (c ∷ [])))
        ∙ ap (λ (w : List ℕ). some (over w buffer)) (append_assoc written (c ∷ []) (low_bytes ws)))

-- The first write is before the buffer, or the last one behind it.
utf16_to_ascii-before :
    (dest base w n : ℕ) (ws buffer : List ℕ)
    → dest < base
    → utf16_to_ascii dest (w ∷ ws) (suc n) base buffer ≡ none
unfolding utf16_to_ascii
utf16_to_ascii-before dest base w n ws buffer h =
    let out : (leb base dest && ltb dest (base + length buffer)) ≡ false = ground arith in
    rw out refl

utf16_to_ascii-behind :
    (dest base w : ℕ) (ws buffer : List ℕ)
    → base + length buffer < dest + length (w ∷ ws)
    → utf16_to_ascii dest (w ∷ ws) (length (w ∷ ws)) base buffer ≡ none
unfolding utf16_to_ascii
utf16_to_ascii-behind dest base w [] buffer h =
    let out : (leb base dest && ltb dest (base + length buffer)) ≡ false = ground arith in
    rw out refl
utf16_to_ascii-behind dest base w (v ∷ ws) buffer h =
    let later =
      utf16_to_ascii-behind (dest + 1) base v ws (set buffer (dest - base) (w % 256))
        (omega (arith, length-set buffer (dest - base) (w % 256))) in
    elim (Bool-cases (leb base dest && ltb dest (base + length buffer))) [
      | inl e ↦ rw e later
      | inr e ↦ rw e refl
    ]

-- The text of a part, of thirteen characters.
abbrev pub part_text : List ℕ → List ℕ
part_text entry = low_bytes (name_chars entry)

pub length-part_text : (entry : List ℕ) → length (part_text entry) ≡ 13
unfolding name_chars
length-part_text entry = refl

name_chars-over :
    (entry : List ℕ) (dest base : ℕ) (written buffer : List ℕ)
    → dest ≡ base + length written
    → length written + 13 ≤ length buffer
    → utf16_to_ascii dest (name_chars entry) 13 base (over written buffer)
      ≡ some (over (written ++ part_text entry) buffer)
unfolding name_chars
name_chars-over entry dest base written buffer e h =
    utf16_to_ascii-over dest base (name_chars entry) written buffer e h

pub handle_next-part :
    (entry filename_buff : List ℕ) (parser : EntryParser) (number checksum : ℕ)
    → u8 entry 0 ≢ 0xE5
    → attributes entry ≡ fattr_lfn
    → part_number entry ≡ suc number
    → stored_checksum entry ≡ checksum
    → 13 * suc number ≤ 256
    → length filename_buff ≡ 256
    → handle_next entry filename_buff parser
      ≡ some (record {
        parser = record { parsing_long_filename = true; lfn_checksum = checksum };
        filename_buff = over (take (13 * number) filename_buff ++ part_text entry) filename_buff;
        is_ready = false;
      })
unfolding handle_next handle_lfn
handle_next-part entry filename_buff parser number checksum n a p c h l =
    let present : (u8 entry 0 == 0xE5) ≡ false = ground arith in
    let is_part : (attributes entry == fattr_lfn) ≡ true = ground arith in
    let place : buffer_address + 13 * suc number - 13 ≡ buffer_address + 13 * number =
      omega arith in
    let front = length-take_le (13 * number) filename_buff (omega arith) in
    let text =
      ap (utf16_to_ascii (buffer_address + 13 * number) (name_chars entry) 13 buffer_address)
        (sym (over-take (13 * number) filename_buff (omega arith)))
      ∙ name_chars-over entry (buffer_address + 13 * number) buffer_address
          (take (13 * number) filename_buff) filename_buff (omega arith) (omega arith) in
    rw (present, is_part, p, place, text, c) refl

handle_next-outside :
    (entry filename_buff : List ℕ) (parser : EntryParser)
    → u8 entry 0 ≢ 0xE5
    → attributes entry ≡ fattr_lfn
    → (part_number entry ≡ 0) ⊎ (20 ≤ part_number entry)
    → length filename_buff ≡ 256
    → handle_next entry filename_buff parser ≡ none
unfolding handle_next handle_lfn name_chars
handle_next-outside entry filename_buff parser n a h l =
    let present : (u8 entry 0 == 0xE5) ≡ false = ground arith in
    let is_part : (attributes entry == fattr_lfn) ≡ true = ground arith in
    let place = buffer_address + 13 * part_number entry - 13 in
    rw (present, is_part)
      (ap (after_part entry) (elim h [
        | inl z ↦ utf16_to_ascii-before place 13 _ 12 _ filename_buff (omega arith)
        | inr z ↦ utf16_to_ascii-behind place 13 _ _ filename_buff (omega arith)
      ]))

-- A part of a long name with the number n, for the name buffer of 256 bytes: for n from 1 to 19
-- its characters are written at 13 * (n - 1) and nothing else of the buffer changes; for n of
-- zero, and from 20 on, a write is outside of the buffer.
pub handle_next-part_place :
    (entry filename_buff : List ℕ) (parser : EntryParser)
    → u8 entry 0 ≢ 0xE5
    → attributes entry ≡ fattr_lfn
    → length filename_buff ≡ 256
    → ((1 ≤ part_number entry)
        × (part_number entry ≤ 19)
        × (handle_next entry filename_buff parser
            ≡ some (record {
              parser = record {
                parsing_long_filename = true;
                lfn_checksum = stored_checksum entry;
              };
              filename_buff =
                  over
                    (take (13 * (part_number entry - 1)) filename_buff ++ part_text entry)
                    filename_buff;
              is_ready = false;
            })))
      ⊎ (((part_number entry ≡ 0) ⊎ (20 ≤ part_number entry))
          × (handle_next entry filename_buff parser ≡ none))
handle_next-part_place entry filename_buff parser n a l = elim (ℕ_discrete (part_number entry) 0) [
  | yes z ↦ inr (inl z, handle_next-outside entry filename_buff parser n a (inl z) l)
  | no nz ↦ elim (dec_lt 19 (part_number entry)) [
    | yes big ↦
        let k : 20 ≤ part_number entry = omega arith in
        inr (inr k, handle_next-outside entry filename_buff parser n a (inr k) l)
    | no small ↦ inl (
      omega arith,
      omega arith,
      handle_next-part entry filename_buff parser (part_number entry - 1) (stored_checksum entry) n
          a (omega arith) refl (omega arith) l,
    )
  ]
]
