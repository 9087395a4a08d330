-- ===== src/Text/Output.antt =====
-- What sprintf of core/stdlib.cpp leaves in its buffer.
use juice_os_kernel.Prelude.{
  ℕ, zero, suc, ◌+◌, ◌-◌, ◌≤◌, ◌<◌, min, max, ◌≡◌, refl, sym, ap, ◌∙◌, true, List, [], ◌∷◌, ◌++◌,
  append-nil, append_assoc, arith, leb, dec_le, length, set, take, length-append, length-take, over,
  set-over,
}
use juice_os_kernel.Text.Defs.{
  CbackData, append_bytes, overflow_amount, sprintf_consumer, consume_all, sprintf,
}

abbrev pub concat : List (List ℕ) → List ℕ
concat [] = []
concat (p ∷ ps) = p ++ concat ps

take-append_take :
    (n : ℕ) (xs ys : List ℕ) → take n (xs ++ ys) ≡ take n xs ++ take (n - length xs) ys
take-append_take zero xs ys = let e : 0 - length xs ≡ 0 = omega arith in rw e refl
take-append_take (suc n) [] ys = let e : suc n - 0 ≡ suc n = omega arith in rw e refl
take-append_take (suc n) (x ∷ xs) ys =
    let e : suc n - suc (length xs) ≡ n - length xs = omega arith in
    rw e (ap (x ∷◌) (take-append_take n xs ys))

take_all : (n : ℕ) (xs : List ℕ) → length xs ≤ n → take n xs ≡ xs
take_all zero [] h = refl
take_all zero (x ∷ xs) h = elim h [ ]
take_all (suc n) [] h = refl
take_all (suc n) (x ∷ xs) h = ap (x ∷◌) (take_all n xs (omega arith))

take_clip : (n k : ℕ) (xs : List ℕ) → n ≡ min (length xs) k → take n xs ≡ take k xs
take_clip n k xs e = elim (dec_le k (length xs)) [
  | yes h ↦ let same : n ≡ k = omega arith in ap (λ (i : ℕ). take i xs) same
  | no h ↦ take_all n xs (omega arith) ∙ sym (take_all k xs (omega arith))
]

-- The state behind the bytes `written` of a buffer of `max` bytes and one for the terminator.
abbrev holding : (max : ℕ) → (buffer written : List ℕ) → CbackData
holding max buffer written = record {
  out_buff = over written buffer;
  max_out_length_no_null_term = max;
  totally_copied = length written;
}

append_bytes-holding :
    (n max : ℕ) (portion buffer written : List ℕ)
    → n ≤ length portion
    → length written + n ≤ length buffer
    → append_bytes n portion (holding max buffer written)
      ≡ holding max buffer (written ++ take n portion)
unfolding append_bytes
append_bytes-holding zero max portion buffer written h k = rw (append-nil written) refl
append_bytes-holding (suc n) max [] buffer written h k = elim h [ ]
append_bytes-holding (suc n) max (ch ∷ portion) buffer written h k =
    let l : length (written ++ (ch ∷ [])) ≡ length written + 1 =
      omega (arith, length-append written (ch ∷ [])) in
    let s : set (over written buffer) (length written) ch ≡ over (written ++ (ch ∷ [])) buffer =
      set-over written buffer (length written) ch refl (omega arith) in
    rw (s, ← l)
      (append_bytes-holding n max portion buffer (written ++ (ch ∷ [])) (omega arith) (omega arith)
        ∙ ap (holding max buffer) (append_assoc written (ch ∷ []) (take n portion)))

consumer-holding :
    (max : ℕ) (buffer text portion : List ℕ)
    → max < length buffer
    → sprintf_consumer portion (holding max buffer (take max text))
      ≡ holding max buffer (take max (text ++ portion))
unfolding sprintf_consumer overflow_amount
consumer-holding max buffer text portion h =
    let t = length-take max text in
    let n = length portion - (length portion - (max - length (take max text))) in
    let fits : n ≤ length portion = omega arith in
    append_bytes-holding n max portion buffer (take max text) fits (omega arith)
    ∙ ap (holding max buffer) (joined n fits (omega arith))
  where
    joined :
        (n : ℕ)
        → n ≤ length portion
        → n ≡ min (length portion) (max - min max (length text))
        → take max text ++ take n portion ≡ take max (text ++ portion)
    joined n a b =
        ap (take max text ++◌) (take_clip n (max - length text) portion (omega arith))
        ∙ sym (take-append_take max text portion)

consume_all-holding :
    (max : ℕ) (buffer text : List ℕ) (portions : List (List ℕ))
    → max < length buffer
    → consume_all portions (holding max buffer (take max text))
      ≡ holding max buffer (take max (text ++ concat portions))
unfolding consume_all
consume_all-holding max buffer text [] h =
    ap (λ (t : List ℕ). holding max buffer (take max t)) (sym (append-nil text))
consume_all-holding max buffer text (portion ∷ portions) h =
    ap (consume_all portions) (consumer-holding max buffer text portion h)
    ∙ (consume_all-holding max buffer (text ++ portion) portions h
        ∙ ap (λ (t : List ℕ). holding max buffer (take max t))
            (append_assoc text portion (concat portions)))

holding_nothing :
    (max : ℕ) (buffer : List ℕ)
    → holding max buffer (take max [])
      ≡ record { out_buff = buffer; max_out_length_no_null_term = max; totally_copied = 0 }
unfolding over
holding_nothing zero buffer = refl
holding_nothing (suc max) buffer = refl

-- For the portions that vsprintf hands on, sprintf writes the first bytes of the formatted text, as many as fit in the length given with a
-- terminator behind them, and the terminator, and nothing else of the buffer.
pub sprintf-over :
    (max_out_length : ℕ) (out_buff : List ℕ) (portions : List (List ℕ))
    → 1 ≤ max_out_length
    → max_out_length ≤ length out_buff
    → sprintf out_buff max_out_length portions
      ≡ over (take (max_out_length - 1) (concat portions) ++ (0 ∷ [])) out_buff
unfolding sprintf
sprintf-over max_out_length out_buff portions h l =
    let max = max_out_length - 1 in
    let t = length-take max (concat portions) in
    let room : leb 1 (max_out_length - length (take max (concat portions))) ≡ true = ground arith in
    let started : holding max out_buff (take max [])
        ≡ record { out_buff = out_buff; max_out_length_no_null_term = max; totally_copied = 0 } =
      holding_nothing max out_buff in
    let c =
      ap (consume_all portions) (sym started)
      ∙ consume_all-holding max out_buff [] portions (omega arith) in
    rw (c, room)
      (set-over (take max (concat portions)) out_buff (length (take max (concat portions))) 0 refl
        (omega arith))
