-- ===== src/Text/Printing.antt =====
-- vsprintf prints the text that a format means.
use juice_os_kernel.Prelude.{
  ℕ, zero, suc, ◌+◌, ◌-◌, ◌%◌, ◌≤◌, ◌≡◌, refl, sym, ap, ◌∙◌, subst, some, List, [], ◌∷◌, ◌++◌,
  append-nil, append_assoc, arith, length, take, length-append, over,
}
use juice_os_kernel.Numbers.Defs.{int_to_str, uint_to_str, uint_to_hex}
use juice_os_kernel.Numbers.Reading.{str_to_uint-uint_to_str}
use juice_os_kernel.Numbers.Signed.{str_to_int-int_to_str}
use juice_os_kernel.Text.Output.{concat, sprintf-over}
use juice_os_kernel.Text.Format.{
  word, text, word_directive, text_directive, directive, is_word, vsprintf, sprintf_format,
}
use juice_os_kernel.Text.Formatting.{state, Produces, At, flushed}
use juice_os_kernel.Text.Steps.{end-Produces, gave-Produces}
use juice_os_kernel.Text.WideDirective.{wide-Produces}
use juice_os_kernel.Text.Pieces.{
  Piece, plain, signed, unsigned, hex, pointer, long_hex, character, string, source_of,
  arguments_of, printed, text_of, AllPieces, plain-Produces, number_given,
}

pieces-Produces :
    (ps : List Piece) (n : ℕ) (source : List ℕ) (i start : ℕ) (pending : List ℕ)
    (portions : List (List ℕ))
    → AllPieces ps
    → At source i start pending (source_of ps ++ (0 ∷ []))
    → length (source_of ps ++ (0 ∷ [])) ≤ n
    → Produces n source
        (state i start (arguments_of ps) portions)
        (concat portions ++ (pending ++ text_of ps))
unfolding directive is_word word_directive text_directive
pieces-Produces ps zero source i start pending portions p a h =
    let no : 1 ≤ 0 = omega (arith, length-append (source_of ps) (0 ∷ [])) in elim no [ ]
pieces-Produces [] (suc n) source i start pending portions p a h =
    subst
      (λ (t : List ℕ). Produces (suc n) source (state i start [] portions) (concat portions ++ t))
      (sym (append-nil pending))
      (end-Produces (suc n) source i start pending [] portions a (omega arith))
pieces-Produces (plain xs ∷ ps) (suc n) source i start pending portions (p, ok) a h =
    let same = append_assoc xs (source_of ps) (0 ∷ []) in
    plain-Produces xs (suc n) source i start pending (source_of ps ++ (0 ∷ [])) (arguments_of ps)
      portions (text_of ps) p (subst (At source i start pending) same a)
      (subst (λ (t : List ℕ). length t ≤ suc n) same h)
      (λ n' i' pending' a' h'. pieces-Produces ps n' source i' start pending' portions ok a' h')
pieces-Produces (signed v ∷ ps) (suc n) source i start pending portions (w, ok) a h =
    let (t, e, _) = str_to_int-int_to_str v 10 w (ground arith, ground arith) in
    gave-Produces n source i start pending b'd' (source_of ps ++ (0 ∷ []))
      (printed (int_to_str v 10)) (word v ∷ arguments_of ps) (arguments_of ps) portions (text_of ps)
      a
      (number_given (int_to_str v 10) t (arguments_of ps)
        (state (i + 1) start (word v ∷ arguments_of ps) (flushed pending portions)) e)
      (λ portions' a'. pieces-Produces ps n source (i + 2) (i + 2) [] portions' ok a' (omega arith))
pieces-Produces (unsigned v ∷ ps) (suc n) source i start pending portions (w, ok) a h =
    let (t, e, _) = str_to_uint-uint_to_str v 10 w (ground arith, ground arith) in
    gave-Produces n source i start pending b'u' (source_of ps ++ (0 ∷ []))
      (printed (uint_to_str v 10)) (word v ∷ arguments_of ps) (arguments_of ps) portions
      (text_of ps) a
      (number_given (uint_to_str v 10) t (arguments_of ps)
        (state (i + 1) start (word v ∷ arguments_of ps) (flushed pending portions)) e)
      (λ portions' a'. pieces-Produces ps n source (i + 2) (i + 2) [] portions' ok a' (omega arith))
pieces-Produces (hex v ∷ ps) (suc n) source i start pending portions (_, ok) a h =
    gave-Produces n source i start pending b'x' (source_of ps ++ (0 ∷ []))
      (take 8 (uint_to_hex v 8)) (word v ∷ arguments_of ps) (arguments_of ps) portions (text_of ps)
      a refl
      (λ portions' a'. pieces-Produces ps n source (i + 2) (i + 2) [] portions' ok a' (omega arith))
pieces-Produces (pointer v ∷ ps) (suc n) source i start pending portions (_, ok) a h =
    gave-Produces n source i start pending b'p' (source_of ps ++ (0 ∷ []))
      (b'0' ∷ b'x' ∷ take 8 (uint_to_hex v 8)) (word v ∷ arguments_of ps) (arguments_of ps) portions
      (text_of ps) a refl
      (λ portions' a'. pieces-Produces ps n source (i + 2) (i + 2) [] portions' ok a' (omega arith))
pieces-Produces (character v ∷ ps) (suc n) source i start pending portions (_, ok) a h =
    gave-Produces n source i start pending b'c' (source_of ps ++ (0 ∷ [])) (v % 0x100 ∷ [])
      (word v ∷ arguments_of ps) (arguments_of ps) portions (text_of ps) a refl
      (λ portions' a'. pieces-Produces ps n source (i + 2) (i + 2) [] portions' ok a' (omega arith))
pieces-Produces (string t ∷ ps) (suc n) source i start pending portions (_, ok) a h =
    gave-Produces n source i start pending b's' (source_of ps ++ (0 ∷ [])) t
      (text t ∷ arguments_of ps) (arguments_of ps) portions (text_of ps) a refl
      (λ portions' a'. pieces-Produces ps n source (i + 2) (i + 2) [] portions' ok a' (omega arith))
pieces-Produces (long_hex v ∷ ps) (suc (suc (suc n))) source i start pending portions (_, ok) a h =
    wide-Produces n source i start pending (source_of ps ++ (0 ∷ [])) v (arguments_of ps) portions
      (text_of ps) a
      (λ portions' a'. pieces-Produces ps n source (i + 4) (i + 4) [] portions' ok a' (omega arith))
pieces-Produces (long_hex v ∷ ps) (suc zero) source i start pending portions p a h =
    let no : 1 ≤ 0 = omega arith in elim no [ ]
pieces-Produces (long_hex v ∷ ps) (suc (suc zero)) source i start pending portions p a h =
    let no : 1 ≤ 0 = omega arith in elim no [ ]

-- For a format of plain text and directives, with the arguments in their order, vsprintf ends and
-- hands its callback portions that make up the text meant, in order: the plain text as it is, and
-- for each directive the text of its argument, as the conversions of numbers give it.
pub vsprintf-text_of :
    (ps : List Piece)
    → AllPieces ps
    → (out : List (List ℕ)) × (vsprintf (source_of ps ++ (0 ∷ [])) (arguments_of ps) ≡ some out)
      × (concat out ≡ text_of ps)
unfolding vsprintf
vsprintf-text_of ps ok =
    pieces-Produces ps (length (source_of ps ++ (0 ∷ []))) (source_of ps ++ (0 ∷ [])) 0 0 [] [] ok
      (record { place = refl; behind = refl }) (omega arith)

-- sprintf, for such a format and a buffer that has the length it is given, of one byte at least:
-- it leaves the first bytes of the text meant, as many as fit with a terminator behind them, the
-- terminator, and the rest of the buffer as it was.
pub sprintf_format-over :
    (ps : List Piece) (max_out_length : ℕ) (out_buff : List ℕ)
    → AllPieces ps
    → 1 ≤ max_out_length
    → max_out_length ≤ length out_buff
    → sprintf_format out_buff max_out_length (source_of ps ++ (0 ∷ [])) (arguments_of ps)
      ≡ some (over (take (max_out_length - 1) (text_of ps) ++ (0 ∷ [])) out_buff)
unfolding sprintf_format
sprintf_format-over ps max_out_length out_buff ok h l =
    let (out, e, c) = vsprintf-text_of ps ok in
    rw (sprintf_format, e)
      (ap some (
        sprintf-over max_out_length out_buff out h l
        ∙ ap (λ (t : List ℕ). over (take (max_out_length - 1) t ++ (0 ∷ [])) out_buff) c))
