-- ===== src/Text/WideDirective.antt =====
-- The directive of vsprintf with three letters.
use juice_os_kernel.Prelude.{
  ℕ, suc, ◌+◌, ◌≡◌, refl, sym, ap, ◌∙◌, subst, List, [], ◌∷◌, ◌++◌, append_assoc, arith, take, drop,
}
use juice_os_kernel.Numbers.Defs.{uint64_to_hex}
use juice_os_kernel.Text.Output.{concat}
use juice_os_kernel.Text.Defs.{mem_compare}
use juice_os_kernel.Text.Format.{
  Argument, wide, gave, wide_directive, directive, is_word, try_takestr,
}
use juice_os_kernel.Text.Formatting.{
  state, Produces, At, flushed, concat-last, concat-flushed, At-behind, drop-At, get_elem?-drop,
}
use juice_os_kernel.Text.Steps.{again-Produces, plain_step, directive_step}

-- The directive finds its three letters.
wide_found :
    (source : List ℕ) (i start : ℕ) (rest : List ℕ) (value : ℕ) (list : List Argument)
    (portions : List (List ℕ))
    → drop i source ≡ b'l' ∷ b'l' ∷ b'x' ∷ rest
    → directive source b'l' (state i start (wide value ∷ list) portions)
      ≡ gave (take 16 (uint64_to_hex value 16)) 3 list (state i start (wide value ∷ list) portions)
unfolding directive is_word try_takestr mem_compare wide_directive
wide_found source i start rest value list portions e = rw (e) refl

-- The two letters behind the first are passed over, before the loop reaches the next text.
passed :
    (n : ℕ) (source : List ℕ) (i start : ℕ) (rest : List ℕ) (list : List Argument)
    (portions : List (List ℕ)) (output : List ℕ)
    → drop i source ≡ b'l' ∷ b'x' ∷ rest
    → drop (i + 1) source ≡ b'x' ∷ rest
    → Produces n source (state (i + 1 + 1) start list portions) output
    → Produces (suc (suc n)) source (state i start list portions) output
passed n source i start rest list portions output e f p =
    again-Produces (suc n) source (state i start list portions) (state (i + 1) start list portions)
      output
      (plain_step source i start b'l' list portions (get_elem?-drop i source b'l' (b'x' ∷ rest) e)
        (ground arith) (ground arith))
      (again-Produces n source (state (i + 1) start list portions)
        (state (i + 1 + 1) start list portions) output
        (plain_step source (i + 1) start b'x' list portions
          (get_elem?-drop (i + 1) source b'x' rest f) (ground arith) (ground arith))
        p)

wide_text :
    (pending portion output : List ℕ) (portions : List (List ℕ))
    → concat (flushed pending portions ++ (portion ∷ [])) ++ output
      ≡ concat portions ++ (pending ++ (portion ++ output))
wide_text pending portion output portions =
    ap (◌++ output) (
      concat-last (flushed pending portions) portion
      ∙ ap (◌++ portion) (concat-flushed pending portions))
    ∙ append_assoc (concat portions ++ pending) portion output
    ∙ append_assoc (concat portions) pending (portion ++ output)

pub wide-Produces :
    (n : ℕ) (source : List ℕ) (i start : ℕ) (pending rest : List ℕ) (value : ℕ)
    (list : List Argument) (portions : List (List ℕ)) (output : List ℕ)
    → At source i start pending (b'%' ∷ b'l' ∷ b'l' ∷ b'x' ∷ rest)
    → ((portions' : List (List ℕ))
        → At source (i + 4) (i + 4) [] rest
        → Produces n source (state (i + 4) (i + 4) list portions') (concat portions' ++ output))
    → Produces
        (suc (suc (suc n)))
        source
        (state i start (wide value ∷ list) portions)
        (concat portions ++ (pending ++ (take 16 (uint64_to_hex value 16) ++ output)))
unfolding gave
wide-Produces n source i start pending rest value list portions output a k =
    let format = b'%' ∷ b'l' ∷ b'l' ∷ b'x' ∷ rest in
    let portion = take 16 (uint64_to_hex value 16) in
    let portions' = flushed pending portions ++ (portion ∷ []) in
    let letters =
      drop-At source (i + 1) (i + 1) [] (b'l' ∷ b'l' ∷ b'x' ∷ rest)
        (At-behind source i start 1 pending format a) in
    let second = drop-At source (i + 1 + 1) (i + 1 + 1) [] (b'l' ∷ b'x' ∷ rest) (
      At-behind source (i + 1) (i + 1) 1 [] (b'l' ∷ b'l' ∷ b'x' ∷ rest)
        (At-behind source i start 1 pending format a)) in
    let third = drop-At source (i + 1 + 1 + 1) (i + 1 + 1 + 1) [] (b'x' ∷ rest) (
      At-behind source (i + 1 + 1) (i + 1 + 1) 1 [] (b'l' ∷ b'x' ∷ rest) (
        At-behind source (i + 1) (i + 1) 1 [] (b'l' ∷ b'l' ∷ b'x' ∷ rest)
          (At-behind source i start 1 pending format a))) in
    let start4 : i + 1 + 3 ≡ i + 4 = omega arith in
    let i4 : i + 1 + 1 + 1 + 1 ≡ i + 4 = omega arith in
    let output' = concat portions ++ (pending ++ (portion ++ output)) in
    let last : Produces n source (state (i + 4) (i + 4) list portions') output' =
      subst (Produces n source (state (i + 4) (i + 4) list portions'))
        (wide_text pending portion output portions)
        (k portions' (At-behind source i start 4 pending format a)) in
    let moved : Produces n source (state (i + 1 + 1 + 1 + 1) (i + 1 + 3) list portions') output' =
      subst (λ (j : ℕ). Produces n source (state (i + 1 + 1 + 1 + 1) j list portions') output')
        (sym start4)
        (subst (λ (j : ℕ). Produces n source (state j (i + 4) list portions') output') (sym i4)
          last) in
    again-Produces (suc (suc n)) source (state i start (wide value ∷ list) portions)
      (state (i + 1 + 1) (i + 1 + 3) list portions') output'
      (directive_step source i start pending b'l' (b'l' ∷ b'x' ∷ rest) (wide value ∷ list) portions
          a
        ∙ wide_found source (i + 1) start rest value list (flushed pending portions) letters)
      (passed n source (i + 1 + 1) (i + 1 + 3) rest list portions' output' second third moved)
