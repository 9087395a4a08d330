-- ===== src/Text/Steps.antt =====
-- Steps of the loop of vsprintf: plain text, the end of the format, and directives.
use juice_os_kernel.Prelude.{
  ℕ, zero, suc, ◌+◌, ◌≤◌, ◌≡◌, refl, ap, ◌∙◌, subst, ◌≢◌, false, some, List, [], ◌∷◌, ◌++◌,
  append_assoc, arith, ◌==◌, get_elem?,
}
use juice_os_kernel.Text.Output.{concat}
use juice_os_kernel.Text.Format.{
  Argument, FormatState, done, again, gave, directive, read_directive, format_char, format_step,
  format_loop,
}
use juice_os_kernel.Text.Formatting.{
  state, Produces, At, flushed, concat-last, concat-flushed, flush-At, At-next, At-behind,
  get_elem?-At,
}

pub again-Produces :
    (n : ℕ) (source : List ℕ) (s t : FormatState) (output : List ℕ)
    → format_step source s ≡ again t
    → Produces n source t output
    → Produces (suc n) source s output
unfolding format_loop
again-Produces n source s t output e (out, l, c) = (out, (rw (format_loop, e) l), c)

pub plain_step :
    (source : List ℕ) (i start ch : ℕ) (list : List Argument) (portions : List (List ℕ))
    → get_elem? source i ≡ some ch
    → ch ≢ 0
    → ch ≢ b'%'
    → format_step source (state i start list portions) ≡ again (state (i + 1) start list portions)
unfolding format_step format_char
plain_step source i start ch list portions e z p =
    let f : (ch == 0) ≡ false = ground arith in
    let g : (ch == b'%') ≡ false = ground arith in rw (format_step, e, f, g) refl

end_step :
    (source : List ℕ) (i start : ℕ) (pending : List ℕ) (list : List Argument)
    (portions : List (List ℕ))
    → At source i start pending (0 ∷ [])
    → format_step source (state i start list portions)
      ≡ done (state i start list (flushed pending portions))
unfolding format_step format_char
end_step source i start pending list portions a =
    rw (format_step, get_elem?-At source i start pending 0 [] a)
      (ap done (flush-At source i start pending (0 ∷ []) list portions a))

pub end-Produces :
    (n : ℕ) (source : List ℕ) (i start : ℕ) (pending : List ℕ) (list : List Argument)
    (portions : List (List ℕ))
    → At source i start pending (0 ∷ [])
    → 1 ≤ n
    → Produces n source (state i start list portions) (concat portions ++ pending)
unfolding format_loop
end-Produces zero source i start pending list portions a h = ground arith
end-Produces (suc n) source i start pending list portions a h = (
  flushed pending portions,
  (rw (format_loop, end_step source i start pending list portions a) refl),
  concat-flushed pending portions,
)

pub directive_step :
    (source : List ℕ) (i start : ℕ) (pending : List ℕ) (d : ℕ) (rest : List ℕ)
    (list : List Argument) (portions : List (List ℕ))
    → At source i start pending (b'%' ∷ d ∷ rest)
    → format_step source (state i start list portions)
      ≡ directive source d (state (i + 1) start list (flushed pending portions))
unfolding format_step format_char read_directive
directive_step source i start pending d rest list portions a =
    let here = get_elem?-At source i start pending b'%' (d ∷ rest) a in
    let there =
      get_elem?-At source (i + 1) start (pending ++ (b'%' ∷ [])) d rest
        (At-next source i start pending b'%' (d ∷ rest) a) in
    let flushed_here = flush-At source i start pending (b'%' ∷ d ∷ rest) list portions a in
    let first : format_step source (state i start list portions)
        ≡ read_directive source (state (i + 1) start list (flushed pending portions)) =
      rw (format_step, here)
        (ap (λ (t : FormatState). read_directive source (state (t.i + 1) t.start t.list t.portions))
          flushed_here) in
    first ∙ rw (read_directive, there) refl

-- A directive of one character that gave a portion: the loop goes on behind it.
pub gave-Produces :
    (n : ℕ) (source : List ℕ) (i start : ℕ) (pending : List ℕ) (d : ℕ) (rest portion : List ℕ)
    (list list' : List Argument) (portions : List (List ℕ)) (output : List ℕ)
    → At source i start pending (b'%' ∷ d ∷ rest)
    → directive source d (state (i + 1) start list (flushed pending portions))
      ≡ gave portion 1 list' (state (i + 1) start list (flushed pending portions))
    → ((portions' : List (List ℕ))
        → At source (i + 2) (i + 2) [] rest
        → Produces n source (state (i + 2) (i + 2) list' portions') (concat portions' ++ output))
    → Produces
        (suc n)
        source
        (state i start list portions)
        (concat portions ++ (pending ++ (portion ++ output)))
unfolding gave
gave-Produces n source i start pending d rest portion list list' portions output a e k =
    let two : i + 1 + 1 ≡ i + 2 = omega arith in
    let behind = At-behind source i start 2 pending (b'%' ∷ d ∷ rest) a in
    let text : concat (flushed pending portions ++ (portion ∷ [])) ++ output
        ≡ concat portions ++ (pending ++ (portion ++ output)) =
      ap (◌++ output) (
        concat-last (flushed pending portions) portion
        ∙ ap (◌++ portion) (concat-flushed pending portions))
      ∙ append_assoc (concat portions ++ pending) portion output
      ∙ append_assoc (concat portions) pending (portion ++ output) in
    again-Produces n source (state i start list portions)
      (state (i + 2) (i + 2) list' (flushed pending portions ++ (portion ∷ [])))
      (concat portions ++ (pending ++ (portion ++ output)))
      (directive_step source i start pending d rest list portions a
        ∙ e
        ∙ ap (λ (j : ℕ). again (state j j list' (flushed pending portions ++ (portion ∷ [])))) two)
      (subst
        (Produces n source
          (state (i + 2) (i + 2) list' (flushed pending portions ++ (portion ∷ []))))
        text (k (flushed pending portions ++ (portion ∷ [])) behind))
