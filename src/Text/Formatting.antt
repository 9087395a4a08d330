-- ===== src/Text/Formatting.antt =====
-- The places that the loop of vsprintf stands at, and what it has handed on.
use juice_os_kernel.Prelude.{
  ℕ, zero, suc, ◌+◌, ◌-◌, ◌≡◌, refl, sym, ap, ◌∙◌, true, false, some, List, [], ◌∷◌, ◌++◌,
  append-nil, append_assoc, drop-drop, arith, ◌==◌, length, get_elem?, drop, length-append,
  take-length, take-append,
}
use juice_os_kernel.Text.Output.{concat}
use juice_os_kernel.Text.Format.{Argument, FormatState, flush, format_loop}

abbrev pub state : (i start : ℕ) → List Argument → List (List ℕ) → FormatState
state i start list portions = record { i = i; start = start; list = list; portions = portions }

-- What a loop hands to its callback, taken together.
abbrev pub Produces : (rounds : ℕ) → (source : List ℕ) → FormatState → (output : List ℕ) → Type 0
Produces rounds source s output =
    (out : List (List ℕ)) × (format_loop rounds source s ≡ some out) × (concat out ≡ output)

-- The loop stands at `rest` of the format, with the plain text `pending` that is not handed on yet.
pub record At (source : List ℕ) (i start : ℕ) (pending rest : List ℕ) : Type 0 where
  pub place : i ≡ start + length pending
  pub behind : drop start source ≡ pending ++ rest

abbrev pub flushed : (pending : List ℕ) → List (List ℕ) → List (List ℕ)
flushed [] portions = portions
flushed (ch ∷ pending) portions = portions ++ ((ch ∷ pending) ∷ [])

drop-append : (xs ys : List ℕ) → drop (length xs) (xs ++ ys) ≡ ys
drop-append [] ys = refl
drop-append (x ∷ xs) ys = drop-append xs ys

pub get_elem?-drop :
    (n : ℕ) (xs : List ℕ) (x : ℕ) (ys : List ℕ) → drop n xs ≡ x ∷ ys → get_elem? xs n ≡ some x
get_elem?-drop zero [] x ys e = ground arith
get_elem?-drop zero (a ∷ xs) x ys e = let same : a ≡ x = cc in ap some same
get_elem?-drop (suc n) [] x ys e = ground arith
get_elem?-drop (suc n) (a ∷ xs) x ys e = get_elem?-drop n xs x ys e

pub concat-append : (xs ys : List (List ℕ)) → concat (xs ++ ys) ≡ concat xs ++ concat ys
concat-append [] ys = refl
concat-append (x ∷ xs) ys =
    ap (x ++◌) (concat-append xs ys) ∙ sym (append_assoc x (concat xs) (concat ys))

pub concat-last : (xs : List (List ℕ)) (p : List ℕ) → concat (xs ++ (p ∷ [])) ≡ concat xs ++ p
concat-last xs p = concat-append xs (p ∷ []) ∙ ap (concat xs ++◌) (append-nil p)

pub concat-flushed :
    (pending : List ℕ) (portions : List (List ℕ))
    → concat (flushed pending portions) ≡ concat portions ++ pending
concat-flushed [] portions = sym (append-nil (concat portions))
concat-flushed (ch ∷ pending) portions = concat-last portions (ch ∷ pending)

-- The rest of the format is what stands at `i`.
pub drop-At :
    (source : List ℕ) (i start : ℕ) (pending rest : List ℕ)
    → At source i start pending rest
    → drop i source ≡ rest
drop-At source i start pending rest a =
    ap (λ (k : ℕ). drop k source) a.place
    ∙ drop-drop start (length pending) source
    ∙ ap (drop (length pending)) a.behind
    ∙ drop-append pending rest

pub flush-At :
    (source : List ℕ) (i start : ℕ) (pending rest : List ℕ) (list : List Argument)
    (portions : List (List ℕ))
    → At source i start pending rest
    → flush source (state i start list portions) ≡ state i start list (flushed pending portions)
unfolding flush
flush-At source i start [] rest list portions a =
    let here : (i == start) ≡ true = ground (arith, a.place) in rw here refl
flush-At source i start (ch ∷ pending) rest list portions a =
    let later : (i == start) ≡ false = ground (arith, a.place) in
    let n : i - start ≡ length (ch ∷ pending) = omega (arith, a.place) in
    rw
      (
        later,
        n,
        a.behind,
        take-append (length (ch ∷ pending)) (ch ∷ pending) rest (omega arith),
        take-length (ch ∷ pending),
      )
      refl

-- The places behind the character or the directive at `i`.
pub At-next :
    (source : List ℕ) (i start : ℕ) (pending : List ℕ) (ch : ℕ) (rest : List ℕ)
    → At source i start pending (ch ∷ rest)
    → At source (i + 1) start (pending ++ (ch ∷ [])) rest
At-next source i start pending ch rest a = record {
  place = omega (arith, a.place, length-append pending (ch ∷ []));
  behind = a.behind ∙ sym (append_assoc pending (ch ∷ []) rest);
}

pub At-behind :
    (source : List ℕ) (i start k : ℕ) (pending rest : List ℕ)
    → At source i start pending rest
    → At source (i + k) (i + k) [] (drop k rest)
At-behind source i start k pending rest a = record {
  place = omega arith;
  behind = drop-drop i k source ∙ ap (drop k) (drop-At source i start pending rest a);
}

pub get_elem?-At :
    (source : List ℕ) (i start : ℕ) (pending : List ℕ) (ch : ℕ) (rest : List ℕ)
    → At source i start pending (ch ∷ rest)
    → get_elem? source i ≡ some ch
get_elem?-At source i start pending ch rest a =
    get_elem?-drop i source ch rest (drop-At source i start pending (ch ∷ rest) a)
