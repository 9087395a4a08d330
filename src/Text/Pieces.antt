-- ===== src/Text/Pieces.antt =====
-- What vsprintf prints: formats as lists of pieces.
use juice_os_kernel.Prelude.{
  ℕ, zero, suc, ◌+◌, ◌%◌, ◌≤◌, ◌<◌, ◌≡◌, refl, subst, ◌≢◌, Option, none, some, List, [], ◌∷◌, ◌++◌,
  append_assoc, arith, length, take,
}
use juice_os_kernel.Numbers.Defs.{int_to_str, uint_to_str, uint_to_hex, uint64_to_hex, unsigned_mod}
use juice_os_kernel.Text.Strings.{string_length}
use juice_os_kernel.Text.Output.{concat}
use juice_os_kernel.Text.Format.{Argument, word, wide, text, FormatState, gave, gave_text}
use juice_os_kernel.Text.Formatting.{state, Produces, At, At-next, get_elem?-At}
use juice_os_kernel.Text.Steps.{again-Produces, plain_step}

-- A format as it is meant: plain text, and directives with the arguments for them.
pub data Piece : Type 0 where
  plain : List ℕ → Piece
  signed : ℕ → Piece
  unsigned : ℕ → Piece
  hex : ℕ → Piece
  pointer : ℕ → Piece
  long_hex : ℕ → Piece
  character : ℕ → Piece
  string : List ℕ → Piece

abbrev pub source_of : List Piece → List ℕ
source_of [] = []
source_of (plain xs ∷ ps) = xs ++ source_of ps
source_of (signed v ∷ ps) = b'%' ∷ b'd' ∷ source_of ps
source_of (unsigned v ∷ ps) = b'%' ∷ b'u' ∷ source_of ps
source_of (hex v ∷ ps) = b'%' ∷ b'x' ∷ source_of ps
source_of (pointer v ∷ ps) = b'%' ∷ b'p' ∷ source_of ps
source_of (long_hex v ∷ ps) = b'%' ∷ b'l' ∷ b'l' ∷ b'x' ∷ source_of ps
source_of (character v ∷ ps) = b'%' ∷ b'c' ∷ source_of ps
source_of (string t ∷ ps) = b'%' ∷ b's' ∷ source_of ps

abbrev pub arguments_of : List Piece → List Argument
arguments_of [] = []
arguments_of (plain xs ∷ ps) = arguments_of ps
arguments_of (signed v ∷ ps) = word v ∷ arguments_of ps
arguments_of (unsigned v ∷ ps) = word v ∷ arguments_of ps
arguments_of (hex v ∷ ps) = word v ∷ arguments_of ps
arguments_of (pointer v ∷ ps) = word v ∷ arguments_of ps
arguments_of (long_hex v ∷ ps) = wide v ∷ arguments_of ps
arguments_of (character v ∷ ps) = word v ∷ arguments_of ps
arguments_of (string t ∷ ps) = text t ∷ arguments_of ps

-- The text of a number, up to its terminator.
abbrev pub printed : Option (List ℕ) → List ℕ
printed none = []
printed (some temp) = take (string_length temp) temp

abbrev pub piece_text : Piece → List ℕ
piece_text (plain xs) = xs
piece_text (signed v) = printed (int_to_str v 10)
piece_text (unsigned v) = printed (uint_to_str v 10)
piece_text (hex v) = take 8 (uint_to_hex v 8)
piece_text (pointer v) = b'0' ∷ b'x' ∷ take 8 (uint_to_hex v 8)
piece_text (long_hex v) = take 16 (uint64_to_hex v 16)
piece_text (character v) = v % 0x100 ∷ []
piece_text (string t) = t

abbrev pub text_of : List Piece → List ℕ
text_of [] = []
text_of (p ∷ ps) = piece_text p ++ text_of ps

abbrev pub IsPlain : List ℕ → Type 0
IsPlain [] = Unit {0}
IsPlain (ch ∷ xs) = (ch ≢ 0) × (ch ≢ b'%') × IsPlain xs

-- Plain text has no percent sign and no terminator; the numbers have 32 bits.
abbrev pub IsPiece : Piece → Type 0
IsPiece (plain xs) = IsPlain xs
IsPiece (signed v) = v < unsigned_mod
IsPiece (unsigned v) = v < unsigned_mod
IsPiece (hex v) = Unit {0}
IsPiece (pointer v) = Unit {0}
IsPiece (long_hex v) = Unit {0}
IsPiece (character v) = Unit {0}
IsPiece (string t) = Unit {0}

abbrev pub AllPieces : List Piece → Type 0
AllPieces [] = Unit {0}
AllPieces (p ∷ ps) = IsPiece p × AllPieces ps

pub plain-Produces :
    (xs : List ℕ) (n : ℕ) (source : List ℕ) (i start : ℕ) (pending rest : List ℕ)
    (list : List Argument) (portions : List (List ℕ)) (output : List ℕ)
    → IsPlain xs
    → At source i start pending (xs ++ rest)
    → length (xs ++ rest) ≤ n
    → ((n' i' : ℕ) (pending' : List ℕ)
        → At source i' start pending' rest
        → length rest ≤ n'
        → Produces n' source
            (state i' start list portions)
            (concat portions ++ (pending' ++ output)))
    → Produces n source
        (state i start list portions)
        (concat portions ++ (pending ++ (xs ++ output)))
plain-Produces [] n source i start pending rest list portions output p a h k = k n i pending a h
plain-Produces (ch ∷ xs) zero source i start pending rest list portions output p a h k =
    ground arith
plain-Produces (ch ∷ xs) (suc n) source i start pending rest list portions output (z, q, p) a h k =
    again-Produces n source (state i start list portions) (state (i + 1) start list portions) _
      (plain_step source i start ch list portions
        (get_elem?-At source i start pending ch (xs ++ rest) a) z q)
      (subst
        (λ (t : List ℕ).
          Produces n source (state (i + 1) start list portions) (concat portions ++ t))
        (append_assoc pending (ch ∷ []) (xs ++ output))
        (plain-Produces xs n source (i + 1) start (pending ++ (ch ∷ [])) rest list portions output p
          (At-next source i start pending ch (xs ++ rest) a) (omega arith) k))

pub number_given :
    (o : Option (List ℕ)) (t : List ℕ) (list : List Argument) (s : FormatState)
    → o ≡ some t
    → gave_text o list s ≡ gave (printed o) 1 list s
unfolding gave_text
number_given none t list s e = ground arith
number_given (some x) t list s e = refl
