-- ===== src/Text/Format.antt =====
-- vsprintf of core/stdlib.cpp: the portions that it hands to its callback, in order. The format is given with its terminator.
use juice_os_kernel.Prelude.{
  ℕ, zero, suc, ◌+◌, ◌-◌, ◌%◌, Bool, ◌&&◌, ◌||◌, Option, none, some, List, [], ◌∷◌, ◌++◌, ◌==◌,
  if◌then◌else◌, length, get_elem?, take, drop,
}
use juice_os_kernel.Text.Defs.{mem_compare, sprintf}
use juice_os_kernel.Text.Strings.{string_length}
use juice_os_kernel.Numbers.Defs.{int_to_str, uint_to_str, uint_to_hex, uint64_to_hex}

-- What the caller passes behind the format: a 32-bit word, a 64-bit word, or a text without its terminator.
pub data Argument : Type 0 where
  word : ℕ → Argument
  wide : ℕ → Argument
  text : List ℕ → Argument

-- The index of the character, the place behind the last portion, the arguments that are left and
-- the portions that the callback was given.
pub record FormatState : Type 0 where
  pub i : ℕ
  pub start : ℕ
  pub list : List Argument
  pub portions : List (List ℕ)

pub data FormatStep : Type 0 where
  done : FormatState → FormatStep
  again : FormatState → FormatStep
  wrong : FormatStep

unfoldable pub try_takestr : (str : List ℕ) → (desired_size : ℕ) → ℕ
try_takestr str zero = 0
try_takestr [] (suc n) = 0
try_takestr (ch ∷ str) (suc n) = let rest = try_takestr str n in if ch == 0 then 0 else suc rest

-- The plain text between `start` and the current character.
unfoldable pub flush : (source : List ℕ) → FormatState → FormatState
flush source s =
    if s.i == s.start
    then s
    else record s { portions = s.portions ++ (take (s.i - s.start) (drop s.start source) ∷ []) }

-- A directive that gave a portion: the next plain text starts `skip` characters on.
unfoldable pub gave : (portion : List ℕ) → (skip : ℕ) → List Argument → FormatState → FormatStep
gave portion skip list s = again (record {
  i = s.i + 1;
  start = s.i + skip;
  list = list;
  portions = s.portions ++ (portion ∷ []);
})

-- The text of a number, up to its terminator.
unfoldable pub gave_text : Option (List ℕ) → List Argument → FormatState → FormatStep
gave_text none list s = wrong
gave_text (some temp) list s = gave (take (string_length temp) temp) 1 list s

-- An argument of another type than the directive's, or none, is undefined in the source: `wrong`.
unfoldable pub word_directive : (ch : ℕ) → List Argument → FormatState → FormatStep
word_directive ch (word value ∷ list) s =
    if ch == b'd' || (ch == b'i')
    then gave_text (int_to_str value 10) list s
    else if ch == b'u'
    then gave_text (uint_to_str value 10) list s
    else if ch == b'x'
    then gave (take 8 (uint_to_hex value 8)) 1 list s
    else if ch == b'p'
    then gave (b'0' ∷ b'x' ∷ take 8 (uint_to_hex value 8)) 1 list s
    else gave (value % 0x100 ∷ []) 1 list s
word_directive ch (wide value ∷ list) s = wrong
word_directive ch (text value ∷ list) s = wrong
word_directive ch [] s = wrong

unfoldable pub wide_directive : List Argument → FormatState → FormatStep
wide_directive (wide value ∷ list) s = gave (take 16 (uint64_to_hex value 16)) 3 list s
wide_directive (word value ∷ list) s = wrong
wide_directive (text value ∷ list) s = wrong
wide_directive [] s = wrong

unfoldable pub text_directive : List Argument → FormatState → FormatStep
text_directive (text value ∷ list) s = gave value 1 list s
text_directive (word value ∷ list) s = wrong
text_directive (wide value ∷ list) s = wrong
text_directive [] s = wrong

-- With `skip` -1 the character before, the percent sign, begins the next plain text.
unfoldable pub no_directive : FormatState → FormatStep
no_directive s = again (record s { i = s.i + 1; start = s.i - 1 })

unfoldable pub is_word : (ch : ℕ) → Bool
is_word ch =
    ch == b'd' || (ch == b'i' || (ch == b'u' || (ch == b'x' || (ch == b'p' || (ch == b'c')))))

-- The directive at `i`, whose character is `ch`.
unfoldable pub directive : (source : List ℕ) → (ch : ℕ) → FormatState → FormatStep
directive source ch s =
    if is_word ch
    then word_directive ch s.list s
    else if ch == b'l'
    then (let size = try_takestr (drop s.i source) 3 in
        if size == 3 && mem_compare (drop s.i source) (b'l' ∷ b'l' ∷ b'x' ∷ []) size
        then wide_directive s.list s
        else no_directive s)
    else if ch == b's'
    then text_directive s.list s
    else no_directive s

-- A read behind the terminator of the format is `wrong`.
unfoldable pub read_directive : (source : List ℕ) → FormatState → FormatStep
read_directive source s = elim (get_elem? source s.i) [
  | none ↦ wrong
  | some ch ↦ directive source ch s
]

unfoldable pub format_char : (source : List ℕ) → (ch : ℕ) → FormatState → FormatStep
format_char source ch s =
    if ch == 0
    then done (flush source s)
    else if ch == b'%'
    then (let t = flush source s in read_directive source (record t { i = t.i + 1 }))
    else again (record s { i = s.i + 1 })

unfoldable pub format_step : (source : List ℕ) → FormatState → FormatStep
format_step source s = elim (get_elem? source s.i) [
  | none ↦ wrong
  | some ch ↦ format_char source ch s
]

unfoldable pub format_loop : (rounds : ℕ) → (source : List ℕ) → FormatState → Option (List (List ℕ))
format_loop zero source s = none
format_loop (suc n) source s = elim (format_step source s) [
  | done t ↦ some t.portions
  | again t ↦ format_loop n source t
  | wrong ↦ none
]

-- The portions for a format with its terminator. Each round moves `i` on, so that a round for each
-- byte is enough.
unfoldable pub vsprintf : (source : List ℕ) → (list : List Argument) → Option (List (List ℕ))
vsprintf source list =
    format_loop (length source) source (record { i = 0; start = 0; list = list; portions = [] })

-- `sprintf` with its format and the arguments behind it.
unfoldable pub sprintf_format :
    (out_buff : List ℕ)
    → (max_out_length : ℕ) → (source : List ℕ) → (list : List Argument) → Option (List ℕ)
sprintf_format out_buff max_out_length source list = elim (vsprintf source list) [
  | none ↦ none
  | some portions ↦ some (sprintf out_buff max_out_length portions)
]
