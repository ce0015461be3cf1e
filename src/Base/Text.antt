-- ===== src/Base/Text.antt =====
-- The functions of Go's `strings` that the program uses.
use Prim.Native.Char.{Char, code}
use Prim.Native.Nat.{ℕ, ◌+◌, ◌-◌, ◌*◌}
use Prim.Native.String.{String, [], ◌∷◌, ◌++◌, len}
use Prim.Native.String.append
use mathlib.Core.Path.{◌≡◌}
use native.Mathlib.Omega.{arith}
use mathlib.Core.Bool.{Bool, true, false, ◌&&◌}
use mathlib.Core.List.{List}
use mathlib.Core.Option.{Option, none, some}
use forge_sync.Base.Equality.{◌==◌, nat_eq, string_eq, leb, if◌then◌else◌}

-- `strings.Cut(s, sep)` for a separator of one character, given by its code.
unfoldable pub cut_at : ℕ → String → Option (String × String)
cut_at sep [] = none
cut_at sep (c ∷ s) =
    let rest = cut_at sep s in
    if code c == sep
    then some ("", s)
    else elim rest [ none ↦ none | some (before, after) ↦ some (c ∷ before, after) ]

-- `strings.CutPrefix(s, prefix)`
unfoldable pub cut_prefix : String → String → Option String
cut_prefix [] s = some s
cut_prefix (p ∷ prefix) [] = none
cut_prefix (p ∷ prefix) (c ∷ s) =
    let rest = cut_prefix prefix s in if code p == code c then rest else none

hex_digit : ℕ → Option ℕ
hex_digit c =
    if leb b'0' c && leb c b'9'
    then some (c - 48)
    else if leb b'a' c && leb c b'f'
    then some (c - 87)
    else if leb b'A' c && leb c b'F'
    then some (c - 55)
    else none

-- `hex.DecodeString`: two digits to a byte.
unfoldable pub decode_hex : String → Option (List ℕ)
unfolding hex_digit
decode_hex [] = some List.[]
decode_hex (h ∷ []) = none
decode_hex (h ∷ (l ∷ s)) = elim (hex_digit (code h)) [
  | none ↦ none
  | some high ↦ elim (hex_digit (code l)) [
    | none ↦ none
    | some low ↦ elim (decode_hex s) [
      | none ↦ none
      | some bytes ↦ some (List.◌∷◌ (high * 16 + low) bytes)
    ]
  ]
]

-- `strings.HasPrefix(s, prefix)`
unfoldable pub has_prefix : String → String → Bool
has_prefix s prefix = elim (cut_prefix prefix s) [ none ↦ false | some rest ↦ true ]

-- `strings.TrimPrefix(s, prefix)`
unfoldable pub trim_prefix : String → String → String
trim_prefix s prefix = elim (cut_prefix prefix s) [ none ↦ s | some rest ↦ rest ]

-- What stands before the last separator, a character given by its code.
unfoldable pub before_last : ℕ → String → Option String
before_last sep [] = none
before_last sep (c ∷ s) = elim (before_last sep s) [
  | some before ↦ some (c ∷ before)
  | none ↦ if code c == sep then some "" else none
]

prepend : Char → List String → List String
prepend c List.[] = List.◌∷◌ (c ∷ []) List.[]
prepend c (List.◌∷◌ s rest) = List.◌∷◌ (c ∷ s) rest

drop_return : String → String
drop_return [] = []
drop_return (c ∷ []) = if code c == 13 then [] else c ∷ []
drop_return (c ∷ (d ∷ s)) = c ∷ drop_return (d ∷ s)

raw_lines : String → List String
unfolding prepend
raw_lines [] = List.[]
raw_lines (c ∷ s) =
    let rest = raw_lines s in if code c == 10 then List.◌∷◌ "" rest else prepend c rest

-- The tokens of a `bufio.Scanner`, and whether it stopped at a line that fills its buffer of 64 KiB.
unfoldable pub scan_lines : String → List String × Bool
unfolding raw_lines drop_return
scan_lines s = scan (raw_lines s)
  where
    scan : List String → List String × Bool
    scan List.[] = (List.[], false)
    scan (List.◌∷◌ line rest) =
        let (tokens, stopped) = scan rest in
        if leb 65536 (len line)
        then (List.[], true)
        else (List.◌∷◌ (drop_return line) tokens, stopped)

-- `strings.Contains(s, part)`
unfoldable pub contains_text : String → String → Bool
contains_text [] part = has_prefix [] part
contains_text (c ∷ s) part =
    let rest = contains_text s part in if has_prefix (c ∷ s) part then true else rest

-- The code of a letter in lower case, for the letters of ASCII.
ascii_lower : ℕ → ℕ
ascii_lower c = if leb b'A' c && leb c b'Z' then c + 32 else c

-- `lower(s) = lower(t)` in SQLite, which folds the letters of ASCII only.
unfoldable pub same_lower : String → String → Bool
unfolding ascii_lower
same_lower [] [] = true
same_lower [] (d ∷ t) = false
same_lower (c ∷ s) [] = false
same_lower (c ∷ s) (d ∷ t) = ascii_lower (code c) == ascii_lower (code d) && same_lower s t

-- `strings.TrimRight(s, cut)` for one character, given by its code.
unfoldable pub trim_right : ℕ → String → String
trim_right cut [] = []
trim_right cut (c ∷ s) =
    let rest = trim_right cut s in if code c == cut && rest == "" then [] else c ∷ rest

-- `strings.TrimSuffix(s, suffix)`
unfoldable pub trim_suffix : String → String → String
trim_suffix [] suffix = []
trim_suffix (c ∷ s) suffix =
    let rest = trim_suffix s suffix in if c ∷ s == suffix then [] else c ∷ rest

-- The functions of Go's `strings` that follow the tables of Unicode: TrimSpace, ToLower, EqualFold.
pub record Unicode : Type 0 where
  pub is_space : Char → Bool
  pub trim_space : String → String
  pub to_lower : String → String
  pub equal_fold : String → String → Bool

module _ (unicode : Unicode) where
  ends_word : String → Bool
  ends_word [] = true
  ends_word (c ∷ s) = unicode.is_space c

  -- `strings.Fields(s)`
  unfoldable pub fields : String → List String
  unfolding prepend ends_word
  fields [] = List.[]
  fields (c ∷ s) =
      let rest = fields s in
      if unicode.is_space c
      then rest
      else if ends_word s
      then List.◌∷◌ (c ∷ []) rest
      else prepend c rest

-- A text that contains a part still contains it behind a prefix.
pub contains_text-append :
    (c e part : String) → contains_text e part ≡ true → contains_text (c ++ e) part ≡ true
unfolding contains_text
contains_text-append [] e part h = rw (append.nil e) h
contains_text-append (x ∷ c) e part h =
    rw (append.cons x c e) (ground (arith, contains_text-append c e part h))
