-- ===== src/Prelude/Text.antt =====
-- Python's text operations that the source applies to names, paths and urls.
use Prim.Native.Nat.{ℕ, zero, suc, ◌/◌, ◌%◌}
use Prim.Native.Char.{Char, code}
use Prim.Native.String.{String, ◌++◌}
use mathlib.Core.Bool.{Bool, not, ◌&&◌, ◌||◌}
use mathlib.Core.Option.{Option, none, some}
use mathlib.Core.List.{List, [], ◌∷◌}
use autobench.Prelude.Tests.{eqb, ltb, leb, truthy, is_some, if◌then◌else◌}

-- `text.replace(old, new)`, for one character each.
unfoldable pub replace_char : Char → Char → String → String
replace_char old new String.[] = String.[]
replace_char old new (String.◌∷◌ c rest) =
    String.◌∷◌ (if eqb (code c) (code old) then new else c) (replace_char old new rest)

-- `text.rstrip(c)`
unfoldable pub rstrip : Char → String → String
rstrip c String.[] = String.[]
rstrip c (String.◌∷◌ d rest) =
    let kept = rstrip c rest in
    if eqb (code d) (code c) && not (truthy kept) then String.[] else String.◌∷◌ d kept

-- `text.lstrip(c)`
unfoldable pub lstrip : Char → String → String
lstrip c String.[] = String.[]
lstrip c (String.◌∷◌ d rest) =
    let shorter = lstrip c rest in if eqb (code d) (code c) then shorter else String.◌∷◌ d rest

-- `str(n)`: the digits of a number below 10 ^ fuel.
digit : ℕ → String
digit n =
    if ltb n 5
    then (if eqb n 0
        then "0"
        else if eqb n 1
        then "1"
        else if eqb n 2
        then "2"
        else if eqb n 3
        then "3"
        else "4")
    else if eqb n 5
    then "5"
    else if eqb n 6
    then "6"
    else if eqb n 7
    then "7"
    else if eqb n 8
    then "8"
    else "9"

digits : ℕ → ℕ → String
unfolding digit
digits zero n = digit (n % 10)
digits (suc fuel) n =
    let more = digits fuel (n / 10) ++ digit (n % 10) in if ltb n 10 then digit n else more

unfoldable pub decimal : ℕ → String
unfolding digits
decimal n = digits n n

-- `glue.join(parts)`
unfoldable pub join : String → List String → String
join glue [] = ""
join glue (part ∷ []) = part
join glue (part ∷ rest) = part ++ (glue ++ join glue rest)

-- `text[len(prefix):]` if the text starts with the prefix
unfoldable pub without_prefix : String → String → Option String
without_prefix String.[] text = some text
without_prefix (String.◌∷◌ p prefix) String.[] = none
without_prefix (String.◌∷◌ p prefix) (String.◌∷◌ c text) =
    let rest = without_prefix prefix text in if eqb (code p) (code c) then rest else none

-- `text.startswith(prefix)`
abbrev pub begins : String → String → Bool
begins prefix text = is_some (without_prefix prefix text)

add_char : Char → List String → List String
add_char c [] = String.◌∷◌ c String.[] ∷ []
add_char c (part ∷ parts) = String.◌∷◌ c part ∷ parts

-- `text.split(c)`, for one character
unfoldable pub split : Char → String → List String
unfolding add_char
split c String.[] = "" ∷ []
split c (String.◌∷◌ d rest) =
    let parts = split c rest in if eqb (code d) (code c) then "" ∷ parts else add_char d parts

-- `str.isspace` of one character
unfoldable pub is_space : ℕ → Bool
is_space c =
    (leb 9 c && leb c 13)
    || (leb 28 c && leb c 32)
    || eqb c 133
    || eqb c 160
    || eqb c 5760
    || (leb 8192 c && leb c 8202)
    || eqb c 8232
    || eqb c 8233
    || eqb c 8239
    || eqb c 8287
    || eqb c 12288

-- `text.rstrip()` and `text.strip()`
unfoldable pub rstrip_spaces : String → String
unfolding is_space
rstrip_spaces String.[] = String.[]
rstrip_spaces (String.◌∷◌ c rest) =
    let kept = rstrip_spaces rest in
    if is_space (code c) && not (truthy kept) then String.[] else String.◌∷◌ c kept

unfoldable pub lstrip_spaces : String → String
unfolding is_space
lstrip_spaces String.[] = String.[]
lstrip_spaces (String.◌∷◌ c rest) =
    let shorter = lstrip_spaces rest in if is_space (code c) then shorter else String.◌∷◌ c rest

abbrev pub strip : String → String
strip text = rstrip_spaces (lstrip_spaces text)

abbrev or_after : Char → Option String → Option (String × String) → Option (String × String)
or_after c (some rest) later = some ("", rest)
or_after c none none = none
or_after c none (some (front, rest)) = some (String.◌∷◌ c front, rest)

-- `text.partition(mark)`, or none where the text has no `mark`
unfoldable pub partition_on : String → String → Option (String × String)
partition_on mark String.[] = if truthy mark then none else some ("", "")
partition_on mark (String.◌∷◌ c text) =
    or_after c (without_prefix mark (String.◌∷◌ c text)) (partition_on mark text)

-- `text.split(mark, 1)[0]`
abbrev pub before : String → String → String
before mark text = elim (partition_on mark text) [ none ↦ text | some (front, _) ↦ front ]
