-- ===== src/Prelude/Text.antt =====
-- Go's `strings` and `path/filepath` on slash-separated text.
use Prim.Native.Char.{code}
use Prim.Native.String
use Prim.Native.String.{String}
use mathlib.Core.Logic.{ite}
use mathlib.Core.Bool.{Bool, not, ◌||◌, ◌&&◌}
use mathlib.Core.Option.{Option, none, some}
use mathlib.Core.List.{List, [], ◌∷◌, ◌++◌, reverse, tail}
use native.Mathlib.Decide.{ℕ_discrete}
use text.Mathlib.Text.{starts_with}
use stoker_operator.Prelude.Equality.{◌==◌, string_eq, nat_eq, leb, if◌then◌else◌}
use Prim.Native.Nat.{ℕ, zero, suc, ◌/◌, ◌%◌}

infixr 65 ◌<>◌
abbrev ◌<>◌ : String → String → String
a <> b = String.◌++◌ a b

-- `strings.Split(s, "/")`: the piece that is being read, and the rest of the text.
split_from : String → String → List String
split_from piece String.[] = piece ∷ []
split_from piece (String.◌∷◌ c s) =
    let closed = piece ∷ split_from "" s in
    let longer = split_from (piece <> String.◌∷◌ c String.[]) s in
    ite (ℕ_discrete (code c) b'/') closed longer

unfoldable pub split_slash : String → List String
unfolding split_from ℕ_discrete
split_slash s = split_from "" s

-- `strings.Join(parts, sep)`
unfoldable pub join_by : String → List String → String
join_by sep [] = ""
join_by sep (x ∷ []) = x
join_by sep (x ∷ y ∷ r) = x <> sep <> join_by sep (y ∷ r)

-- One component of `filepath.Clean`, on a stack with its top at the head: "" and "." are dropped,
-- and ".." drops the component before it.
unfoldable pub push_component : List String → String → List String
push_component stack part =
    if part == "" || part == "." then stack else if part == ".." then tail stack else part ∷ stack

unfoldable pub clean_from : List String → List String → List String
clean_from stack [] = reverse stack
clean_from stack (part ∷ parts) = clean_from (push_component stack part) parts

-- The components of `filepath.Clean` of an absolute path.
unfoldable pub clean : List String → List String
unfolding clean_from push_component string_eq
clean parts = clean_from [] parts

-- `filepath.Join` of an absolute path and a text.
unfoldable pub join : List String → String → List String
unfolding split_slash clean
join base s = clean (base ++ split_slash s)

-- One component of `filepath.Clean` of a relative path, on a stack with its top at the head: a ".."
-- that has nothing to drop stays.
unfoldable pub push_relative : List String → String → List String
push_relative [] part = if part == "" || part == "." then [] else part ∷ []
push_relative (top ∷ stack) part =
    if part == "" || part == "."
    then top ∷ stack
    else if part == ".." && not (top == "..")
    then stack
    else part ∷ top ∷ stack

unfoldable pub push_parts : List String → List String → List String
unfolding push_relative
push_parts stack [] = stack
push_parts stack (part ∷ parts) = push_parts (push_relative stack part) parts

-- `strings.Contains(s, sub)`
unfoldable pub contains_text : String → String → Bool
unfolding string_eq
contains_text String.[] sub = sub == ""
contains_text (String.◌∷◌ c s) sub =
    let later = contains_text s sub in starts_with (String.◌∷◌ c s) sub || later

-- `strings.CutPrefix(s, prefix)`, with the prefix first.
unfoldable pub cut_prefix : String → String → Option String
unfolding nat_eq
cut_prefix String.[] s = some s
cut_prefix (String.◌∷◌ c p) String.[] = none
cut_prefix (String.◌∷◌ c p) (String.◌∷◌ d s) =
    let rest = cut_prefix p s in if code c == code d then rest else none

-- `unicode.IsSpace`
is_space : ℕ → Bool
is_space c =
    (leb 9 c && leb c 13)
    || c == 32
    || c == 0x85
    || c == 0xa0
    || c == 0x1680
    || (leb 0x2000 c && leb c 0x200a)
    || c == 0x2028
    || c == 0x2029
    || c == 0x202f
    || c == 0x205f
    || c == 0x3000

trim_left : String → String
unfolding is_space nat_eq
trim_left String.[] = ""
trim_left (String.◌∷◌ c s) =
    let rest = trim_left s in if is_space (code c) then rest else String.◌∷◌ c s

trim_right : String → String
unfolding is_space nat_eq string_eq
trim_right String.[] = ""
trim_right (String.◌∷◌ c s) =
    let rest = trim_right s in if is_space (code c) && rest == "" then "" else String.◌∷◌ c rest

-- `strings.TrimSpace`
unfoldable pub trim_space : String → String
unfolding trim_left trim_right
trim_space s = trim_right (trim_left s)

nth_or_nine : ℕ → List String → String
nth_or_nine n [] = "9"
nth_or_nine zero (d ∷ ds) = d
nth_or_nine (suc n) (d ∷ ds) = nth_or_nine n ds

digit : ℕ → String
unfolding nth_or_nine
digit n = nth_or_nine n ("0" ∷ "1" ∷ "2" ∷ "3" ∷ "4" ∷ "5" ∷ "6" ∷ "7" ∷ "8" ∷ [])

-- The digits of a number below 10 ^ fuel.
decimal_from : ℕ → ℕ → String → String
unfolding digit
decimal_from zero n acc = acc
decimal_from (suc fuel) n acc =
    let s = digit (n % 10) <> acc in
    let rest = decimal_from fuel (n / 10) s in if leb n 9 then s else rest

-- `%d` of a number of at most 20 digits, which a 64-bit integer has.
unfoldable pub decimal : ℕ → String
unfolding decimal_from
decimal n = decimal_from 20 n ""
