-- ===== src/Base/Text.antt =====
-- What the source uses of Python's `str`: truth, printing of numbers, `strip`, `splitlines`, `join`.
use Prim.Native.Nat.{ℕ, zero, suc, ◌/◌, ◌%◌}
use Prim.Native.Char.{Char, code}
use Prim.Native.String.{String, ◌++◌ as ◌<>◌}
use mathlib.Core.Bool.{not, Bool, true, false, ◌&&◌, ◌||◌}
use mathlib.Core.List.{List, [], ◌∷◌}
use isabelle_repl.Base.Integers.{ℤ, pos, negsuc}
use isabelle_repl.Base.Tests.{ltb, leb, if◌then◌else◌}

abbrev same : ℕ → ℕ → Bool
same a b = leb a b && leb b a

abbrev within : ℕ → ℕ → ℕ → Bool
within lo hi c = leb lo c && leb c hi

-- A text is truthy when it is not empty.
abbrev pub truthy : String → Bool
truthy String.[] = false
truthy (String.◌∷◌ c s) = true

abbrev digit : ℕ → String
digit zero = "0"
digit (suc zero) = "1"
digit (suc (suc zero)) = "2"
digit (suc (suc (suc zero))) = "3"
digit (suc (suc (suc (suc zero)))) = "4"
digit (suc (suc (suc (suc (suc zero))))) = "5"
digit (suc (suc (suc (suc (suc (suc zero)))))) = "6"
digit (suc (suc (suc (suc (suc (suc (suc zero))))))) = "7"
digit (suc (suc (suc (suc (suc (suc (suc (suc zero)))))))) = "8"
digit _ = "9"

-- The decimal digits in front of `out`. A number has fewer digits than its fuel `n + 1`.
decimal_onto : ℕ → ℕ → String → String
decimal_onto zero n out = out
decimal_onto (suc fuel) n out =
    let rest = decimal_onto fuel (n / 10) (digit (n % 10) <> out) in
    if ltb n 10 then digit n <> out else rest

-- `str(n)`
unfoldable pub decimal : ℕ → String
unfolding decimal_onto
decimal n = decimal_onto (suc n) n ""

-- `str(n)` of an integer
unfoldable pub int_text : ℤ → String
unfolding decimal
int_text (pos n) = decimal n
int_text (negsuc n) = "-" <> decimal (suc n)

-- `text or other`
abbrev pub or_text : String → String → String
or_text s other = if truthy s then s else other

-- The characters that `str.strip` removes.
abbrev pub is_space : ℕ → Bool
is_space c =
    within 9 13 c
    || within 28 32 c
    || same c 133
    || same c 160
    || same c 5760
    || within 8192 8202 c
    || within 8232 8233 c
    || same c 8239
    || same c 8287
    || same c 12288

-- The characters that end a line for `str.splitlines`. A carriage return with the line feed behind
-- it is one end.
abbrev pub is_line_end : ℕ → Bool
is_line_end c = within 10 13 c || within 28 30 c || same c 133 || within 8232 8233 c

unfoldable pub strip_left : String → String
strip_left String.[] = ""
strip_left (String.◌∷◌ c s) =
    let rest = strip_left s in if is_space (code c) then rest else String.◌∷◌ c s

-- A space at the end goes if all that follows it went.
unfoldable pub strip_right : String → String
strip_right String.[] = ""
strip_right (String.◌∷◌ c s) =
    let rest = strip_right s in
    if is_space (code c) && (if truthy rest then false else true) then "" else String.◌∷◌ c rest

-- `s.strip()`
unfoldable pub strip : String → String
unfolding strip_left strip_right
strip s = strip_right (strip_left s)

-- One more character in the first of some lines.
abbrev pub push_char : Char → List String → List String
push_char c [] = String.◌∷◌ c "" ∷ []
push_char c (l ∷ ls) = String.◌∷◌ c l ∷ ls

-- `s.splitlines()`. `cr` says that the character before was a carriage return.
unfoldable pub splitlines_after : Bool → String → List String
splitlines_after cr String.[] = []
splitlines_after cr (String.◌∷◌ c s) =
    let rest = splitlines_after (same (code c) 13) s in
    if is_line_end (code c)
    then (if cr && same (code c) 10 then rest else "" ∷ rest)
    else push_char c rest

unfoldable pub splitlines : String → List String
unfolding splitlines_after
splitlines s = splitlines_after false s

-- The text starts with a line feed.
abbrev starts_with_feed : String → Bool
starts_with_feed String.[] = false
starts_with_feed (String.◌∷◌ c s) = same (code c) 10

-- `s.splitlines(keepends=True)`. A carriage return and the line feed behind it stay together.
unfoldable pub splitlines_keepends : String → List String
splitlines_keepends String.[] = []
splitlines_keepends (String.◌∷◌ c s) =
    let rest = splitlines_keepends s in
    if is_line_end (code c) && not (same (code c) 13 && starts_with_feed s)
    then String.◌∷◌ c String.[] ∷ rest
    else push_char c rest

-- `separator.join(texts)`
unfoldable pub join : String → List String → String
join sep [] = ""
join sep (t ∷ []) = t
join sep (t ∷ u ∷ ts) = t <> (sep <> join sep (u ∷ ts))

-- `s.endswith("\n")`
unfoldable pub ends_with_newline : String → Bool
ends_with_newline String.[] = false
ends_with_newline (String.◌∷◌ c String.[]) = same (code c) 10
ends_with_newline (String.◌∷◌ c (String.◌∷◌ d s)) = ends_with_newline (String.◌∷◌ d s)

-- `text.startswith(token)`
unfoldable pub starts_with : String → String → Bool
starts_with String.[] text = true
starts_with (String.◌∷◌ c token) String.[] = false
starts_with (String.◌∷◌ c token) (String.◌∷◌ d text) =
    same (code c) (code d) && starts_with token text

-- `token in text`
unfoldable pub occurs_in : String → String → Bool
unfolding starts_with
occurs_in token String.[] = starts_with token String.[]
occurs_in token (String.◌∷◌ c text) = starts_with token (String.◌∷◌ c text) || occurs_in token text
