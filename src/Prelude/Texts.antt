-- ===== src/Prelude/Texts.antt =====
-- Texts, character by character: Python's `split`, `partition`, `strip` and `replace`.
use Prim.Native.Char.{code}
use Prim.Native.String.{String, ◌++◌ as ◌<>◌}
use Prim.Native.Nat.{ℕ, zero, suc, ◌+◌}
use mathlib.Core.Bool.{◌&&◌}
use mathlib.Core.Option
use mathlib.Core.Option.{Option, none, some}
use mathlib.Core.List.{List, [], ◌∷◌}
use var_track.Prelude.Tests.{◌==◌, nat_eq, string_eq, if◌then◌else◌}

-- `[ord(c) for c in text]`
abbrev pub codes : String → List ℕ
codes String.[] = []
codes (String.◌∷◌ first rest) = code first ∷ codes rest

-- `s.removeprefix(p)`, or `none` where `s` does not begin with `p`.
unfoldable pub strip_prefix : String → String → Option String
strip_prefix String.[] s = some s
strip_prefix (String.◌∷◌ d p) String.[] = none
strip_prefix (String.◌∷◌ d p) (String.◌∷◌ c s) = if code c == code d then strip_prefix p s else none

-- `s.split(sep, 1)`: what stands before the first `sep` and after it, if there is one.
unfoldable pub cut : String → String → Option (String × String)
unfolding strip_prefix
cut sep String.[] = Option.map (λ rest. ("", rest)) (strip_prefix sep "")
cut sep (String.◌∷◌ c s) =
    let later = Option.map (λ (a, b). (String.◌∷◌ c a, b)) (cut sep s) in
    elim (strip_prefix sep (String.◌∷◌ c s)) [ none ↦ later | some rest ↦ some ("", rest) ]

-- `s[:-len(t)] if s.endswith(t) else s`
unfoldable pub strip_suffix : String → String → String
strip_suffix t String.[] = ""
strip_suffix t (String.◌∷◌ c s) =
    let rest = strip_suffix t s in if String.◌∷◌ c s == t then "" else String.◌∷◌ c rest

-- `s.rstrip(c)`
unfoldable pub rstrip : ℕ → String → String
rstrip n String.[] = ""
rstrip n (String.◌∷◌ c s) =
    let rest = rstrip n s in if (code c == n) && (rest == "") then "" else String.◌∷◌ c rest

-- `s.lstrip(c)`
unfoldable pub lstrip : ℕ → String → String
lstrip n String.[] = ""
lstrip n (String.◌∷◌ c s) = let rest = lstrip n s in if code c == n then rest else String.◌∷◌ c s

-- One more, in decimal digits with the units first
increment : List ℕ → List ℕ
increment [] = 1 ∷ []
increment (d ∷ ds) = if d == 9 then 0 ∷ increment ds else (d + 1) ∷ ds

digits : ℕ → List ℕ
unfolding increment
digits zero = 0 ∷ []
digits (suc n) = increment (digits n)

digit : ℕ → String
digit n =
    if n == 0
    then "0"
    else if n == 1
    then "1"
    else if n == 2
    then "2"
    else if n == 3
    then "3"
    else if n == 4
    then "4"
    else if n == 5
    then "5"
    else if n == 6
    then "6"
    else if n == 7
    then "7"
    else if n == 8
    then "8"
    else "9"

text_of_digits : List ℕ → String
unfolding digit
text_of_digits [] = ""
text_of_digits (d ∷ ds) = text_of_digits ds <> digit d

-- `str(n)`
unfoldable pub show : ℕ → String
unfolding digits text_of_digits
show n = text_of_digits (digits n)
