-- ===== src/Glob.antt =====
-- `fnmatch.fnmatch` on a POSIX system, for the patterns of `prune.protection`.
use Prim.Native.Nat.{ℕ}
use var_track.Prelude.{
  ◌≡◌, refl, String, Bool, true, false, not, ◌&&◌, ◌||◌, ◌==◌, nat_eq, List, [], ◌∷◌, leb,
  if◌then◌else◌,
}
use var_track.Prelude.Texts.{codes}

-- A range of code points; a single one is the range from it to itself.
pub record Range : Type 0 where
  pub low : ℕ
  pub high : ℕ

pub data Token : Type 0 where
  star any_one : Token
  literal : ℕ → Token
  one_of : Bool → List Range → Token

-- The code points before the closing bracket, and what follows it; the first one is taken as it is.
pub data Bracket : Type 0 where
  unclosed : Bracket
  closed : List ℕ → List ℕ → Bracket

abbrev with_first : ℕ → Bracket → Bracket
with_first c unclosed = unclosed
with_first c (closed inside rest) = closed (c ∷ inside) rest

until_bracket : List ℕ → Bracket
until_bracket [] = unclosed
until_bracket (c ∷ cs) =
    let rest = until_bracket cs in if c == b']' then closed [] cs else with_first c rest

abbrev after_first : List ℕ → Bracket
after_first [] = unclosed
after_first (c ∷ cs) = with_first c (until_bracket cs)

-- `[!…]` matches what `[…]` does not.
unfoldable pub bracket : List ℕ → Bool × Bracket
unfolding until_bracket
bracket [] = (false, unclosed)
bracket (c ∷ cs) = if c == b'!' then (true, after_first cs) else (false, after_first (c ∷ cs))

ranges : List ℕ → List Range
ranges (a ∷ b ∷ c ∷ cs) =
    let narrow = ranges (b ∷ c ∷ cs) in
    let wide = ranges cs in
    if b == b'-' then record { low = a; high = c } ∷ wide else record { low = a; high = a } ∷ narrow
ranges (a ∷ cs) = record { low = a; high = a } ∷ ranges cs
ranges [] = []

-- `fnmatch.translate`. The fuel is the length of the pattern.
tokens : List ℕ → List ℕ → List Token
unfolding bracket ranges
tokens [] p = []
tokens (f ∷ fuel) [] = []
tokens (f ∷ fuel) (c ∷ cs) =
    let rest = tokens fuel cs in
    if c == b'*'
    then star ∷ rest
    else if c == b'?'
    then any_one ∷ rest
    else if c == b'['
    then (let (negated, found) = bracket cs in
        elim found [
          | unclosed ↦ literal c ∷ rest
          | closed inside after ↦ one_of negated (ranges inside) ∷ tokens fuel after
        ])
    else literal c ∷ rest

in_ranges : ℕ → List Range → Bool
in_ranges c [] = false
in_ranges c (r ∷ rs) = (leb r.low c && leb c r.high) || in_ranges c rs

-- Some suffix of the text satisfies `rest`.
any_suffix : (List ℕ → Bool) → List ℕ → Bool
any_suffix rest [] = rest []
any_suffix rest (c ∷ cs) = rest (c ∷ cs) || any_suffix rest cs

matches : List Token → List ℕ → Bool
unfolding in_ranges any_suffix
matches [] [] = true
matches [] (c ∷ cs) = false
matches (star ∷ ts) cs = any_suffix (matches ts) cs
matches (any_one ∷ ts) [] = false
matches (any_one ∷ ts) (c ∷ cs) = matches ts cs
matches (literal a ∷ ts) [] = false
matches (literal a ∷ ts) (c ∷ cs) = a == c && matches ts cs
matches (one_of negated rs ∷ ts) [] = false
matches (one_of negated rs ∷ ts) (c ∷ cs) =
    (if negated then not (in_ranges c rs) else in_ranges c rs) && matches ts cs

unfoldable pub fnmatch : String → String → Bool
unfolding tokens matches
fnmatch name pattern = let p = codes pattern in matches (tokens p p) (codes name)

examples :
    (fnmatch "SYSTEM_A" "SYSTEM_*" ≡ true)
    × (fnmatch "db.host" "db.?ost" ≡ true)
    × (fnmatch "db.host" "SYSTEM_*" ≡ false)
    × (fnmatch "k7" "k[0-9]" ≡ true)
    × (fnmatch "k7" "k[!0-9]" ≡ false)
    × (fnmatch "k[" "k[" ≡ true)
    × (fnmatch "k]" "k[]]" ≡ true)
unfolding fnmatch nat_eq
examples = (refl, refl, refl, refl, refl, refl, refl)
