-- ===== src/Ingest/Versions.antt =====
-- shared/schema.py: versions, and whether the agent's fits the server's. `int` is modelled on ASCII:
-- blanks around, a sign, digits with single underscores between.
use Prim.Native.Char.{code}
use Prim.Native.String.{String}
use Prim.Native.String as Text
use text.Mathlib.Text.{◌==◌ as str_eq}
use mathlib.Core.Option as Option
use srp.Prelude.{
  ltb, leb, ◌==◌, if◌then◌else◌, tenths, ℤ, pos, negsuc, ℕ, zero, suc, ◌+◌, ◌-◌, ◌*◌, Bool, true,
  false, not, ◌&&◌, ◌||◌, Option, none, some, List, [], ◌∷◌,
}

abbrev pub add_char : ℕ → List (List ℕ) → List (List ℕ)
add_char c [] = []
add_char c (part ∷ parts) = if c == 46 then [] ∷ part ∷ parts else (c ∷ part) ∷ parts

-- value.split("."), each part as the numbers of its characters
unfoldable pub split_dots : String → List (List ℕ)
split_dots Text.[] = [] ∷ []
split_dots (Text.◌∷◌ c s) = add_char (code c) (split_dots s)

abbrev pub is_blank : ℕ → Bool
is_blank c = c == 32 || (leb 9 c && leb c 13) || (leb 28 c && leb c 31)

unfoldable pub lstrip : List ℕ → List ℕ
lstrip [] = []
lstrip (c ∷ cs) = let rest = lstrip cs in if is_blank c then rest else c ∷ cs

abbrev pub drop_blank : ℕ → List ℕ → List ℕ
drop_blank c [] = if is_blank c then [] else c ∷ []
drop_blank c (d ∷ ds) = c ∷ d ∷ ds

-- The blanks at the end.
unfoldable pub rstrip : List ℕ → List ℕ
rstrip [] = []
rstrip (c ∷ cs) = drop_blank c (rstrip cs)

-- `after`: an underscore, or nothing, stands before
unfoldable pub read_digits : ℕ → Bool → List ℕ → Option ℕ
read_digits acc true [] = none
read_digits acc false [] = some acc
read_digits acc after (c ∷ cs) =
    let digit = read_digits (acc * 10 + (c - 48)) false cs in
    let gap = read_digits acc true cs in
    if leb 48 c && leb c 57 then digit else if c == 95 && not after then gap else none

abbrev pub negative : ℕ → ℤ
negative zero = pos 0
negative (suc n) = negsuc n

abbrev pub signed : List ℕ → Option ℤ
signed [] = none
signed (c ∷ cs) =
    if c == 45
    then Option.map negative (read_digits 0 true cs)
    else if c == 43
    then Option.map pos (read_digits 0 true cs)
    else Option.map pos (read_digits 0 true (c ∷ cs))

-- int(p), `none` for its ValueError
unfoldable pub int_of : List ℕ → Option ℤ
int_of text = signed (lstrip (rstrip text))

pub record Version : Type 0 where
  pub major : ℤ
  pub minor : ℤ
  pub patch : ℤ

abbrev pub triple : Option ℤ → Option ℤ → Option ℤ → Option Version
triple (some a) (some b) (some c) = some (record { major = a; minor = b; patch = c })
triple _ _ _ = none

abbrev pub version_of : List (List ℕ) → Option Version
version_of (a ∷ b ∷ c ∷ []) = triple (int_of a) (int_of b) (int_of c)
version_of _ = none

unfoldable pub parse_version : Option String → Option Version
parse_version none = none
parse_version (some value) = if str_eq value "" then none else version_of (split_dots value)

-- CONTRACT_VERSION
abbrev pub contract_version : String
contract_version = "0.1.0"

abbrev pub same_int : ℤ → ℤ → Bool
same_int (pos a) (pos b) = a == b
same_int (negsuc a) (negsuc b) = a == b
same_int _ _ = false

abbrev pub same_major : Option Version → Option Version → Bool
same_major (some agent) (some server) = same_int agent.major server.major
same_major _ _ = false

unfoldable pub is_contract_compatible : Option String → Bool
is_contract_compatible agent_version =
    same_major (parse_version agent_version) (parse_version (some contract_version))

abbrev pub int_lt : ℤ → ℤ → Bool
int_lt (pos a) (pos b) = ltb a b
int_lt (negsuc a) (negsuc b) = ltb b a
int_lt (negsuc a) (pos b) = true
int_lt (pos a) (negsuc b) = false

-- a < b, for tuples of three numbers
unfoldable pub version_lt : Version → Version → Bool
version_lt a b =
    if not (same_int a.major b.major)
    then int_lt a.major b.major
    else if not (same_int a.minor b.minor)
    then int_lt a.minor b.minor
    else int_lt a.patch b.patch
