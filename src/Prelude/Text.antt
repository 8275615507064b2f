-- ===== src/Prelude/Text.antt =====
-- Python's `str`: the lines of a text, and its white space.
pub mod Lines
use Prim.Native.Char.{Char, code}
use Prim.Native.String.{String, [] as nil, ◌∷◌ as cons, ◌++◌}
use scraper_v_hezzian.Prelude.Lists.{filter}
use mathlib.Core.Bool.{not, Bool, true, false, ◌&&◌, ◌||◌}
use mathlib.Core.Path.{◌≡◌, refl}
use mathlib.Core.List.{List, [], ◌∷◌}
use Prim.Native.Nat.{ℕ}
use scraper_v_hezzian.Prelude.Tests.{leb, nat_beq, ◌==◌, string_eq, if◌then◌else◌}

-- The characters that `str.splitlines` ends a line at.
unfoldable pub is_break : ℕ → Bool
is_break c =
    (leb 10 c && leb c 13)
    || (leb 28 c && leb c 30)
    || nat_beq c 133
    || nat_beq c 8232
    || nat_beq c 8233

-- `str.isspace`
unfoldable pub is_space : ℕ → Bool
is_space c =
    (leb 9 c && leb c 13)
    || (leb 28 c && leb c 32)
    || nat_beq c 133
    || nat_beq c 160
    || nat_beq c 5760
    || (leb 8192 c && leb c 8202)
    || nat_beq c 8232
    || nat_beq c 8233
    || nat_beq c 8239
    || nat_beq c 8287
    || nat_beq c 12288

-- One character in front of the first line.
unfoldable pub onto_first : Char → List String → List String
onto_first c [] = (cons c nil) ∷ []
onto_first c (l ∷ ls) = cons c l ∷ ls

unfoldable pub starts_lf : String → Bool
starts_lf nil = false
starts_lf (cons c s) = nat_beq (code c) 10

-- A carriage return with a line feed behind it is one end of a line.
unfoldable pub splitlines : String → List String
unfolding is_break onto_first starts_lf
splitlines nil = []
splitlines (cons c s) =
    let rest = splitlines s in
    if nat_beq (code c) 13 && starts_lf s
    then rest
    else (if is_break (code c) then "" ∷ rest else onto_first c rest)

unfoldable pub lstrip : String → String
unfolding is_space
lstrip nil = nil
lstrip (cons c s) = let rest = lstrip s in if is_space (code c) then rest else cons c s

unfoldable pub rstrip : String → String
unfolding is_space
rstrip nil = nil
rstrip (cons c s) =
    let rest = rstrip s in if rest == "" && is_space (code c) then nil else cons c rest

unfoldable pub strip : String → String
unfolding lstrip rstrip
strip s = rstrip (lstrip s)

-- What stands between the characters of white space, with the empty pieces.
unfoldable pub pieces : String → List String
unfolding is_space onto_first
pieces nil = "" ∷ []
pieces (cons c s) =
    let rest = pieces s in if is_space (code c) then "" ∷ rest else onto_first c rest

unfoldable pub join_by : String → List String → String
join_by sep [] = ""
join_by sep (w ∷ []) = w
join_by sep (w ∷ v ∷ ws) = w ++ (sep ++ join_by sep (v ∷ ws))

-- `" ".join(s.split())`
unfoldable pub collapse : String → String
unfolding pieces join_by
collapse s = join_by " " (filter (λ w. not (w == "")) (pieces s))

-- `s.rstrip("/")`
unfoldable pub rstrip_slash : String → String
rstrip_slash nil = nil
rstrip_slash (cons c s) =
    let rest = rstrip_slash s in if rest == "" && nat_beq (code c) 47 then nil else cons c rest

-- `s.endswith(suffix)`
unfoldable pub ends_with : String → String → Bool
ends_with suffix nil = suffix == ""
ends_with suffix (cons c s) = cons c s == suffix || ends_with suffix s

-- Some character of the text passes the test.
unfoldable pub any_code : (ℕ → Bool) → String → Bool
any_code p nil = false
any_code p (cons c s) = p (code c) || any_code p s

-- The text is empty or ends in a line feed.
unfoldable pub is_whole : String → Bool
is_whole nil = true
is_whole (cons c nil) = nat_beq (code c) 10
is_whole (cons c (cons d s)) = is_whole (cons d s)

collapsed : collapse "  a\n b\tc " ≡ "a b c"
unfolding collapse
collapsed = refl

split_at_breaks : splitlines "a\r\nb\n\nc\u{2028}d" ≡ "a" ∷ "b" ∷ "" ∷ "c" ∷ "d" ∷ []
unfolding splitlines
split_at_breaks = refl
