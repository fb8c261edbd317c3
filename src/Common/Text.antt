-- ===== src/Common/Text.antt =====
-- `str.strip()`, over the characters that Python counts as white space.
use Prim.Native.Nat.{ℕ}
use Prim.Native.String.append
use Prim.Native.Char.{Char, code}
use Prim.Native.String.{String, [], ◌∷◌, ◌++◌ as ◌<>◌}
use mathlib.Core.Path.{◌≡◌, refl, ap, ◌∙◌}
use mathlib.Core.Bool.{Bool, true, false, ◌&&◌, ◌||◌, not}
use mathlib.Core.List.{List}
use mathlib.Core.Logic.{◌≢◌}
use native.Mathlib.Omega.{arith}
use text.Mathlib.Text
use text.Mathlib.TextEquality.{eq_iff}
use skill_sync_sidecar.Common.Equality.{◌==◌, nat_eq, string_eq, leb, if◌then◌else◌}

-- `str.isspace` of one character
is_space : Char → Bool
is_space ch =
    let c = code ch in
    (leb 9 c && leb c 13)
    || (leb 28 c && leb c 32)
    || c == 133
    || c == 160
    || c == 5760
    || (leb 8192 c && leb c 8202)
    || c == 8232
    || c == 8233
    || c == 8239
    || c == 8287
    || c == 12288

lstrip : String → String
unfolding is_space
lstrip [] = []
lstrip (c ∷ s) = let rest = lstrip s in if is_space c then rest else c ∷ s

rstrip : String → String
unfolding is_space
rstrip [] = []
rstrip (c ∷ s) = let rest = rstrip s in if rest == "" && is_space c then [] else c ∷ rest

unfoldable pub strip : String → String
unfolding lstrip rstrip nat_eq string_eq
strip s = rstrip (lstrip s)

strip_both : strip " \t a b \n" ≡ "a b"
unfolding strip
strip_both = refl

-- `str.strip("/")`
lstrip_slashes : String → String
lstrip_slashes [] = []
lstrip_slashes (c ∷ s) = let rest = lstrip_slashes s in if code c == 47 then rest else c ∷ s

rstrip_slashes : String → String
rstrip_slashes [] = []
rstrip_slashes (c ∷ s) =
    let rest = rstrip_slashes s in if rest == "" && code c == 47 then [] else c ∷ rest

unfoldable pub strip_slashes : String → String
unfolding lstrip_slashes rstrip_slashes nat_eq string_eq
strip_slashes s = rstrip_slashes (lstrip_slashes s)

strip_slashes_both : strip_slashes "/a/b//" ≡ "a/b"
unfolding strip_slashes
strip_slashes_both = refl

-- `s.split("/")`: the characters before the first slash, and the parts after it.
split_at : String → String × List String
split_at [] = ([], List.[])
split_at (c ∷ s) =
    let (part, rest) = split_at s in
    if code c == 47 then ([], List.◌∷◌ part rest) else (c ∷ part, rest)

unfoldable pub split_slash : String → List String
unfolding split_at nat_eq
split_slash s = let (part, rest) = split_at s in List.◌∷◌ part rest

unfoldable pub ends_with_slash : String → Bool
unfolding nat_eq
ends_with_slash [] = false
ends_with_slash (c ∷ []) = code c == 47
ends_with_slash (c ∷ d ∷ s) = ends_with_slash (d ∷ s)

unfoldable pub starts_with_slash : String → Bool
unfolding nat_eq
starts_with_slash [] = false
starts_with_slash (c ∷ s) = code c == 47

split_slash_both : split_slash "a/../b" ≡ List.◌∷◌ "a" (List.◌∷◌ ".." (List.◌∷◌ "b" List.[]))
unfolding split_slash
split_slash_both = refl

-- `s.lower()`, of ASCII letters; other characters stay.
lower_in : String → String → Char → Char
unfolding nat_eq
lower_in [] lowers c = c
lower_in (u ∷ us) [] c = c
lower_in (u ∷ us) (l ∷ ls) c = let rest = lower_in us ls c in if code u == code c then l else rest

unfoldable pub lower : String → String
unfolding lower_in
lower [] = []
lower (c ∷ s) = lower_in "ABCDEFGHIJKLMNOPQRSTUVWXYZ" "abcdefghijklmnopqrstuvwxyz" c ∷ lower s

lower_both : lower "Claude-CODE" ≡ "claude-code"
unfolding lower
lower_both = refl

-- A path up to its last slash, that slash included, and its last component.
unfoldable pub split_last : String → String × String
unfolding nat_eq string_eq
split_last [] = ([], [])
split_last (c ∷ s) =
    let (directory, name) = split_last s in
    if directory == "" && not (code c == 47) then ([], c ∷ name) else (c ∷ directory, name)

split_last_both : split_last "/a/b/c" ≡ ("/a/b/", "c")
unfolding split_last
split_last_both = refl

-- Two texts that the comparison tells apart.
pub ne_of_differ : (s t : String) → Text.◌==◌ s t ≡ false → s ≢ t
ne_of_differ s t h e = ground (arith, eq_iff s t)

-- `s.startswith(prefix)`
unfoldable pub starts_with : String → String → Bool
unfolding nat_eq
starts_with [] s = true
starts_with (c ∷ p) [] = false
starts_with (c ∷ p) (d ∷ s) = code c == code d && starts_with p s

same_number : (n : ℕ) → (n == n) ≡ true
same_number n = ground arith

pub starts_with-append : (p s : String) → starts_with p (p <> s) ≡ true
unfolding starts_with
starts_with-append [] s = refl
starts_with-append (c ∷ p) s =
    ap (starts_with (c ∷ p)) (append.cons c p s)
    ∙ (ap (λ b. b && starts_with p (p <> s)) (same_number (code c)) ∙ starts_with-append p s)

-- `s.endswith(suffix)`
unfoldable pub ends_with : String → String → Bool
unfolding string_eq
ends_with p [] = p == ""
ends_with p (c ∷ s) = let rest = ends_with p s in p == (c ∷ s) || rest

ends_with_both : (ends_with ".md" "docs/a.md" && not (ends_with ".md" "a.mdx")) ≡ true
unfolding ends_with
ends_with_both = refl
