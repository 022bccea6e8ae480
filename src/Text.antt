-- ===== src/Text.antt =====
-- The string methods that the services call: `trim`, `endsWith` and the test for a blank text.
use Prim.Native.Char.{Char, code}
use food_ordering_app.Prelude.{
  ℕ, String, Bool, true, false, ◌&&◌, ◌||◌, leb, if◌then◌else◌, ◌==◌, ◌≡◌, refl,
}

-- A code point between two others.
abbrev pub between : ℕ → ℕ → ℕ → Bool
between lo hi c = leb lo c && leb c hi

-- What `String.prototype.trim` removes: white space and line terminators of ECMAScript.
unfoldable pub is_space : Char → Bool
is_space ch =
    let c = code ch in
    between 9 13 c
    || between 32 32 c
    || between 160 160 c
    || between 5760 5760 c
    || between 8192 8202 c
    || between 8232 8233 c
    || between 8239 8239 c
    || between 8287 8287 c
    || between 12288 12288 c
    || between 65279 65279 c

unfoldable pub trim_start : String → String
trim_start String.[] = ""
trim_start (String.◌∷◌ c s) = let rest = trim_start s in if is_space c then rest else String.◌∷◌ c s

abbrev is_empty_text : String → Bool
is_empty_text String.[] = true
is_empty_text (String.◌∷◌ _ _) = false

unfoldable pub trim_end : String → String
trim_end String.[] = ""
trim_end (String.◌∷◌ c s) =
    let rest = trim_end s in if is_empty_text rest && is_space c then "" else String.◌∷◌ c rest

-- `s.trim()`
unfoldable pub trim : String → String
unfolding trim_start trim_end is_space
trim s = trim_end (trim_start s)

-- `!s?.trim()`
unfoldable pub is_blank : String → Bool
unfolding trim
is_blank s = is_empty_text (trim s)

-- `s.endsWith(t)`
unfoldable pub ends_with : String → String → Bool
ends_with String.[] t = t == ""
ends_with (String.◌∷◌ c s) t = t == String.◌∷◌ c s || ends_with s t

-- `s.startsWith(t)`
unfoldable pub starts_with : String → String → Bool
starts_with s String.[] = true
starts_with String.[] (String.◌∷◌ _ _) = false
starts_with (String.◌∷◌ c s) (String.◌∷◌ d t) =
    let rest = starts_with s t in if between (code c) (code c) (code d) then rest else false

trim_tests :
    (trim "  a b " ≡ "a b")
    × (is_blank " " ≡ true)
    × (is_blank "u" ≡ false)
    × (ends_with "10.13" ".13" ≡ true)
    × (ends_with "10.31" ".13" ≡ false)
    × (starts_with "image/png" "image/" ≡ true)
unfolding trim is_blank ends_with starts_with
trim_tests = (refl, refl, refl, refl, refl, refl)
