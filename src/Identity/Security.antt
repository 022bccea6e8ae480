-- ===== src/Identity/Security.antt =====
-- apps/identity/src/domain/security.ts: the checks of what users type, and one-time codes.
use Prim.Native.Nat.{◌/◌, ◌%◌}
use Prim.Native.String
use Prim.Native.Char.{Char, code}
use food_ordering_app.Prelude.{
  ℕ, ◌+◌, String, Bool, true, false, not, ◌&&◌, ◌||◌, if◌then◌else◌, leb, ltb, nat_eq, ◌≡◌, refl,
}
use food_ordering_app.Effect.{Action, raise_if, validation}
use food_ordering_app.Text.{is_space, between}
use food_ordering_app.Identity.Model.{World}

-- `s.length`, in UTF-16 units.
unfoldable pub text_length : String → ℕ
text_length String.[] = 0
text_length (String.◌∷◌ c s) =
    let rest = text_length s in if ltb (code c) 65536 then rest + 1 else rest + 2

-- `phone.replace(/[\s-]/g, '')`
unfoldable pub normalize_phone : String → String
normalize_phone String.[] = ""
normalize_phone (String.◌∷◌ c s) =
    let rest = normalize_phone s in
    if is_space c || nat_eq (code c) b'-' then rest else String.◌∷◌ c rest

unfoldable pub all_digits : String → Bool
all_digits String.[] = true
all_digits (String.◌∷◌ c s) = between b'0' b'9' (code c) && all_digits s

abbrev in_range : ℕ → Bool
in_range n = leb 8 n && leb n 15

-- `/^\+?[0-9]{8,15}$/`
unfoldable pub is_phone : String → Bool
unfolding all_digits text_length
is_phone String.[] = false
is_phone (String.◌∷◌ c s) =
    if nat_eq (code c) b'+'
    then all_digits s && in_range (text_length s)
    else all_digits (String.◌∷◌ c s) && in_range (text_length (String.◌∷◌ c s))

-- A character of `[^\s@]`.
unfoldable pub is_plain : Char → Bool
is_plain c = not (is_space c) && not (nat_eq (code c) b'@')

-- `[^\s@]+` up to the end.
unfoldable pub all_plain : String → Bool
all_plain String.[] = true
all_plain (String.◌∷◌ c s) = is_plain c && all_plain s

abbrev is_empty : String → Bool
is_empty String.[] = true
is_empty (String.◌∷◌ _ _) = false

-- `[^\s@]*\.[^\s@]+` up to the end: some dot with a character behind it.
unfoldable pub has_dot : String → Bool
unfolding all_plain
has_dot String.[] = false
has_dot (String.◌∷◌ c s) =
    let later = has_dot s in
    (nat_eq (code c) b'.' && all_plain s && not (is_empty s)) || (is_plain c && later)

-- `[^\s@]+\.[^\s@]+` up to the end.
unfoldable pub is_domain : String → Bool
is_domain String.[] = false
is_domain (String.◌∷◌ c s) = is_plain c && has_dot s

-- `[^\s@]*@[^\s@]+\.[^\s@]+` up to the end.
unfoldable pub has_domain : String → Bool
has_domain String.[] = false
has_domain (String.◌∷◌ c s) =
    let later = has_domain s in if nat_eq (code c) b'@' then is_domain s else is_plain c && later

-- `/^[^\s@]+@[^\s@]+\.[^\s@]+$/`
unfoldable pub is_email : String → Bool
is_email String.[] = false
is_email (String.◌∷◌ c s) = is_plain c && has_domain s

unfoldable pub assert_email : String → Action World (Unit {0})
assert_email email = raise_if (not (is_email email)) (validation "Invalid email format")

unfoldable pub assert_phone : String → Action World (Unit {0})
assert_phone phone =
    raise_if (not (is_phone (normalize_phone phone))) (validation "Invalid phone format")

unfoldable pub assert_password_policy : String → Action World (Unit {0})
assert_password_policy password =
    raise_if (ltb (text_length password) 8) (validation "Password must be at least 8 characters")

abbrev pub digit : ℕ → String
digit n =
    if nat_eq n 0
    then "0"
    else if nat_eq n 1
    then "1"
    else if nat_eq n 2
    then "2"
    else if nat_eq n 3
    then "3"
    else if nat_eq n 4
    then "4"
    else if nat_eq n 5
    then "5"
    else if nat_eq n 6
    then "6"
    else if nat_eq n 7
    then "7"
    else if nat_eq n 8
    then "8"
    else "9"

-- `String(n).padStart(6, '0')` for a number below 1,000,000.
unfoldable pub six_digits : ℕ → String
six_digits n = String.◌++◌ (digit (n / 100000 % 10)) (
    String.◌++◌ (digit (n / 10000 % 10)) (
      String.◌++◌ (digit (n / 1000 % 10))
        (String.◌++◌ (digit (n / 100 % 10)) (String.◌++◌ (digit (n / 10 % 10)) (digit (n % 10))))))

security_tests :
    (is_email "ann@example.org" ≡ true)
    × (is_email "ann@example." ≡ false)
    × (is_email "ann@@example.org" ≡ false)
    × (is_phone (normalize_phone "+1 555-123 45") ≡ true)
    × (is_phone "1234567" ≡ false)
    × (six_digits 4207 ≡ "004207")
unfolding is_email has_domain is_domain has_dot all_plain is_plain is_space is_phone normalize_phone
    all_digits text_length six_digits
security_tests = (refl, refl, refl, refl, refl, refl)
