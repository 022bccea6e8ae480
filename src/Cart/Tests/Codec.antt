-- ===== src/Cart/Tests/Codec.antt =====
-- A text form of cart items that reads back, in the place of JSON in the runs.
use Prim.Native.Char.{code}
use food_ordering_app.Prelude.{
  ℕ, zero, suc, String, Option, none, some, nat_eq, if◌then◌else◌, ◌≡◌, refl,
}
use food_ordering_app.Effect.{Result, ok, err, fault}
use food_ordering_app.Cart.Model.{CartItem}

abbrev put_text : String → String → String
put_text String.[] rest = String.◌∷◌ "." rest
put_text (String.◌∷◌ c s) rest = String.◌∷◌ "+" (String.◌∷◌ c (put_text s rest))

abbrev take_text : String → Option (String × String)
take_text String.[] = none
take_text (String.◌∷◌ m String.[]) = if nat_eq (code m) b'.' then some ("", "") else none
take_text (String.◌∷◌ m (String.◌∷◌ c s)) =
    let more = take_text s in
    if nat_eq (code m) b'.'
    then some ("", String.◌∷◌ c s)
    else elim more [ none ↦ none | some p ↦ some (String.◌∷◌ c p.0, p.1) ]

take_text-put_text : (s rest : String) → take_text (put_text s rest) ≡ some (s, rest)
take_text-put_text String.[] String.[] = refl
take_text-put_text String.[] (String.◌∷◌ c s) = refl
take_text-put_text (String.◌∷◌ c s) rest = rw (take_text-put_text s rest) refl

abbrev put_number : ℕ → String → String
put_number zero rest = String.◌∷◌ "." rest
put_number (suc n) rest = String.◌∷◌ "+" (put_number n rest)

abbrev take_number : String → Option ℕ
take_number String.[] = none
take_number (String.◌∷◌ m s) =
    let more = take_number s in
    if nat_eq (code m) b'.' then some 0 else elim more [ none ↦ none | some n ↦ some (suc n) ]

take_number-put_number : (n : ℕ) (rest : String) → take_number (put_number n rest) ≡ some n
take_number-put_number zero rest = refl
take_number-put_number (suc n) rest = rw (take_number-put_number n rest) refl

abbrev pub print : CartItem → String
print i =
    put_text i.product_id
      (put_text i.variant_id (put_text i.label (put_text i.unit_price (put_number i.quantity ""))))

abbrev unreadable : Result CartItem
unreadable = err (fault "unreadable")

abbrev pub read : String → Result CartItem
read s = elim (take_text s) [
  | none ↦ unreadable
  | some p ↦ elim (take_text p.1) [
    | none ↦ unreadable
    | some v ↦ elim (take_text v.1) [
      | none ↦ unreadable
      | some l ↦ elim (take_text l.1) [
        | none ↦ unreadable
        | some u ↦ elim (take_number u.1) [
          | none ↦ unreadable
          | some n ↦ ok (record {
            product_id = p.0;
            variant_id = v.0;
            label = l.0;
            unit_price = u.0;
            quantity = n;
          })
        ]
      ]
    ]
  ]
]

pub read-print : (i : CartItem) → read (print i) ≡ ok i
read-print i =
    let amount = put_number i.quantity "" in
    let price = put_text i.unit_price amount in
    let label = put_text i.label price in
    let variant = put_text i.variant_id label in
    rw
      (
        read,
        take_text-put_text i.product_id variant,
        take_text-put_text i.variant_id label,
        take_text-put_text i.label price,
        take_text-put_text i.unit_price amount,
        take_number-put_number i.quantity "",
      )
      refl
