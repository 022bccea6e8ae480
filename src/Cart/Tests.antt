-- ===== src/Cart/Tests.antt =====
-- Runs of the cart service on small data, and its theorems at concrete inputs.
mod Codec
use food_ordering_app.Prelude.{
  ℕ, ◌+◌, ◌*◌, ◌<◌, String, Bool, true, false, none, some, Option, ◌++◌, List, [], ◌∷◌, ◌==◌,
  if◌then◌else◌, leb, ◌≡◌, refl, arith, All,
}
use food_ordering_app.Prelude.Int.{pos}
use food_ordering_app.Effect.{Error, ok, err, fault, not_found}
use food_ordering_app.Text.{is_blank}
use food_ordering_app.Cart.Model.{
  CartItem, CartHash, CartDto, World, Env, to_cart_dto, compute_item_count, item_key,
}
use food_ordering_app.Cart.Store.{
  get_items, save_items, ttl_seconds, alive, parse_entries, hset, set_items, saved_hash, upsert,
}
use food_ordering_app.Cart.Service.{
  get_cart, add_item, remove_item, without, price_cart, price_items, put_item, update_first,
  resolve_active_variant, persist, assert_user_id, assert_quantity,
}
use food_ordering_app.Cart.Items.{IsValid, quantity_of}
use mathlib.Core.List.{Permᴰ}
use food_ordering_app.Cart.RoundTrip.{get_items-save_items}
use food_ordering_app.Cart.Prices.{IsCurrent, price_cart-IsCurrent}
use food_ordering_app.Cart.Requests.{Request, add, remove, handle, IsStored}
use food_ordering_app.Cart.Guarantees.{
  handle-IsStored, handle-isolates, handle-refuses, add_item-unsaved,
}
use food_ordering_app.Cart.Quantities.{meant, handle-meant}
use food_ordering_app.Cart.Tests.Codec.{print, read, read-print}

-- A `HGETALL` that gives the last field first.
abbrev last_first : List (String × String) → List (String × String)
last_first [] = []
last_first (x ∷ xs) = last_first xs ++ (x ∷ [])

last_first-gives : (h : List (String × String)) → Permᴰ h (last_first h)
last_first-gives [] = Permᴰ.nil
last_first-gives (x ∷ xs) =
    Permᴰ.trans (Permᴰ.cons refl (last_first-gives xs)) (to_end x (last_first xs))
  where
    to_end : (y : String × String) (ys : List (String × String)) → Permᴰ (y ∷ ys) (ys ++ (y ∷ []))
    to_end y [] = Permᴰ.cons refl Permᴰ.nil
    to_end y (z ∷ zs) = Permᴰ.trans (Permᴰ.swap refl refl) (Permᴰ.cons refl (to_end y zs))

abbrev env : Env ℕ
env = record {
  numbers = record {
    number = λ s. if s == "5" then 5 else 7;
    nothing = 0;
    add = λ a b. a + b;
    times = λ a n. a * n;
    to_fixed = λ n. if leb n 10 then "10.00" else "15.00";
  };
  stringify = print;
  parse = read;
  hgetall = last_first;
  get_variant_price = λ p v. ok (
      if p == "p"
      then some (record {
        product_id = p;
        variant_id = v;
        label = "Large";
        unit_price = "5";
        is_active = true;
      })
      else none);
  upsert_answer = λ u t. ok tt;
  delete_answer = λ u. ok tt;
}

abbrev start : World
start = record { carts = λ u. none; snapshots = λ u. none; now = 0 }

abbrev two : Request
two = add "p" "v" (pos 2)

abbrev one_world : World
one_world = (handle env "ann" two start).1

abbrev line : ℕ → CartItem
line n = record {
  product_id = "p";
  variant_id = "v";
  label = "Large";
  unit_price = "5";
  quantity = n;
}

-- What the runs below compute with.
service : Unit {0}
unfolding is_blank handle get_cart add_item put_item update_first resolve_active_variant persist
    assert_user_id assert_quantity get_items save_items alive parse_entries hset set_items
    saved_hash upsert remove_item without price_cart to_cart_dto compute_item_count item_key
    price_items meant
service = tt

abbrev dto : CartDto
dto = record { user_id = "ann"; items = line 2 ∷ []; total = "10.00"; item_count = 2 }

add_item_run : (handle env "ann" two start).0 ≡ ok dto
unfolding service
add_item_run = refl

start-IsStored : IsStored env start
start-IsStored u = tt

handle-IsStored_example : IsStored env one_world
handle-IsStored_example =
    handle-IsStored env read-print "ann" two start last_first-gives start-IsStored

handle-isolates_example :
    (("ann" == "bob") ≡ false
      → (one_world.carts "bob" ≡ start.carts "bob")
        × (one_world.snapshots "bob" ≡ start.snapshots "bob"))
    × ((e : Error) → (handle env "ann" two start).0 ≡ err e → one_world.snapshots ≡ start.snapshots)
handle-isolates_example = handle-isolates env "ann" "bob" two start last_first-gives start-IsStored

-- A removal from an empty cart.
abbrev none_there : Request
none_there = remove "p" "v"

remove_item_run : (handle env "ann" none_there start).0 ≡ err (not_found "Cart item not found")
unfolding service
remove_item_run = refl

handle-refuses_example : (handle env "ann" none_there start).1 ≡ start
handle-refuses_example =
    handle-refuses env "ann" none_there start (not_found "Cart item not found") (λ u t. refl)
      (λ u. refl) last_first-gives start-IsStored remove_item_run

-- PostgreSQL finds the totals too large.
abbrev narrow : Env ℕ
narrow = record env { upsert_answer = λ u t. err (fault "numeric field overflow") }

add_item-unsaved_example :
    let (a, v) = add_item narrow "ann" "p" "v" (pos 2) start in
    (a ≡ err (fault "numeric field overflow"))
    × (v.snapshots ≡ start.snapshots)
    × (v.carts "ann"
        ≡ some (
            saved_hash narrow 0
              (put_item "p" "v" (record { label = "Large"; unit_price = "5" }) 2 [])))
unfolding service
add_item-unsaved_example =
    add_item-unsaved narrow "ann" "p" "v" (pos 2) start []
      (record { label = "Large"; unit_price = "5" }) (fault "numeric field overflow") refl refl refl
      refl refl

one_read : get_items env "ann" one_world ≡ (ok (line 2 ∷ []), one_world)
unfolding service
one_read = refl

five :
    (handle env "ann" (add "p" "v" (pos 3)) one_world).0
    ≡ ok (record { user_id = "ann"; items = line 5 ∷ []; total = "15.00"; item_count = 5 })
unfolding service
five = refl

handle-meant_example :
    quantity_of "p:v" (line 5 ∷ [])
    ≡ meant (add "p" "v" (pos 3)) (λ j. quantity_of j (line 2 ∷ [])) "p:v"
handle-meant_example =
    handle-meant env "ann" (add "p" "v" (pos 3)) one_world (line 2 ∷ [])
      (one_read, (refl, omega arith, tt)) five "p:v"

-- A line with an old price, which the catalog has changed.
abbrev old_world : World
old_world = (save_items env "ann" (record (line 2) { unit_price = "4" } ∷ []) start).1

old_read :
    get_items env "ann" old_world ≡ (ok (record (line 2) { unit_price = "4" } ∷ []), old_world)
unfolding service
old_read = refl

price_cart_run : (price_cart env "ann" old_world).0 ≡ ok dto
unfolding service
price_cart_run = refl

price_cart-IsCurrent_example : All (IsCurrent env) (line 2 ∷ [])
price_cart-IsCurrent_example =
    price_cart-IsCurrent env "ann" old_world (record (line 2) { unit_price = "4" } ∷ [])
      (old_read, (refl, omega arith, tt)) price_cart_run

abbrev other_line : CartItem
other_line = record (line 3) { variant_id = "u" }

two_IsValid : IsValid (line 2 ∷ other_line ∷ [])
unfolding service
two_IsValid = (refl, omega arith, (refl, omega arith, tt))

saved_again :
    let w = (save_items env "ann" (line 2 ∷ other_line ∷ []) start).1 in
    ◌≡◌ {A = Option CartHash} ((record w { now = 86399999 }).carts "ann") (w.carts "ann")
saved_again = refl

get_items-save_items_example :
    let w = (save_items env "ann" (line 2 ∷ other_line ∷ []) start).1 in
    let later = record w { now = 86399999 } in
    (read : List CartItem) × (get_items env "ann" later ≡ (ok read, later))
    × Permᴰ (line 2 ∷ other_line ∷ []) read
get_items-save_items_example =
    get_items-save_items env read-print last_first-gives "ann" (line 2 ∷ other_line ∷ []) start
      (record (save_items env "ann" (line 2 ∷ other_line ∷ []) start).1 { now = 86399999 })
      two_IsValid saved_again (omega arith)
