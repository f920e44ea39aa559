-- ===== src/Common/StringSet.antt =====
-- `Set<string>`: the elements in insertion order.
use Prim.Native.String.{String}
use mathlib.Core.Path.{◌≡◌, refl}
use mathlib.Core.Logic.{ite}
use mathlib.Core.Bool.{Bool, true, false, ◌||◌}
use mathlib.Core.List.{List, [], ◌∷◌, ◌++◌}
use native.Mathlib.Omega.{arith}
use baker_self_hosted_voice.Common.Text.{str_dec}

unfoldable pub has : String → List String → Bool
has x [] = false
has x (y ∷ s) = ite (str_dec y x) true (has x s)

-- An element that is there keeps its place; a new one goes to the end.
unfoldable pub add : String → List String → List String
add x [] = x ∷ []
add x (y ∷ s) = ite (str_dec y x) (y ∷ s) (y ∷ add x s)

-- `set.delete(x)`
unfoldable pub remove : String → List String → List String
remove x [] = []
remove x (y ∷ s) = let rest = remove x s in ite (str_dec y x) rest (y ∷ rest)

-- `for (const x of xs) set.add(x)`
unfoldable pub add_all : List String → List String → List String
add_all [] s = s
add_all (x ∷ xs) s = add_all xs (add x s)

-- `new Set(xs)`
unfoldable pub from_list : List String → List String
unfolding add_all
from_list xs = add_all xs []

-- No element stands twice.
abbrev pub Distinct : List String → Type 0
Distinct [] = Unit
Distinct (x ∷ s) = (has x s ≡ false) × Distinct s

pub has-add : (x y : String) (s : List String) → has y (add x s) ≡ ite (str_dec x y) true (has y s)
unfolding has add
has-add x y [] = refl
has-add x y (z ∷ s) = ground (arith, has-add x y s)

add-Distinct : (x : String) (s : List String) → Distinct s → Distinct (add x s)
unfolding add has
add-Distinct x [] d = (refl, tt)
add-Distinct x (z ∷ s) d = ground (arith, add-Distinct x s d.1, has-add x z s)

pub has-add_all : (y : String) (xs s : List String) → has y (add_all xs s) ≡ (has y xs || has y s)
unfolding has add_all
has-add_all y [] s = refl
has-add_all y (x ∷ xs) s = ground (arith, has-add_all y xs (add x s), has-add x y s)

pub add_all-Distinct : (xs s : List String) → Distinct s → Distinct (add_all xs s)
unfolding add_all
add_all-Distinct [] s d = d
add_all-Distinct (x ∷ xs) s d = add_all-Distinct xs (add x s) (add-Distinct x s d)

pub from_list-Distinct : (xs : List String) → Distinct (from_list xs)
unfolding from_list
from_list-Distinct xs = add_all-Distinct xs [] tt

pub has-from_list : (x : String) (xs : List String) → has x (from_list xs) ≡ has x xs
unfolding from_list has
has-from_list x xs = ground (arith, has-add_all x xs [])

pub has-append : (x : String) (xs ys : List String) → has x (xs ++ ys) ≡ (has x xs || has x ys)
unfolding has
has-append x [] ys = refl
has-append x (y ∷ xs) ys = ground (arith, has-append x xs ys)

pub has-remove :
    (x y : String) (s : List String) → has y (remove x s) ≡ ite (str_dec x y) false (has y s)
unfolding has remove
has-remove x y [] = ground arith
has-remove x y (z ∷ s) = ground (arith, has-remove x y s)
