-- ===== src/Common/StringMap.antt =====
-- `Map<string, V>`: the entries in insertion order, as JavaScript iterates over them.
pub mod Laws
pub mod Entries
use Prim.Native.String.{String}
use Prim.Native.Nat.{ℕ}
use mathlib.Core.Logic.{ite}
use mathlib.Core.Bool.{Bool, true, false}
use mathlib.Core.Option.{Option, none, some}
use mathlib.Core.List.{List, [], ◌∷◌, map}
use baker_self_hosted_voice.Common.Text.{str_dec}
use baker_self_hosted_voice.Common.Lists.{length}

abbrev pub StringMap {ℓ} : Type ℓ → Type ℓ
StringMap V = List (String × V)

module _ {ℓ} {V : Type ℓ} where
  unfoldable pub get : String → StringMap V → Option V
  get k [] = none
  get k ((j, v) ∷ m) = ite (str_dec j k) (some v) (get k m)

  abbrev pub is_some : Option V → Bool
  is_some none = false
  is_some (some v) = true

  abbrev pub has : String → StringMap V → Bool
  has k m = is_some (get k m)

  -- A key that is there keeps its place; a new one goes to the end.
  unfoldable pub set : String → V → StringMap V → StringMap V
  set k v [] = (k, v) ∷ []
  set k v ((j, w) ∷ m) = ite (str_dec j k) ((j, v) ∷ m) ((j, w) ∷ set k v m)

  unfoldable pub delete : String → StringMap V → StringMap V
  delete k [] = []
  delete k ((j, v) ∷ m) = let rest = delete k m in ite (str_dec j k) rest ((j, v) ∷ rest)

  abbrev pub keys : StringMap V → List String
  keys = map (λ e. e.0)

  abbrev pub values : StringMap V → List V
  values = map (λ e. e.1)

  abbrev pub size : StringMap V → ℕ
  size m = length m

  abbrev pub is_empty : StringMap V → Bool
  is_empty [] = true
  is_empty (e ∷ m) = false
