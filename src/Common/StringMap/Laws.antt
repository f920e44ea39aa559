-- ===== src/Common/StringMap/Laws.antt =====
-- What `get` reads after `set` and `delete`.
use Prim.Native.String.{String}
use mathlib.Core.Path.{◌≡◌, refl}
use mathlib.Core.Logic.{ite}
use mathlib.Core.Option.{none, some}
use mathlib.Core.Bool.{false}
use mathlib.Core.List.{[], ◌∷◌}
use native.Mathlib.Omega.{arith}
use baker_self_hosted_voice.Common.Text.{str_dec}
use baker_self_hosted_voice.Common.StringMap.{StringMap, get, set, delete, is_empty}

module _ {ℓ} {V : Type ℓ} where
  pub get-set :
      (k j : String) (v : V) (m : StringMap V)
      → get j (set k v m) ≡ ite (str_dec k j) (some v) (get j m)
  unfolding get set
  get-set k j v [] = refl
  get-set k j v ((i, w) ∷ m) = ground (arith, get-set k j v m)

  pub get-delete :
      (k j : String) (m : StringMap V) → get j (delete k m) ≡ ite (str_dec k j) none (get j m)
  unfolding get delete
  get-delete k j [] = ground arith
  get-delete k j ((i, w) ∷ m) = ground (arith, get-delete k j m)

  pub get-set_self : (k : String) (v : V) (m : StringMap V) → get k (set k v m) ≡ some v
  get-set_self k v m = ground (arith, get-set k k v m)

  pub get-delete_self : (k : String) (m : StringMap V) → get k (delete k m) ≡ none
  get-delete_self k m = ground (arith, get-delete k k m)

  -- Deleting a key that is not there changes nothing.
  pub delete_absent : (k : String) (m : StringMap V) → get k m ≡ none → delete k m ≡ m
  unfolding get delete
  delete_absent k [] h = refl
  delete_absent k ((i, w) ∷ m) h = ground (arith, delete_absent k m)

  -- A write that is deleted leaves no trace.
  pub delete-set : (k : String) (v : V) (m : StringMap V) → delete k (set k v m) ≡ delete k m
  unfolding delete set
  delete-set k v [] = ground arith
  delete-set k v ((i, w) ∷ m) = ground (arith, delete-set k v m)

  -- Of two writes to one key the later one stays.
  pub set-set : (k : String) (v w : V) (m : StringMap V) → set k v (set k w m) ≡ set k v m
  unfolding set
  set-set k v w [] = ground arith
  set-set k v w ((i, x) ∷ m) = ground (arith, set-set k v w m)

  -- A write of the value that is there changes nothing.
  pub set_same : (k : String) (v : V) (m : StringMap V) → get k m ≡ some v → set k v m ≡ m
  unfolding get set
  set_same k v [] h = cc
  set_same k v ((i, x) ∷ m) h = ground (arith, set_same k v m)

  pub is_empty-set : (k : String) (v : V) (m : StringMap V) → is_empty (set k v m) ≡ false
  unfolding set
  is_empty-set k v [] = refl
  is_empty-set k v ((i, x) ∷ m) = ground arith
