-- ===== src/Common/StringMap/Entries.antt =====
-- Predicates on all entries of a map, and maps with no key twice.
use Prim.Native.Nat.{suc}
use Prim.Native.String.{String}
use mathlib.Core.Path.{◌≡◌, refl, sym, subst, ap₂, transport}
use mathlib.Core.Logic.{if_pos, if_neg}
use mathlib.Core.Option.{none, some}
use mathlib.Core.List.{[], ◌∷◌}
use native.Mathlib.Omega.{arith}
use baker_self_hosted_voice.Common.Text.{str_dec}
use baker_self_hosted_voice.Common.StringMap.{StringMap, get, set, delete, size}
use baker_self_hosted_voice.Common.StringMap.Laws.{get-set, get-delete, delete_absent}

-- No key stands twice.
abbrev pub Distinct {ℓ} : {V : Type ℓ} → StringMap V → Type ℓ
Distinct [] = Unit
Distinct ((k, v) ∷ m) = (get k m ≡ none) × Distinct m

-- `P` holds of every key with its value.
abbrev pub Entries {ℓ κ} : {V : Type ℓ} → (String → V → Type κ) → StringMap V → Type κ
Entries P [] = Unit
Entries P ((k, v) ∷ m) = P k v × Entries P m

module _ {ℓ} {V : Type ℓ} where
  pub set-Distinct : (k : String) (v : V) (m : StringMap V) → Distinct m → Distinct (set k v m)
  unfolding set get
  set-Distinct k v [] d = (refl, tt)
  set-Distinct k v ((j, w) ∷ m) d = ground (arith, set-Distinct k v m d.1, get-set k j v m)

  pub delete-Distinct : (k : String) (m : StringMap V) → Distinct m → Distinct (delete k m)
  unfolding delete get
  delete-Distinct k [] d = tt
  delete-Distinct k ((j, w) ∷ m) d = ground (arith, delete-Distinct k m d.1, get-delete k j m)

module _ {ℓ κ} {V : Type ℓ} (P : String → V → Type κ) where
  pub set-Entries :
      (k : String) (v : V) (m : StringMap V) → P k v → Entries P m → Entries P (set k v m)
  unfolding set
  set-Entries k v [] p h = (p, tt)
  set-Entries k v ((j, w) ∷ m) p h = elim (str_dec j k) [
    | yes e ↦ rw (if_pos _ e) (subst (λ i. P i v) (sym e) p, h.1)
    | no e ↦ rw (if_neg _ e) (h.0, set-Entries k v m p h.1)
  ]

  pub delete-Entries : (k : String) (m : StringMap V) → Entries P m → Entries P (delete k m)
  unfolding delete
  delete-Entries k [] h = tt
  delete-Entries k ((j, w) ∷ m) h = elim (str_dec j k) [
    | yes e ↦ rw (if_pos _ e) (delete-Entries k m h.1)
    | no e ↦ rw (if_neg _ e) (h.0, delete-Entries k m h.1)
  ]

  pub get-Entries : (k : String) (v : V) (m : StringMap V) → get k m ≡ some v → Entries P m → P k v
  unfolding get
  get-Entries k v [] e h = cc
  get-Entries k v ((j, w) ∷ m) e h = elim (str_dec j k) [
    | yes here ↦ transport (ap₂ P here (ground arith)) h.0
    | no there ↦ get-Entries k v m (ground arith) h.1
  ]

module _ {ℓ} {V : Type ℓ} where
  pub size-set_absent :
      (k : String) (v : V) (m : StringMap V) → get k m ≡ none → size (set k v m) ≡ suc (size m)
  unfolding set get
  size-set_absent k v [] h = refl
  size-set_absent k v ((j, w) ∷ m) h = ground (arith, size-set_absent k v m)

  pub size-delete :
      (k : String) (v : V) (m : StringMap V)
      → Distinct m
      → get k m ≡ some v
      → suc (size (delete k m)) ≡ size m
  unfolding delete get
  size-delete k v [] d h = cc
  size-delete k v ((j, w) ∷ m) d h = ground (arith, size-delete k v m d.1, delete_absent j m)
