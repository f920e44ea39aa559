-- ===== src/Connection/Window.antt =====
-- The window of gateway samples and the losses computed from it.
use Prim.Native.Nat.{◌%◌}
use native.Mathlib.Nat.{zero-add, suc-add, div-add-mod, mod-lt}
use mathlib.Core.Path.{◌≡⟨◌⟩◌, ◌∎}
use mathlib.Core.List.{append-nil, append_assoc}
use baker_self_hosted_voice.Common.{
  ℕ, zero, suc, ◌+◌, ◌-◌, ◌*◌, ◌≤◌, ◌<◌, ◌≡◌, refl, Bool, true, false, Option, none, some, List, [],
  ◌∷◌, ◌++◌, arith, length, or_else, length-append, Bool-cases, ltb, inl, inr, sym, ap, ◌∙◌, map,
  if◌then◌else◌,
}
use baker_self_hosted_voice.Connection.{ConnectionQualityState}
use baker_self_hosted_voice.Connection.Registry.{no_samples}
use baker_self_hosted_voice.Connection.Quality.{
  quality_sample_window, drop, losses, loss_percent, trim, push_gateway_sample,
}

length-drop {ℓ} : {A : Type ℓ} (n : ℕ) (xs : List A) → length (drop n xs) ≡ length xs - n
length-drop zero xs = omega arith
length-drop (suc n) [] = omega arith
length-drop (suc n) (x ∷ xs) = omega (arith, length-drop n xs)

drop-append {ℓ} :
    {A : Type ℓ} (n : ℕ) (xs ys : List A) → n ≤ length xs → drop n (xs ++ ys) ≡ drop n xs ++ ys
drop-append zero xs ys h = refl
drop-append (suc n) [] ys h = absurd (omega arith)
drop-append (suc n) (x ∷ xs) ys h = drop-append n xs ys (omega arith)

drop-nil {ℓ} : {A : Type ℓ} (n : ℕ) → drop {A = A} n [] ≡ []
drop-nil zero = refl
drop-nil (suc n) = refl

drop-drop {ℓ} : {A : Type ℓ} (n k : ℕ) (xs : List A) → drop k (drop n xs) ≡ drop (n + k) xs
drop-drop zero k xs = rw zero-add
drop-drop (suc n) k [] = rw suc-add (drop-nil k)
drop-drop (suc n) k (x ∷ xs) = rw suc-add (drop-drop n k xs)

losses-le : (xs : List Bool) → losses xs ≤ length xs
losses-le [] = omega arith
losses-le (true ∷ xs) = omega (arith, losses-le xs)
losses-le (false ∷ xs) = omega (arith, losses-le xs)

length-trim-le : (xs : List Bool) → length (trim xs) ≤ quality_sample_window
length-trim-le xs = ground (arith, length-drop (length xs - 20) xs)

loss_percent-le : (lost total : ℕ) → lost ≤ total → loss_percent lost total ≤ 100
loss_percent-le lost total h = grind arith

trim-eq-drop : (xs : List Bool) → trim xs ≡ drop (length xs - quality_sample_window) xs
trim-eq-drop xs = elim (Bool-cases (ltb 20 (length xs))) [
  | inl long ↦ rw long
  | inr short ↦ let none_over : length xs - 20 ≡ 0 = ground arith in rw (short, none_over)
]

-- Trimming early does not change what stays in the end.
trim-append-trim : (xs ys : List Bool) → trim (trim xs ++ ys) ≡ trim (xs ++ ys)
trim-append-trim xs ys =
    let n = length xs - 20 in
    let whole = length-append xs ys in
    let shorter = length-drop n (xs ++ ys) in
    let kept : drop n xs ++ ys ≡ drop n (xs ++ ys) = sym (drop-append n xs ys (omega arith)) in
    trim (trim xs ++ ys)
    ≡⟨ ap (λ zs. trim (zs ++ ys)) (trim-eq-drop xs) ⟩ trim (drop n xs ++ ys)
    ≡⟨ ap trim kept ⟩ trim (drop n (xs ++ ys))
    ≡⟨ trim-eq-drop (drop n (xs ++ ys)) ⟩ drop (length (drop n (xs ++ ys)) - 20) (drop n (xs ++ ys))
    ≡⟨ drop-drop n _ (xs ++ ys) ⟩ drop (n + (length (drop n (xs ++ ys)) - 20)) (xs ++ ys)
    ≡⟨ ap (λ k. drop k (xs ++ ys)) (omega (arith, whole, shorter)) ⟩
      drop (length (xs ++ ys) - 20) (xs ++ ys)
    ≡⟨ sym (trim-eq-drop (xs ++ ys)) ⟩ trim (xs ++ ys) ∎

-- The loss of a window of samples: the share of `false`, in percent, or `null` for none.
abbrev pub measured : List Bool → Option ℕ
measured [] = none
measured (x ∷ xs) = some (loss_percent (losses (x ∷ xs)) (length (x ∷ xs)))

measured-lem :
    (xs : List Bool)
    → (if ltb 0 (length xs) then some (loss_percent (losses xs) (length xs)) else none)
      ≡ measured xs
measured-lem [] = refl
measured-lem (x ∷ xs) = ground arith

-- A history of samples: whether the ping was answered, and when that was known.
unfoldable pub push_all : ConnectionQualityState → List (Bool × ℕ) → ConnectionQualityState
push_all q [] = q
push_all q ((success, at_ms) ∷ rest) = push_all (push_gateway_sample q success at_ms) rest

abbrev pub outcomes : List (Bool × ℕ) → List Bool
outcomes = map (λ e. e.0)

push_all-samples :
    (q : ConnectionQualityState) (history : List (Bool × ℕ)) (seen : List Bool)
    → q.gateway_samples ≡ trim seen
    → q.gateway_loss_pct ≡ measured (trim seen)
    → ((push_all q history).gateway_samples ≡ trim (seen ++ outcomes history))
      × ((push_all q history).gateway_loss_pct ≡ measured (trim (seen ++ outcomes history)))
unfolding push_all push_gateway_sample
push_all-samples q [] seen s l = rw append-nil (s, l)
push_all-samples q ((b, t) ∷ rest) seen s l =
    let next : trim (q.gateway_samples ++ b ∷ []) ≡ trim (seen ++ b ∷ []) =
      ap (λ xs. trim (xs ++ b ∷ [])) s ∙ trim-append-trim seen (b ∷ []) in
    let ih =
      push_all-samples (push_gateway_sample q b t) rest (seen ++ b ∷ []) next
        (measured-lem _ ∙ ap measured next) in
    rw (← append_assoc seen (b ∷ []) (outcomes rest)) ih

measured-le : (xs : List Bool) → or_else (measured xs) 0 ≤ 100
measured-le [] = omega arith
measured-le (x ∷ xs) = loss_percent-le _ _ (losses-le (x ∷ xs))

-- The samples that say that no pong came.
abbrev pub unanswered : List Bool → List Bool
unanswered [] = []
unanswered (true ∷ xs) = unanswered xs
unanswered (false ∷ xs) = false ∷ unanswered xs

length-unanswered : (xs : List Bool) → losses xs ≡ length (unanswered xs)
length-unanswered [] = refl
length-unanswered (true ∷ xs) = length-unanswered xs
length-unanswered (false ∷ xs) = ap suc (length-unanswered xs)

-- `pct` is `100 * part / total`, rounded to the nearest number, a half upwards: twice the total
-- times the percentage lies between `200 * part - total`, which is left out, and `200 * part + total`.
abbrev pub IsRounded : (part total pct : ℕ) → Type 0
IsRounded part total pct =
    (2 * total * pct ≤ 200 * part + total) × (200 * part + total < 2 * total * pct + 2 * total)

loss_percent-IsRounded :
    (part total : ℕ) → 0 < total → IsRounded part total (loss_percent part total)
loss_percent-IsRounded part total h =
    let a = 200 * part + total in
    let d = 2 * total in
    let small : a % d < d = mod-lt a (omega (arith, h)) in
    (omega (arith, div-add-mod a d), omega (arith, div-add-mod a d, small))

-- The percentage of failures of a window: none of no sample.
abbrev pub IsLoss : (window : List Bool) → Option ℕ → Type 0
IsLoss [] o = o ≡ none
IsLoss (x ∷ xs) o =
    (pct : ℕ) × (o ≡ some pct) × IsRounded (length (unanswered (x ∷ xs))) (length (x ∷ xs)) pct

measured-IsLoss : (xs : List Bool) → IsLoss xs (measured xs)
measured-IsLoss [] = refl
measured-IsLoss (x ∷ xs) =
    let n = length (x ∷ xs) in
    (
      loss_percent (losses (x ∷ xs)) n,
      refl,
      rw (← length-unanswered (x ∷ xs)) (loss_percent-IsRounded (losses (x ∷ xs)) n (omega arith)),
    )

-- After any history of samples, from none on, the window holds the last 20 of them, oldest first,
-- the loss is the percentage of failures among those, rounded to the nearest number and a half
-- upwards, or none where there is no sample, and it is at most 100.
pub push_all-window :
    (history : List (Bool × ℕ))
    → let q = push_all no_samples history in
      (q.gateway_samples ≡ drop (length (outcomes history) - 20) (outcomes history))
      × IsLoss q.gateway_samples q.gateway_loss_pct
      × (length q.gateway_samples ≤ 20)
      × (or_else q.gateway_loss_pct 0 ≤ 100)
push_all-window history =
    let (s, l) = push_all-samples no_samples history [] refl refl in
    (
      s ∙ trim-eq-drop (outcomes history),
      rw (l, s) (measured-IsLoss (trim (outcomes history))),
      rw s (length-trim-le (outcomes history)),
      rw l (measured-le _),
    )
