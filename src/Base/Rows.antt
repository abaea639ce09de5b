-- ===== src/Base/Rows.antt =====
-- What a query selects is among the rows of its table.
use mathlib.Core.Path.{◌≡◌}
use mathlib.Core.Logic.{inl, inr}
use mathlib.Core.Bool.{Bool, true}
use mathlib.Core.List.{List, [], ◌∷◌, Mem, mem-cons_self, mem-cons_of_mem}
use enterprise_document_inte.Base.Tests.{Bool-cases}
use enterprise_document_inte.Base.Lists.{All, filter}

module _ {ℓ} {A : Type ℓ} where
  pub All_mono {κ η} :
      {P : A → Type κ} {Q : A → Type η} (xs : List A) → ((x : A) → P x → Q x) → All P xs → All Q xs
  All_mono [] f h = tt
  All_mono (x ∷ xs) f h = (f x h.0, All_mono xs f h.1)

  -- A row that a query selects passes its condition, and is a row of the table.
  abbrev pub Selected : (A → Bool) → List A → A → Type ℓ
  Selected q xs x = (q x ≡ true) × Mem x xs

  pub filter-Selected : (q : A → Bool) (xs : List A) → All (Selected q xs) (filter q xs)
  filter-Selected q [] = tt
  filter-Selected q (x ∷ xs) =
      let rest : All (Selected q (x ∷ xs)) (filter q xs) =
        All_mono (filter q xs) (λ y h. (h.0, mem-cons_of_mem x h.1)) (filter-Selected q xs) in
      elim (Bool-cases (q x)) [
        | inl passes ↦ rw passes ((passes, mem-cons_self), rest)
        | inr fails ↦ rw fails rest
      ]
