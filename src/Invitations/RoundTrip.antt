-- ===== src/Invitations/RoundTrip.antt =====
-- The key that is shown to the manager is read back as the key that was hashed.
use mathlib.Core.Path.{ap₂}
use enterprise_document_inte.Base.{
  ℕ, zero, suc, ◌*◌, ◌≡◌, ◌≤◌, refl, ap, ◌∙◌, true, [], ◌∷◌, ◌++◌, Text, arith, upper, lower,
  filter, take, drop, length, All, upper-append, upper_of_le, upper-lower, filter-append,
  filter_kept, All-take, All-drop, length-drop, take-append-drop, take_all,
}
use enterprise_document_inte.Invitations.Keys.{
  in_alphabet, normalize_key, split_groups, join_dash, new_invite_key,
}

-- Every character is one of the alphabet's.
abbrev pub IsKeyText : Text → Type 0
IsKeyText raw = All (λ c. in_alphabet c ≡ true) raw

alphabet_le : (c : ℕ) → in_alphabet c ≡ true → c ≤ b'Z'
unfolding in_alphabet
alphabet_le c h = ground arith

alphabet-All_le : (raw : Text) → IsKeyText raw → All (λ c. c ≤ b'Z') raw
alphabet-All_le [] h = tt
alphabet-All_le (c ∷ raw) h = (alphabet_le c h.0, alphabet-All_le raw h.1)

normalize_key-append : (s t : Text) → normalize_key (s ++ t) ≡ normalize_key s ++ normalize_key t
unfolding normalize_key
normalize_key-append s t =
    ap (filter in_alphabet) (upper-append s t) ∙ filter-append in_alphabet (upper s) (upper t)

normalize_key-IsKeyText : (raw : Text) → IsKeyText raw → normalize_key raw ≡ raw
unfolding normalize_key
normalize_key-IsKeyText raw h =
    ap (filter in_alphabet) (upper_of_le raw (alphabet-All_le raw h))
    ∙ filter_kept in_alphabet raw h

normalize_key-dash : (s : Text) → normalize_key (b'-' ∷ s) ≡ normalize_key s
unfolding normalize_key in_alphabet upper
normalize_key-dash s = refl

-- Joined by dashes, the groups that the key was cut into are read back as the key.
normalize_key-join_dash :
    (n : ℕ) (raw : Text)
    → IsKeyText raw
    → length raw ≤ 5 * n
    → normalize_key (join_dash (split_groups n raw)) ≡ raw
unfolding split_groups join_dash
normalize_key-join_dash zero [] h k = unfold normalize_key upper in refl
normalize_key-join_dash zero (c ∷ raw) h k = absurd (omega arith)
normalize_key-join_dash (suc zero) raw h k =
    normalize_key-IsKeyText (take 5 raw) (All-take (λ c. in_alphabet c ≡ true) 5 raw h)
    ∙ take_all 5 raw (omega arith)
normalize_key-join_dash (suc (suc n)) raw h k =
    normalize_key-append (take 5 raw) (b'-' ∷ join_dash (split_groups (suc n) (drop 5 raw)))
    ∙ ap₂ ◌++◌ (normalize_key-IsKeyText (take 5 raw) (All-take (λ c. in_alphabet c ≡ true) 5 raw h))
        (normalize_key-dash (join_dash (split_groups (suc n) (drop 5 raw)))
          ∙ normalize_key-join_dash (suc n) (drop 5 raw)
              (All-drop (λ c. in_alphabet c ≡ true) 5 raw h) (omega (arith, length-drop 5 raw)))
    ∙ take-append-drop 5 raw

normalize_key-lower : (s : Text) → normalize_key (lower s) ≡ normalize_key s
unfolding normalize_key
normalize_key-lower s = ap (filter in_alphabet) (upper-lower s)

-- The key that the manager is shown, typed in capitals or in small letters, normalizes to the key
-- that was hashed, where it is of at most twenty characters, all of the alphabet.
pub normalize_key-new_invite_key :
    (raw : Text)
    → IsKeyText raw
    → length raw ≤ 20
    → (normalize_key (new_invite_key raw).0 ≡ (new_invite_key raw).1)
      × (normalize_key (lower (new_invite_key raw).0) ≡ (new_invite_key raw).1)
unfolding new_invite_key
normalize_key-new_invite_key raw h k =
    let same = normalize_key-join_dash 4 raw h k in
    (same, normalize_key-lower (join_dash (split_groups 4 raw)) ∙ same)
