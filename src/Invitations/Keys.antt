-- ===== src/Invitations/Keys.antt =====
-- The invite keys of backend/app/services/invitation_service.py.
use enterprise_document_inte.Base.{
  ℕ, zero, suc, Bool, List, [], ◌∷◌, ◌++◌, Text, codes, upper, filter, contains, take, drop,
}

-- `_KEY_ALPHABET`: no 0, O, 1, I.
abbrev pub key_alphabet : Text
key_alphabet = codes "ABCDEFGHJKLMNPQRSTUVWXYZ23456789"

unfoldable pub in_alphabet : ℕ → Bool
in_alphabet c = contains c key_alphabet

unfoldable pub normalize_key : Text → Text
normalize_key key = filter in_alphabet (upper key)

-- `raw[i : i + 5] for i in range(0, ...)`, for a number of groups.
unfoldable pub split_groups : ℕ → Text → List Text
split_groups zero raw = []
split_groups (suc n) raw = take 5 raw ∷ split_groups n (drop 5 raw)

-- `"-".join(...)`
unfoldable pub join_dash : List Text → Text
join_dash [] = []
join_dash (g ∷ []) = g
join_dash (g ∷ h ∷ rest) = g ++ (b'-' ∷ join_dash (h ∷ rest))

-- The key to show, in four groups of five, and the form that is hashed, of the random characters.
unfoldable pub new_invite_key : Text → Text × Text
unfolding split_groups join_dash
new_invite_key raw = (join_dash (split_groups 4 raw), raw)
