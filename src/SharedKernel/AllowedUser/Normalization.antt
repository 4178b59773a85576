-- ===== src/SharedKernel/AllowedUser/Normalization.antt =====
-- Normalizing an address a second time.
use Prim.Native.Char.{Char}
use Prim.Native.String.{String, [], ◌∷◌}
use zensor_server.Prelude.{
  false, ◌≡◌, refl, inl, inr, Bool-cases, if_cases, ◌&&◌, is_space, is_empty, trim_left, trim_right,
  trim_space,
}
use zensor_server.SharedKernel.AllowedUser.{to_lower, normalize_email}

-- The text is empty or does not begin with a space.
abbrev IsTrimmed : String → Type 0
IsTrimmed [] = Unit
IsTrimmed (c ∷ s) = is_space c ≡ false

trim_left-IsTrimmed : (s : String) → IsTrimmed (trim_left s)
trim_left-IsTrimmed [] = tt
trim_left-IsTrimmed (c ∷ s) = elim (Bool-cases (is_space c)) [
  | inl e ↦ rw e (trim_left-IsTrimmed s)
  | inr e ↦ rw e e
]

IsTrimmed-trim_left : (s : String) → IsTrimmed s → trim_left s ≡ s
IsTrimmed-trim_left [] h = refl
IsTrimmed-trim_left (c ∷ s) h = rw h

trim_right-IsTrimmed : (s : String) → IsTrimmed s → IsTrimmed (trim_right s)
trim_right-IsTrimmed [] h = tt
trim_right-IsTrimmed (c ∷ s) h =
    if_cases IsTrimmed (is_empty (trim_right s) && is_space c) [] (c ∷ trim_right s) (λ _. tt)
      (λ _. h)

trim_right_twice : (s : String) → trim_right (trim_right s) ≡ trim_right s
trim_right_twice [] = refl
trim_right_twice (c ∷ s) = elim (Bool-cases (is_empty (trim_right s) && is_space c)) [
  | inl e ↦ rw e
  | inr e ↦ rw (e, trim_right_twice s, e)
]

trim_space_twice : (s : String) → trim_space (trim_space s) ≡ trim_space s
trim_space_twice s = rw (
  IsTrimmed-trim_left (trim_right (trim_left s))
      (trim_right-IsTrimmed (trim_left s) (trim_left-IsTrimmed s)),
  trim_right_twice (trim_left s),
)

-- What Go documents of `unicode.ToLower`: lower case stays as it is. White space has no case.
pub record IsLowering (lower : Char → Char) : Type 0 where
  pub stays_lower : (c : Char) → lower (lower c) ≡ lower c
  pub keeps_space : (c : Char) → is_space (lower c) ≡ is_space c

module _ (lower : Char → Char) (laws : IsLowering lower) where
  to_lower_twice : (s : String) → to_lower lower (to_lower lower s) ≡ to_lower lower s
  to_lower_twice [] = refl
  to_lower_twice (c ∷ s) = rw (laws.stays_lower c, to_lower_twice s)

  trim_left-to_lower : (s : String) → trim_left (to_lower lower s) ≡ to_lower lower (trim_left s)
  trim_left-to_lower [] = refl
  trim_left-to_lower (c ∷ s) = elim (Bool-cases (is_space c)) [
    | inl e ↦ rw (laws.keeps_space c, e, trim_left-to_lower s)
    | inr e ↦ rw (laws.keeps_space c, e)
  ]

  is_empty-to_lower : (s : String) → is_empty (to_lower lower s) ≡ is_empty s
  is_empty-to_lower [] = refl
  is_empty-to_lower (c ∷ s) = refl

  trim_right-to_lower : (s : String) → trim_right (to_lower lower s) ≡ to_lower lower (trim_right s)
  trim_right-to_lower [] = refl
  trim_right-to_lower (c ∷ s) = elim (Bool-cases (is_empty (trim_right s) && is_space c)) [
    | inl e ↦ rw (trim_right-to_lower s, is_empty-to_lower (trim_right s), laws.keeps_space c, e)
    | inr e ↦ rw (trim_right-to_lower s, is_empty-to_lower (trim_right s), laws.keeps_space c, e)
  ]

  -- Where `unicode.ToLower` leaves lower case and white space as they are, normalizing an address
  -- that has been normalized changes nothing: the second `NormalizeEmail`, in the repository, finds the address that
  -- the first one stored.
  pub normalize_email_twice :
      (email : String)
      → normalize_email lower (normalize_email lower email) ≡ normalize_email lower email
  unfolding normalize_email
  normalize_email_twice email = rw (
    trim_left-to_lower (trim_space email),
    trim_right-to_lower (trim_left (trim_space email)),
    trim_space_twice email,
    to_lower_twice (trim_space email),
  )
