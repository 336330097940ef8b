-- ===== src/Security/Deques.antt =====
-- ting_ting/security.py, RateLimiter: its dictionary of deques.
use biexce_social_network.Prelude.{
  true, false, [], ◌∷◌, ◌≡◌, refl, if◌then◌else◌, arith, Bool-cases, inl, inr, sym, ap, ◌∙◌,
}
use biexce_social_network.Security.{Text, text_eq}
use biexce_social_network.Security.Limiter.{Events, Limiter, events_of, store}

pub text_eq_refl : (s : Text) → text_eq s s ≡ true
text_eq_refl [] = refl
text_eq_refl (c ∷ s) = ground (arith, text_eq_refl s)

pub text_eq_sound : (s t : Text) → text_eq s t ≡ true → s ≡ t
text_eq_sound [] [] h = refl
text_eq_sound [] (b ∷ t) h = cc
text_eq_sound (a ∷ s) [] h = cc
text_eq_sound (a ∷ s) (b ∷ t) h = ground (arith, text_eq_sound s t)

text_eq_same : (i j k : Text) → text_eq i j ≡ true → text_eq k j ≡ true → text_eq i k ≡ true
text_eq_same i j k p q =
    ap (λ z. text_eq i z) (text_eq_sound k j q ∙ sym (text_eq_sound i j p)) ∙ text_eq_refl i

pub events_of-store :
    (k j : Text) (es : Events) (m : Limiter)
    → events_of j (store k es m) ≡ (if text_eq k j then es else events_of j m)
unfolding events_of store
events_of-store k j es [] = refl
events_of-store k j es ((i, old) ∷ m) = elim (Bool-cases (text_eq i k)) [
  | inl e ↦
      rw (e, text_eq_sound i k e)
        (elim (Bool-cases (text_eq k j)) [ inl a ↦ rw a refl | inr a ↦ rw a refl ])
  | inr e ↦ elim (Bool-cases (text_eq i j)) [
    | inl a ↦ elim (Bool-cases (text_eq k j)) [
      | inl b ↦ cc (text_eq_same i j k a b)
      | inr b ↦ rw (e, a, b) refl
    ]
    | inr a ↦ rw (e, a) (events_of-store k j es m)
  ]
]

pub events_of-store_self : (k : Text) (es : Events) (m : Limiter) → events_of k (store k es m) ≡ es
events_of-store_self k es m = events_of-store k k es m ∙ rw (text_eq_refl k) refl

pub events_of-store_other :
    (k j : Text) (es : Events) (m : Limiter)
    → text_eq k j ≡ false
    → events_of j (store k es m) ≡ events_of j m
events_of-store_other k j es m h = events_of-store k j es m ∙ rw h refl
