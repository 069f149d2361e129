-- ===== src/Storage/Latest.antt =====
-- What an upsert into the candles table of internal/storage does to each token's latest candle.
use optionx_assignment.Common.{
  true, false, String, List, [], ◌∷◌, Option, none, some, ℤ, lt_ℤ, eq_ℤ, eq_ℤ_iff, ◌≡◌, refl, sym,
  ◌∙◌, ap, arith, ◌==◌, str_eq_iff, if◌then◌else◌, Bool-cases, str_eq-cases, inl, inr, ◌⊎◌, subst,
}
use optionx_assignment.Float.{Float64}
use optionx_assignment.Candle.{Candle}
use optionx_assignment.Storage.Candles.{latest_of, newer, upsert_candle}

module _ ⦃fl : Float64⦄ where
  -- The row that an upsert of `c` leaves where `d` stood.
  abbrev pub updated : Candle → Candle → Candle
  updated c d = record d { high = c.high; low = c.low; close = c.close; tick_count = c.tick_count }

  pub latest_of-upsert_other :
      (token : String) (c : Candle) (cs : List Candle)
      → (c.token == token) ≡ false
      → latest_of token (upsert_candle c cs) ≡ latest_of token cs
  unfolding latest_of upsert_candle
  latest_of-upsert_other token c [] h = ground arith
  latest_of-upsert_other token c (x ∷ xs) h =
      ground (arith, latest_of-upsert_other token c xs h, str_eq_iff c.token x.token)

  -- The first row, when it is one of the token's.
  upsert_own :
      (token : String) (c x : Candle) (xs : List Candle)
      → c.token ≡ token
      → x.token ≡ token
      → latest_of token (upsert_candle c (x ∷ xs)) ≡ (
          if eq_ℤ c.bucket_ts x.bucket_ts
          then newer (updated c x) (latest_of token xs)
          else newer x (latest_of token (upsert_candle c xs)))
  unfolding latest_of upsert_candle
  upsert_own token c x xs own row =
      ground (arith, str_eq_iff c.token x.token, str_eq_iff x.token token)

  pub latest_of-own :
      (token : String) (x : Candle) (xs : List Candle)
      → x.token ≡ token
      → latest_of token (x ∷ xs) ≡ newer x (latest_of token xs)
  unfolding latest_of
  latest_of-own token x xs row = ground (arith, str_eq_iff x.token token)

  -- The first row, when it is another token's.
  skip_row :
      (token : String) (c x : Candle) (xs : List Candle)
      → c.token ≡ token
      → (x.token == token) ≡ false
      → latest_of token (upsert_candle c (x ∷ xs)) ≡ latest_of token (upsert_candle c xs)
  unfolding latest_of upsert_candle
  skip_row token c x xs own h = ground (arith, str_eq_iff c.token x.token, str_eq_iff x.token token)

  pub skip_latest :
      (token : String) (x : Candle) (xs : List Candle)
      → (x.token == token) ≡ false
      → latest_of token (x ∷ xs) ≡ latest_of token xs
  unfolding latest_of
  skip_latest token x xs h = ground arith

  pub same_bucket : (c x : Candle) → c.bucket_ts ≡ x.bucket_ts → eq_ℤ c.bucket_ts x.bucket_ts ≡ true
  same_bucket c x e = (eq_ℤ_iff c.bucket_ts x.bucket_ts).1 e

  pub apart_bucket :
      (c x : Candle) → lt_ℤ x.bucket_ts c.bucket_ts ≡ true → eq_ℤ c.bucket_ts x.bucket_ts ≡ false
  apart_bucket c x l = elim (Bool-cases (eq_ℤ c.bucket_ts x.bucket_ts)) [
    | inl h ↦ absurd (irrefl (subst (λ b. lt_ℤ x.bucket_ts b ≡ true) ((eq_ℤ_iff _ _).0 h) l))
    | inr h ↦ h
  ]
    where
      irrefl : lt_ℤ x.bucket_ts x.bucket_ts ≡ true → ⊥
      irrefl e = ground arith

  abbrev bucket_or : Candle → Option Candle → ℤ
  bucket_or d none = d.bucket_ts
  bucket_or d (some y) = y.bucket_ts

  abbrev updated_option : Candle → Option Candle → Option Candle
  updated_option c none = none
  updated_option c (some y) = some (updated c y)

  newer-updated :
      (c x d : Candle) (o : Option Candle)
      → c.bucket_ts ≡ d.bucket_ts
      → newer x o ≡ some d
      → (eq_ℤ c.bucket_ts x.bucket_ts ≡ true) × (newer (updated c x) o ≡ some (updated c d))
        ⊎ (eq_ℤ c.bucket_ts x.bucket_ts ≡ false)
          × (o ≡ some d)
          × (newer x (some (updated c d)) ≡ some (updated c d))
  newer-updated c x d none b g =
      inl (same_bucket c x (b ∙ ap (bucket_or d) (sym g)), ap (updated_option c) g)
  newer-updated c x d (some e) b g = elim (Bool-cases (lt_ℤ x.bucket_ts e.bucket_ts)) [
    | inl l ↦
        let last : some e ≡ some d = sym (ap (λ z. if z then some e else some x) l) ∙ g in
        let below : lt_ℤ x.bucket_ts d.bucket_ts ≡ true =
          subst (λ z. lt_ℤ x.bucket_ts z ≡ true) (ap (bucket_or d) last) l in
        inr (
          apart_bucket c x (subst (λ z. lt_ℤ x.bucket_ts z ≡ true) (sym b) below),
          last,
          ap (λ z. if z then some (updated c d) else some x) below,
        )
    | inr l ↦
        let first : some x ≡ some d = sym (ap (λ z. if z then some e else some x) l) ∙ g in
        inl (
          same_bucket c x (b ∙ ap (bucket_or d) (sym first)),
          ap (λ z. if z then some e else some (updated c x)) l ∙ ap (updated_option c) first,
        )
  ]

  pub latest_of-upsert_known :
      (token : String) (c d : Candle) (cs : List Candle)
      → c.token ≡ token
      → c.bucket_ts ≡ d.bucket_ts
      → latest_of token cs ≡ some d
      → latest_of token (upsert_candle c cs) ≡ some (updated c d)
  unfolding latest_of
  latest_of-upsert_known token c d [] own b g = cc
  latest_of-upsert_known token c d (x ∷ xs) own b g = elim (str_eq-cases x.token token) [
    | inl (h, row) ↦
        elim (newer-updated c x d (latest_of token xs) b (sym (latest_of-own token x xs row) ∙ g)) [
          | inl (same, n) ↦ upsert_own token c x xs own row ∙ rw (same, n) refl
          | inr (apart, rest, n) ↦
              upsert_own token c x xs own row
              ∙ rw (apart, latest_of-upsert_known token c d xs own b rest) n
        ]
    | inr (h, ne) ↦
        skip_row token c x xs own h
        ∙ latest_of-upsert_known token c d xs own b (sym (skip_latest token x xs h) ∙ g)
  ]

  abbrev pub IsBelow : ℤ → Option Candle → Type 0
  IsBelow b none = Unit
  IsBelow b (some d) = lt_ℤ d.bucket_ts b ≡ true

  pub newer-IsBelow :
      (b : ℤ) (x : Candle) (o : Option Candle)
      → IsBelow b (newer x o)
      → (lt_ℤ x.bucket_ts b ≡ true) × IsBelow b o
  newer-IsBelow b x none l = (l, tt)
  newer-IsBelow b x (some e) l = ground arith

  newest_wins : (c x : Candle) → lt_ℤ x.bucket_ts c.bucket_ts ≡ true → newer x (some c) ≡ some c
  newest_wins c x l = ap (λ z. if z then some c else some x) l

  pub latest_of-upsert_new :
      (token : String) (c : Candle) (cs : List Candle)
      → c.token ≡ token
      → IsBelow c.bucket_ts (latest_of token cs)
      → latest_of token (upsert_candle c cs) ≡ some c
  unfolding latest_of upsert_candle
  latest_of-upsert_new token c [] own b = rw ((str_eq_iff c.token token).1 own) refl
  latest_of-upsert_new token c (x ∷ xs) own b = elim (str_eq-cases x.token token) [
    | inl (h, row) ↦
        let (l, below) =
          newer-IsBelow c.bucket_ts x (latest_of token xs)
            (subst (IsBelow c.bucket_ts) (latest_of-own token x xs row) b) in
        upsert_own token c x xs own row
        ∙ rw (apart_bucket c x l, latest_of-upsert_new token c xs own below) (newest_wins c x l)
    | inr (h, ne) ↦
        skip_row token c x xs own h
        ∙ latest_of-upsert_new token c xs own
            (subst (IsBelow c.bucket_ts) (skip_latest token x xs h) b)
  ]
