-- ===== src/Storage/Bars.antt =====
-- The candles table of internal/storage: each of its rows is a bar, when the candles that are upserted
-- are.
use optionx_assignment.Common.{
  true, false, String, List, [], ◌∷◌, Option, none, some, lt_ℤ, ◌≡◌, refl, sym, ◌∙◌, ap, ◌==◌,
  str_eq_iff, if◌then◌else◌, Bool-cases, str_eq-cases, inl, inr, ◌⊎◌, subst, arith,
}
use optionx_assignment.Float.{Float64}
use optionx_assignment.Candle.{Candle}
use optionx_assignment.Candle.Bounds.{OrderLaws, IsBar}
use optionx_assignment.Storage.Candles.{latest_of, newer, upsert_candle, same_key}
use optionx_assignment.Storage.Latest.{
  updated, IsBelow, same_bucket, apart_bucket, newer-IsBelow, latest_of-own, skip_latest,
}

module _ ⦃fl : Float64⦄ (laws : OrderLaws) where
  abbrev pub AllBars : List Candle → Type 0
  AllBars [] = Unit
  AllBars (c ∷ cs) = IsBar laws c × AllBars cs

  updated-IsBar :
      (c d : Candle)
      → IsBar laws c
      → IsBar laws d
      → c.open_price ≡ d.open_price
      → IsBar laws (updated c d)
  updated-IsBar c d b e o = record {
    high = b.high;
    low = b.low;
    low_open = ap (fl.le c.low) (sym o) ∙ b.low_open;
    open_high = ap (λ x. fl.le x c.high) (sym o) ∙ b.open_high;
    low_close = b.low_close;
    close_high = b.close_high;
    starts = e.starts;
  }

  AllBars-skip :
      (c x : Candle) (xs : List Candle)
      → same_key c x ≡ false
      → IsBar laws x
      → AllBars (upsert_candle c xs)
      → AllBars (upsert_candle c (x ∷ xs))
  unfolding upsert_candle
  AllBars-skip c x xs h b r = rw h (b, r)

  AllBars-first :
      (c x : Candle) (xs : List Candle)
      → same_key c x ≡ true
      → IsBar laws (updated c x)
      → AllBars xs
      → AllBars (upsert_candle c (x ∷ xs))
  unfolding upsert_candle
  AllBars-first c x xs h u r = rw h (u, r)

  own_key : (c x : Candle) → c.token ≡ x.token → c.bucket_ts ≡ x.bucket_ts → same_key c x ≡ true
  own_key c x t b = rw ((str_eq_iff c.token x.token).1 t, same_bucket c x b) refl

  other_key :
      (token : String) (c x : Candle)
      → c.token ≡ token
      → (x.token == token) ≡ false
      → same_key c x ≡ false
  other_key token c x own h = ground (arith, str_eq_iff c.token x.token, str_eq_iff x.token token)

  apart_key : (c x : Candle) → lt_ℤ x.bucket_ts c.bucket_ts ≡ true → same_key c x ≡ false
  apart_key c x l = ground (arith, apart_bucket c x l)

  -- A candle of a later bucket than every row of its token.
  pub AllBars-upsert_new :
      (token : String) (c : Candle) (cs : List Candle)
      → c.token ≡ token
      → IsBelow c.bucket_ts (latest_of token cs)
      → IsBar laws c
      → AllBars cs
      → AllBars (upsert_candle c cs)
  unfolding upsert_candle
  AllBars-upsert_new token c [] own b bar all = (bar, tt)
  AllBars-upsert_new token c (x ∷ xs) own b bar all = elim (str_eq-cases x.token token) [
    | inl (h, row) ↦
        let (l, below) =
          newer-IsBelow c.bucket_ts x (latest_of token xs)
            (subst (IsBelow c.bucket_ts) (latest_of-own token x xs row) b) in
        AllBars-skip c x xs (apart_key c x l) all.0
          (AllBars-upsert_new token c xs own below bar all.1)
    | inr (h, ne) ↦ AllBars-skip c x xs (other_key token c x own h) all.0 (
        AllBars-upsert_new token c xs own (subst (IsBelow c.bucket_ts) (skip_latest token x xs h) b)
          bar all.1)
  ]

  -- The row is the latest, or it is before it and the latest is among the others.
  newer_cases :
      (x d : Candle) (o : Option Candle)
      → newer x o ≡ some d
      → (x ≡ d) ⊎ (lt_ℤ x.bucket_ts d.bucket_ts ≡ true) × (o ≡ some d)
  newer_cases x d none g = inl cc
  newer_cases x d (some e) g = elim (Bool-cases (lt_ℤ x.bucket_ts e.bucket_ts)) [
    | inl l ↦
        let last : some e ≡ some d = sym (ap (λ z. if z then some e else some x) l) ∙ g in
        let same : e ≡ d = cc in
        inr (subst (λ (y : Candle). lt_ℤ x.bucket_ts y.bucket_ts ≡ true) same l, last)
    | inr l ↦
        let first : some x ≡ some d = sym (ap (λ z. if z then some e else some x) l) ∙ g in inl cc
  ]

  -- A candle of the bucket of the latest row of its token, with its opening price.
  pub AllBars-upsert_known :
      (token : String) (c d : Candle) (cs : List Candle)
      → c.token ≡ token
      → c.bucket_ts ≡ d.bucket_ts
      → c.open_price ≡ d.open_price
      → latest_of token cs ≡ some d
      → IsBar laws c
      → AllBars cs
      → AllBars (upsert_candle c cs)
  unfolding latest_of
  AllBars-upsert_known token c d [] own b o g bar all = cc
  AllBars-upsert_known token c d (x ∷ xs) own b o g bar all = elim (str_eq-cases x.token token) [
    | inr (h, ne) ↦
        AllBars-skip c x xs (other_key token c x own h) all.0
          (AllBars-upsert_known token c d xs own b o (sym (skip_latest token x xs h) ∙ g) bar all.1)
    | inl (h, row) ↦
        elim (newer_cases x d (latest_of token xs) (sym (latest_of-own token x xs row) ∙ g)) [
          | inl same ↦
              AllBars-first c x xs
                (own_key c x (own ∙ sym row) (b ∙ ap (λ (y : Candle). y.bucket_ts) (sym same)))
                (updated-IsBar c x bar all.0 (o ∙ ap (λ (y : Candle). y.open_price) (sym same)))
                all.1
          | inr (l, rest) ↦
              AllBars-skip c x xs (apart_key c x (subst (λ z. lt_ℤ x.bucket_ts z ≡ true) (sym b) l))
                all.0 (AllBars-upsert_known token c d xs own b o rest bar all.1)
        ]
  ]
