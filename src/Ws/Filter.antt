-- ===== src/Ws/Filter.antt =====
-- The subscription filter of a client of internal/ws: an empty set of tokens filters nothing.
use optionx_assignment.Common.{
  Bool, true, false, not, ◌&&◌, ◌||◌, Bool-cases, String, List, [], ◌∷◌, get, put, remove, get-put,
  get-remove, ◌≡◌, refl, ◌∙◌, ap, inl, inr, arith, ◌==◌, str_eq_refl, str_eq-cases, if◌then◌else◌,
}
use optionx_assignment.Ws.{TokenSet, add_all, remove_all, is_member, is_empty, passes}

abbrev pub is_listed : String → List String → Bool
is_listed t [] = false
is_listed t (x ∷ xs) = (x == t) || is_listed t xs

-- Subscribing adds the tokens of the message, and no others.
is_member-add_all :
    (t : String) (ts : List String) (s : TokenSet)
    → is_member t (add_all ts s) ≡ (is_listed t ts || is_member t s)
unfolding add_all
is_member-add_all t [] s = refl
is_member-add_all t (x ∷ ts) s =
    ground (arith, is_member-add_all t ts (put x tt s), get-put x t tt s)

is_member-remove_all :
    (t : String) (ts : List String) (s : TokenSet)
    → is_member t (remove_all ts s) ≡ (if is_listed t ts then false else is_member t s)
unfolding remove_all
is_member-remove_all t [] s = refl
is_member-remove_all t (x ∷ ts) s =
    ground (arith, is_member-remove_all t ts (remove x s), get-remove x t s)

abbrev pub all_listed : List String → List String → Bool
all_listed [] off = true
all_listed (t ∷ on) off = is_listed t off && all_listed on off

all_listed-at :
    (on off : List String)
    → all_listed on off ≡ true
    → (u : String) → (is_listed u on && not (is_listed u off)) ≡ false
all_listed-at [] off h u = refl
all_listed-at (t ∷ on) off h u = elim (str_eq-cases t u) [
  | inl (c, e) ↦ ground (arith, ap (λ k. is_listed k off) e, all_listed-at on off)
  | inr (c, ne) ↦ ground (arith, all_listed-at on off (ground arith) u)
]

survivor :
    (on off : List String)
    → all_listed on off ≡ false
    → (u : String) × ((is_listed u on && not (is_listed u off)) ≡ true)
survivor [] off h = cc
survivor (t ∷ on) off h = elim (Bool-cases (is_listed t off)) [
  | inl i ↦ let (u, p) = survivor on off (ground arith) in (u, ground arith)
  | inr i ↦ (t, ground (arith, str_eq_refl t))
]

member_at :
    (on off : List String) (u : String)
    → is_member u (remove_all off (add_all on [])) ≡ (is_listed u on && not (is_listed u off))
unfolding get
member_at on off u =
    ground (arith, is_member-remove_all u off (add_all on []), is_member-add_all u on [])

no_member : (s : TokenSet) → ((t : String) → is_member t s ≡ false) → is_empty s ≡ true
unfolding get
no_member [] h = refl
no_member ((t, w) ∷ s) h = absurd (false≢ (h t))
  where
    false≢ : is_member t ((t, w) ∷ s) ≡ false → ⊥
    false≢ e = ground (arith, str_eq_refl t)

some_member : (s : TokenSet) (t : String) → is_member t s ≡ true → is_empty s ≡ false
unfolding get
some_member [] t h = cc
some_member (x ∷ s) t h = refl

-- A client that subscribes to some tokens and then unsubscribes from some gets the updates of those
-- that are left; but when none are left it gets the updates of every token.
pub passes-subscriptions :
    (on off : List String) (t : String)
    → passes (remove_all off (add_all on [])) t
      ≡ (if all_listed on off then true else is_listed t on && not (is_listed t off))
unfolding passes
passes-subscriptions on off t = elim (Bool-cases (all_listed on off)) [
  | inl h ↦
      rw
        (
          h,
          no_member (remove_all off (add_all on []))
              (λ u. member_at on off u ∙ all_listed-at on off h u),
        )
        refl
  | inr h ↦
      let (u, p) = survivor on off h in
      rw (h, some_member (remove_all off (add_all on [])) u (member_at on off u ∙ p))
        (member_at on off t)
]
