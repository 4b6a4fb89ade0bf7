-- ===== src/Text/Endings.antt =====
-- Texts with different ends are different, whatever stands before.
use mathlib.Core.Path.{subst}
use tp.Common.{
  ◌≡◌, refl, sym, ap, ◌∙◌, Bool, true, false, [], ◌∷◌, ◌++◌, append_assoc, append-nil, arith, ◌==◌,
  if◌then◌else◌, Bool-cases, inl, inr,
}
use tp.Text.{Text, text_eq, text_eq_iff}

abbrev pub backwards : Text → Text
backwards [] = []
backwards (c ∷ s) = backwards s ++ c ∷ []

backwards-append : (s t : Text) → backwards (s ++ t) ≡ backwards t ++ backwards s
backwards-append [] t = sym (append-nil (backwards t))
backwards-append (c ∷ s) t =
    rw (backwards-append s t) (append_assoc (backwards t) (backwards s) (c ∷ []))

-- Two texts differ at a place that both have.
abbrev pub apart : Text → Text → Bool
apart [] t = false
apart (c ∷ s) [] = false
apart (c ∷ s) (d ∷ t) = if c == d then apart s t else true

apart-append : (s t a b : Text) → apart s t ≡ true → apart (s ++ a) (t ++ b) ≡ true
apart-append [] t a b h = cc
apart-append (c ∷ s) [] a b h = cc
apart-append (c ∷ s) (d ∷ t) a b h = ground (arith, apart-append s t a b)

apart_irrefl : (s : Text) → apart s s ≡ false
apart_irrefl [] = refl
apart_irrefl (c ∷ s) = ground (arith, apart_irrefl s)

pub apart_ends :
    (a s b t : Text) → apart (backwards s) (backwards t) ≡ true → text_eq (a ++ s) (b ++ t) ≡ false
apart_ends a s b t h = elim (Bool-cases (text_eq (a ++ s) (b ++ t))) [
  | inr differ ↦ differ
  | inl same ↦
      let e =
        sym (backwards-append a s)
        ∙ ap backwards ((text_eq_iff (a ++ s) (b ++ t)).0 same)
        ∙ backwards-append b t in
      let end = backwards t ++ backwards b in
      let both : apart end end ≡ true =
        subst (λ z. apart z end ≡ true) e
          (apart-append (backwards s) (backwards t) (backwards a) (backwards b) h) in
      cc (apart_irrefl end)
]
