-- ===== src/Version/Laws.antt =====
-- The laws of a comparison, and the comparisons from which the order of versions is made.
use server_monitor.Common.{◌≡◌, refl, sym, ap, ◌∙◌, arith, List, [], ◌∷◌}
use server_monitor.Version.{Cmp, less, equal, greater, cmp_nat}

abbrev pub flip : Cmp → Cmp
flip less = greater
flip equal = equal
flip greater = less

-- By the first comparison, and where it is undecided by the second.
abbrev pub or_else : Cmp → Cmp → Cmp
or_else less d = less
or_else greater d = greater
or_else equal d = d

-- The laws of a total preorder.
pub record IsOrder {ℓ} {A : Type ℓ} (f : A → A → Cmp) : Type ℓ where
  pub flipped : (a b : A) → f b a ≡ flip (f a b)
  pub same : (a b c : A) → f a b ≡ equal → f a c ≡ f b c
  pub trans : (a b c : A) → f a b ≡ less → f b c ≡ less → f a c ≡ less

pub cmp_nat-IsOrder : IsOrder cmp_nat
cmp_nat-IsOrder = record {
  flipped = λ a b. ground arith;
  same = λ a b c h. ground arith;
  trans = λ a b c h k. ground arith;
}

-- Lists by their elements in order, a beginning first.
unfoldable pub lex {ℓ} : {A : Type ℓ} → (A → A → Cmp) → List A → List A → Cmp
lex f [] [] = equal
lex f [] (b ∷ bs) = less
lex f (a ∷ as') [] = greater
lex f (a ∷ as') (b ∷ bs) = or_else (f a b) (lex f as' bs)

module _ {ℓ} {A : Type ℓ} (f : A → A → Cmp) (o : IsOrder f) where
  lex-flipped : (as' bs : List A) → lex f bs as' ≡ flip (lex f as' bs)
  unfolding lex
  lex-flipped [] [] = refl
  lex-flipped [] (b ∷ bs) = refl
  lex-flipped (a ∷ as') [] = refl
  lex-flipped (a ∷ as') (b ∷ bs) = ground (arith, o.flipped a b, lex-flipped as' bs)

  lex-same : (as' bs cs : List A) → lex f as' bs ≡ equal → lex f as' cs ≡ lex f bs cs
  unfolding lex
  lex-same [] [] cs h = refl
  lex-same [] (b ∷ bs) cs h = absurd (ground arith)
  lex-same (a ∷ as') [] cs h = absurd (ground arith)
  lex-same (a ∷ as') (b ∷ bs) [] h = refl
  lex-same (a ∷ as') (b ∷ bs) (c ∷ cs) h = ground (arith, o.same a b c, lex-same as' bs cs)

  lex_trans : (as' bs cs : List A) → lex f as' bs ≡ less → lex f bs cs ≡ less → lex f as' cs ≡ less
  unfolding lex
  lex_trans [] [] cs h k = absurd (ground arith)
  lex_trans [] (b ∷ bs) [] h k = absurd (ground arith)
  lex_trans [] (b ∷ bs) (c ∷ cs) h k = refl
  lex_trans (a ∷ as') [] cs h k = absurd (ground arith)
  lex_trans (a ∷ as') (b ∷ bs) [] h k = absurd (ground arith)
  lex_trans (a ∷ as') (b ∷ bs) (c ∷ cs) h k = ground (
    arith,
    o.flipped a b,
    o.flipped b c,
    o.flipped a c,
    o.same a b c,
    o.same c b a,
    o.same b c a,
    o.trans a b c,
    lex_trans as' bs cs,
  )

  pub lex-IsOrder : IsOrder (lex f)
  lex-IsOrder = record { flipped = lex-flipped; same = lex-same; trans = lex_trans }

-- Lists by their elements, where a default stands for those that are missing.
unfoldable pub padded {ℓ} : {A : Type ℓ} → (A → A → Cmp) → A → List A → List A → Cmp
padded f d [] [] = equal
padded f d [] (b ∷ bs) = or_else (f d b) (padded f d [] bs)
padded f d (a ∷ as') [] = or_else (f a d) (padded f d as' [])
padded f d (a ∷ as') (b ∷ bs) = or_else (f a b) (padded f d as' bs)

-- The laws of two comparisons in a row, at three values.
module _ {ℓ} {A : Type ℓ} (f : A → A → Cmp) (o : IsOrder f) where
  or_else-same :
      (a b c : A) (ab ac bc : Cmp)
      → (ab ≡ equal → ac ≡ bc)
      → or_else (f a b) ab ≡ equal
      → or_else (f a c) ac ≡ or_else (f b c) bc
  or_else-same a b c ab ac bc h e = ground (arith, o.same a b c, h)

  or_else_trans :
      (a b c : A) (ab bc ac : Cmp)
      → (ab ≡ less → bc ≡ less → ac ≡ less)
      → or_else (f a b) ab ≡ less
      → or_else (f b c) bc ≡ less
      → or_else (f a c) ac ≡ less
  or_else_trans a b c ab bc ac h e k = ground (
    arith,
    h,
    o.flipped a b,
    o.flipped b c,
    o.flipped a c,
    o.same a b c,
    o.same c b a,
    o.same b c a,
    o.trans a b c,
  )

  module _ (d : A) where
    padded-flipped : (as' bs : List A) → padded f d bs as' ≡ flip (padded f d as' bs)
    unfolding padded
    padded-flipped [] [] = refl
    padded-flipped [] (b ∷ bs) = ground (arith, o.flipped d b, padded-flipped [] bs)
    padded-flipped (a ∷ as') [] = ground (arith, o.flipped a d, padded-flipped as' [])
    padded-flipped (a ∷ as') (b ∷ bs) = ground (arith, o.flipped a b, padded-flipped as' bs)

    padded-same :
        (as' bs cs : List A) → padded f d as' bs ≡ equal → padded f d as' cs ≡ padded f d bs cs
    unfolding padded
    padded-same [] [] cs h = refl
    padded-same [] (b ∷ bs) [] h = ground (arith, h, padded-flipped [] (b ∷ bs))
    padded-same [] (b ∷ bs) (c ∷ cs) h =
        or_else-same d b c (padded f d [] bs) (padded f d [] cs) (padded f d bs cs)
          (padded-same [] bs cs) h
    padded-same (a ∷ as') [] [] h = h
    padded-same (a ∷ as') [] (c ∷ cs) h =
        or_else-same a d c (padded f d as' []) (padded f d as' cs) (padded f d [] cs)
          (padded-same as' [] cs) h
    padded-same (a ∷ as') (b ∷ bs) [] h =
        or_else-same a b d (padded f d as' bs) (padded f d as' []) (padded f d bs [])
          (padded-same as' bs []) h
    padded-same (a ∷ as') (b ∷ bs) (c ∷ cs) h =
        or_else-same a b c (padded f d as' bs) (padded f d as' cs) (padded f d bs cs)
          (padded-same as' bs cs) h

    padded_trans :
        (as' bs cs : List A)
        → padded f d as' bs ≡ less
        → padded f d bs cs ≡ less
        → padded f d as' cs ≡ less
    unfolding padded
    padded_trans [] [] cs h k = absurd (ground arith)
    padded_trans [] (b ∷ bs) [] h k = absurd (ground (arith, h, k, padded-flipped [] (b ∷ bs)))
    padded_trans [] (b ∷ bs) (c ∷ cs) h k =
        or_else_trans d b c (padded f d [] bs) (padded f d bs cs) (padded f d [] cs)
          (padded_trans [] bs cs) h k
    padded_trans (a ∷ as') [] [] h k = absurd (ground arith)
    padded_trans (a ∷ as') [] (c ∷ cs) h k =
        or_else_trans a d c (padded f d as' []) (padded f d [] cs) (padded f d as' cs)
          (padded_trans as' [] cs) h k
    padded_trans (a ∷ as') (b ∷ bs) [] h k =
        or_else_trans a b d (padded f d as' bs) (padded f d bs []) (padded f d as' [])
          (padded_trans as' bs []) h k
    padded_trans (a ∷ as') (b ∷ bs) (c ∷ cs) h k =
        or_else_trans a b c (padded f d as' bs) (padded f d bs cs) (padded f d as' cs)
          (padded_trans as' bs cs) h k

    pub padded-IsOrder : IsOrder (padded f d)
    padded-IsOrder = record { flipped = padded-flipped; same = padded-same; trans = padded_trans }

-- A comparison of what is computed from the values.
pub on-IsOrder {ℓ} :
    {A B : Type ℓ} (g : A → B) (f : B → B → Cmp) → IsOrder f → IsOrder (λ a b. f (g a) (g b))
on-IsOrder g f o = record {
  flipped = λ a b. o.flipped (g a) (g b);
  same = λ a b c. o.same (g a) (g b) (g c);
  trans = λ a b c. o.trans (g a) (g b) (g c);
}

-- Two comparisons in a row.
pub both-IsOrder {ℓ} :
    {A : Type ℓ} (f g : A → A → Cmp)
    → IsOrder f
    → IsOrder g
    → IsOrder (λ a b. or_else (f a b) (g a b))
both-IsOrder f g o q = record {
  flipped = λ a b. ground (arith, o.flipped a b, q.flipped a b);
  same = λ a b c. or_else-same f o a b c (g a b) (g a c) (g b c) (q.same a b c);
  trans = λ a b c. or_else_trans f o a b c (g a b) (g b c) (g a c) (q.trans a b c);
}

-- A comparison with the same results.
pub equal-IsOrder {ℓ} :
    {A : Type ℓ} (f g : A → A → Cmp) → ((a b : A) → g a b ≡ f a b) → IsOrder f → IsOrder g
equal-IsOrder f g e o = record {
  flipped = λ a b. e b a ∙ o.flipped a b ∙ ap flip (sym (e a b));
  same = λ a b c h. e a c ∙ o.same a b c (sym (e a b) ∙ h) ∙ sym (e b c);
  trans = λ a b c h k. e a c ∙ o.trans a b c (sym (e a b) ∙ h) (sym (e b c) ∙ k);
}
