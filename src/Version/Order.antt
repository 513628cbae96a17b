-- ===== src/Version/Order.antt =====
-- The order that compare gives.
use server_monitor.Common.{
  ℕ, zero, suc, ◌≤◌, ◌≡◌, refl, arith, true, false, Option, none, some, List, [], ◌∷◌, length, ite,
}
use server_monitor.Common.Int64.{two63}
use server_monitor.Repository.Paths.{Name, Name-discrete}
use server_monitor.Version.{
  Cmp, less, equal, greater, cmp_nat, cmp_text, atoi, or_zero, core_segment, core_loop, longer,
  compare_core, compare_parsed, compare_identifier, prerelease_loop, compare_prerelease, compare,
  is_newer, split, split_prerelease,
}
use server_monitor.Version.Laws.{
  flip, or_else, IsOrder, cmp_nat-IsOrder, lex, lex-IsOrder, padded, padded-IsOrder, on-IsOrder,
  both-IsOrder, equal-IsOrder,
}

cmp_text-lex : (a b : Name) → cmp_text a b ≡ lex cmp_nat a b
unfolding cmp_text lex
cmp_text-lex [] [] = refl
cmp_text-lex [] (b ∷ bs) = refl
cmp_text-lex (a ∷ as') [] = refl
cmp_text-lex (a ∷ as') (b ∷ bs) = ground (arith, cmp_text-lex as' bs)

cmp_text-IsOrder : IsOrder cmp_text
cmp_text-IsOrder =
    equal-IsOrder (lex cmp_nat) cmp_text cmp_text-lex (lex-IsOrder cmp_nat cmp_nat-IsOrder)

compare_parsed-flipped :
    (x y : Option ℕ) (a b : Name) → compare_parsed y x b a ≡ flip (compare_parsed x y a b)
compare_parsed-flipped (some x) (some y) a b = cmp_nat-IsOrder.flipped x y
compare_parsed-flipped (some x) none a b = refl
compare_parsed-flipped none (some y) a b = refl
compare_parsed-flipped none none a b = cmp_text-IsOrder.flipped a b

compare_parsed-same :
    (x y z : Option ℕ) (a b c : Name)
    → compare_parsed x y a b ≡ equal
    → compare_parsed x z a c ≡ compare_parsed y z b c
compare_parsed-same (some x) (some y) (some z) a b c h = cmp_nat-IsOrder.same x y z h
compare_parsed-same (some x) (some y) none a b c h = refl
compare_parsed-same (some x) none z a b c h = absurd (ground arith)
compare_parsed-same none (some y) z a b c h = absurd (ground arith)
compare_parsed-same none none (some z) a b c h = refl
compare_parsed-same none none none a b c h = cmp_text-IsOrder.same a b c h

compare_parsed_trans :
    (x y z : Option ℕ) (a b c : Name)
    → compare_parsed x y a b ≡ less
    → compare_parsed y z b c ≡ less
    → compare_parsed x z a c ≡ less
compare_parsed_trans (some x) (some y) (some z) a b c h k = cmp_nat-IsOrder.trans x y z h k
compare_parsed_trans (some x) (some y) none a b c h k = refl
compare_parsed_trans (some x) none (some z) a b c h k = absurd (ground arith)
compare_parsed_trans (some x) none none a b c h k = refl
compare_parsed_trans none (some y) z a b c h k = absurd (ground arith)
compare_parsed_trans none none (some z) a b c h k = absurd (ground arith)
compare_parsed_trans none none none a b c h k = cmp_text-IsOrder.trans a b c h k

compare_identifier-IsOrder : IsOrder compare_identifier
unfolding compare_identifier
compare_identifier-IsOrder = record {
  flipped = λ a b. compare_parsed-flipped (atoi a) (atoi b) a b;
  same = λ a b c. compare_parsed-same (atoi a) (atoi b) (atoi c) a b c;
  trans = λ a b c. compare_parsed_trans (atoi a) (atoi b) (atoi c) a b c;
}

prerelease_loop-lex : (a b : List Name) → prerelease_loop a b ≡ lex compare_identifier a b
unfolding prerelease_loop lex
prerelease_loop-lex [] [] = refl
prerelease_loop-lex [] (b ∷ bs) = refl
prerelease_loop-lex (a ∷ as') [] = refl
prerelease_loop-lex (a ∷ as') (b ∷ bs) = ground (arith, prerelease_loop-lex as' bs)

prerelease_loop-IsOrder : IsOrder prerelease_loop
prerelease_loop-IsOrder =
    equal-IsOrder (lex compare_identifier) prerelease_loop prerelease_loop-lex
      (lex-IsOrder compare_identifier compare_identifier-IsOrder)

-- A release comes after each of its prereleases.
abbrev release_last : Name → Name → Cmp
release_last a b =
    ite (Name-discrete a []) (ite (Name-discrete b []) equal greater)
      (ite (Name-discrete b []) less equal)

release_last-IsOrder : IsOrder release_last
release_last-IsOrder = record {
  flipped = λ a b. ground arith;
  same = λ a b c h. ground arith;
  trans = λ a b c h k. ground arith;
}

-- On two prereleases the loop decides, and on two releases there is nothing to decide.
parts_order : Name → Name → Cmp
parts_order a b = prerelease_loop (split b'.' a) (split b'.' b)

parts_order-IsOrder : IsOrder parts_order
unfolding parts_order
parts_order-IsOrder = on-IsOrder (split b'.') prerelease_loop prerelease_loop-IsOrder

compare_prerelease-both :
    (a b : Name) → compare_prerelease a b ≡ or_else (release_last a b) (parts_order a b)
unfolding compare_prerelease parts_order
compare_prerelease-both a b =
    ground (arith, parts_order-IsOrder.flipped a a, parts_order-IsOrder.flipped b b)

compare_prerelease-IsOrder : IsOrder compare_prerelease
compare_prerelease-IsOrder =
    equal-IsOrder (λ a b. or_else (release_last a b) (parts_order a b)) compare_prerelease
      compare_prerelease-both
      (both-IsOrder release_last parts_order release_last-IsOrder parts_order-IsOrder)

-- The core as its numbers, 0 where a number is missing.
abbrev core_number : Name → ℕ
core_number p = or_zero (atoi p)

abbrev core_numbers : List Name → List ℕ
core_numbers [] = []
core_numbers (p ∷ ps) = core_number p ∷ core_numbers ps

core_loop-padded :
    (n : ℕ) (as' bs : List Name)
    → length as' ≤ n
    → length bs ≤ n
    → core_loop n as' bs ≡ padded cmp_nat two63 (core_numbers as') (core_numbers bs)
unfolding core_loop padded core_segment
core_loop-padded zero [] [] h k = refl
core_loop-padded (suc n) [] [] h k = core_loop-padded n [] [] (ground arith) (ground arith)
core_loop-padded zero [] (b ∷ bs) h k = absurd (ground arith)
core_loop-padded (suc n) [] (b ∷ bs) h k = ground (arith, core_loop-padded n [] bs)
core_loop-padded zero (a ∷ as') bs h k = absurd (ground arith)
core_loop-padded (suc n) (a ∷ as') [] h k = ground (arith, core_loop-padded n as' [])
core_loop-padded (suc n) (a ∷ as') (b ∷ bs) h k = ground (arith, core_loop-padded n as' bs)

compare_core-padded :
    (a b : Name)
    → compare_core a b
      ≡ padded cmp_nat two63 (core_numbers (split b'.' a)) (core_numbers (split b'.' b))
unfolding compare_core
compare_core-padded a b =
    core_loop-padded (longer (length (split b'.' a)) (length (split b'.' b))) (split b'.' a)
      (split b'.' b) (ground arith) (ground arith)

compare_core-IsOrder : IsOrder compare_core
compare_core-IsOrder =
    equal-IsOrder
      (λ a b. padded cmp_nat two63 (core_numbers (split b'.' a)) (core_numbers (split b'.' b)))
      compare_core compare_core-padded
      (on-IsOrder (λ a. core_numbers (split b'.' a)) (padded cmp_nat two63)
        (padded-IsOrder cmp_nat cmp_nat-IsOrder two63))

compare-both :
    (a b : Name)
    → compare a b
      ≡ or_else
          (compare_core (split_prerelease a).0 (split_prerelease b).0)
          (compare_prerelease (split_prerelease a).1 (split_prerelease b).1)
unfolding compare
compare-both a b = ground arith

pub compare-IsOrder : IsOrder compare
compare-IsOrder =
    equal-IsOrder
      (λ a b.
        or_else (compare_core (split_prerelease a).0 (split_prerelease b).0)
          (compare_prerelease (split_prerelease a).1 (split_prerelease b).1))
      compare compare-both
      (both-IsOrder (λ a b. compare_core (split_prerelease a).0 (split_prerelease b).0)
        (λ a b. compare_prerelease (split_prerelease a).1 (split_prerelease b).1)
        (on-IsOrder (λ a. (split_prerelease a).0) compare_core compare_core-IsOrder)
        (on-IsOrder (λ a. (split_prerelease a).1) compare_prerelease compare_prerelease-IsOrder))

-- The order of versions. With the arguments exchanged, compare gives the opposite result; versions that it finds equal
-- have the same results against every third version; and less is transitive. So is IsNewer, and no version is newer
-- than one that is newer than it.
pub is_newer-order :
    (a b c : Name)
    → (compare b a ≡ flip (compare a b))
      × (compare a b ≡ equal → compare a c ≡ compare b c)
      × (compare a b ≡ less → compare b c ≡ less → compare a c ≡ less)
      × (is_newer a b ≡ true → is_newer b a ≡ false)
      × (is_newer a b ≡ true → is_newer b c ≡ true → is_newer a c ≡ true)
unfolding is_newer
is_newer-order a b c = (
  compare-IsOrder.flipped a b,
  compare-IsOrder.same a b c,
  compare-IsOrder.trans a b c,
  λ h. ground (arith, h, compare-IsOrder.flipped a b),
  λ h k. ground (
    arith,
    h,
    k,
    compare-IsOrder.flipped a b,
    compare-IsOrder.flipped b c,
    compare-IsOrder.flipped a c,
    compare-IsOrder.trans c b a,
  ),
)
