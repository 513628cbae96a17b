-- ===== src/Ipban/Tracker/Rates.antt =====
-- The sliding windows and the times inside them (rateWindow).
use mathlib.Core.List.{append-nil, append_assoc}
use server_monitor.Common.{
  ℕ, ◌≤◌, ◌<◌, ◌≡◌, refl, sym, ap, ◌∙◌, arith, ltb, List, [], ◌∷◌, ◌++◌, length, keep, All,
}
use server_monitor.Common.Int64.{time_add}
use server_monitor.Ipban.Tracker.{RateWindow, drop_old, add_stamp, count_stamps}

-- The times do not go back, and all lie from `at` on.
abbrev pub IsRising : ℕ → List ℕ → Type 0
IsRising at [] = Unit
IsRising at (s ∷ ss) = (at ≤ s) × IsRising s ss

abbrev pub in_window : ℕ → ℕ → List ℕ → List ℕ
in_window now window = keep (λ s. ltb now (time_add s window))

-- Once the loop meets a time inside the window, all that follow are inside too.
keep_all :
    (now window at : ℕ) (ss : List ℕ)
    → now < time_add at window
    → IsRising at ss
    → in_window now window ss ≡ ss
keep_all now window at [] h r = refl
keep_all now window at (s ∷ ss) h r = ground (arith, keep_all now window s ss)

drop_old-in_window :
    (now window at : ℕ) (ss : List ℕ)
    → IsRising at ss
    → drop_old now window ss ≡ in_window now window ss
unfolding drop_old
drop_old-in_window now window at [] r = refl
drop_old-in_window now window at (s ∷ ss) r =
    ground (arith, keep_all now window s ss, drop_old-in_window now window s ss)

in_window-append :
    (now window : ℕ) (xs ys : List ℕ)
    → in_window now window (xs ++ ys) ≡ in_window now window xs ++ in_window now window ys
in_window-append now window [] ys = refl
in_window-append now window (x ∷ xs) ys = ground (arith, in_window-append now window xs ys)

in_window-in_window :
    (now later window : ℕ) (ss : List ℕ)
    → now ≤ later
    → in_window later window (in_window now window ss) ≡ in_window later window ss
in_window-in_window now later window [] h = refl
in_window-in_window now later window (s ∷ ss) h =
    ground (arith, in_window-in_window now later window ss h)

IsRising-le : (at from : ℕ) (ss : List ℕ) → at ≤ from → IsRising from ss → IsRising at ss
IsRising-le at from [] h r = tt
IsRising-le at from (s ∷ ss) h r = (omega arith, r.1)

IsRising-in_window :
    (now window at : ℕ) (ss ts : List ℕ)
    → IsRising at (ss ++ ts)
    → IsRising at (in_window now window ss ++ ts)
IsRising-in_window now window at [] ts r = r
IsRising-in_window now window at (s ∷ ss) ts r = ground (
  arith,
  IsRising-in_window now window s ss ts r.1,
  IsRising-le at s (in_window now window ss ++ ts) r.0,
)

IsRising-append : (at : ℕ) (ss ts : List ℕ) → IsRising at (ss ++ ts) → IsRising at ss
IsRising-append at [] ts r = tt
IsRising-append at (s ∷ ss) ts r = (r.0, IsRising-append s ss ts r.1)

-- Adding one time after another.
pub adds : List ℕ → RateWindow → RateWindow
adds [] r = r
adds (t ∷ ts) r = adds ts (add_stamp t r)

drop_old-adds :
    (ts ss : List ℕ) (window at later : ℕ)
    → IsRising at (ss ++ ts)
    → All (λ t. t ≤ later) ts
    → drop_old later window (adds ts (record { window = window; stamps = ss })).stamps
      ≡ in_window later window (ss ++ ts)
unfolding adds add_stamp
drop_old-adds [] ss window at later r h =
    drop_old-in_window later window at ss (IsRising-append at ss [] r)
    ∙ ap (in_window later window) (sym (append-nil ss))
drop_old-adds (t ∷ ts) ss window at later r h =
    let r' : IsRising at ((ss ++ (t ∷ [])) ++ ts) = rw append_assoc r in
    let e = drop_old-in_window t window at (ss ++ (t ∷ [])) (IsRising-append at _ ts r') in
    ap (λ l. drop_old later window (adds ts (record { window = window; stamps = l })).stamps) e
    ∙ (drop_old-adds ts (in_window t window (ss ++ (t ∷ []))) window at later
          (IsRising-in_window t window at (ss ++ (t ∷ [])) ts r') h.1
        ∙ in_window-append later window _ ts
        ∙ ap (λ l. l ++ in_window later window ts)
            (in_window-in_window t later window (ss ++ (t ∷ [])) h.0)
        ∙ sym (in_window-append later window (ss ++ (t ∷ [])) ts)
        ∙ ap (in_window later window) (append_assoc ss (t ∷ []) ts))

abbrev pub new_window : ℕ → RateWindow
new_window window = record { window = window; stamps = [] }

window-adds : (ts : List ℕ) (r : RateWindow) → (adds ts r).window ≡ r.window
unfolding adds add_stamp
window-adds [] r = refl
window-adds (t ∷ ts) r = window-adds ts (add_stamp t r)

-- After times that do not go back have been added, Count at a time no earlier than them is the number of
-- them inside the window that ends there.
pub count_stamps-adds :
    (window later : ℕ) (ts : List ℕ)
    → IsRising 0 ts
    → All (λ t. t ≤ later) ts
    → (count_stamps later (adds ts (new_window window))).1 ≡ length (in_window later window ts)
unfolding count_stamps
count_stamps-adds window later ts r h =
    ap (λ w. length (drop_old later w (adds ts (new_window window)).stamps))
      (window-adds ts (new_window window))
    ∙ ap length (drop_old-adds ts [] window 0 later r h)
