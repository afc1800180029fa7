-- ===== src/Receive/Window.antt =====
-- SlideWindow of file.cpp: the window moves to the first packet that has not arrived.
use boost_asio_threadpool.Base.{
  ==_iff, Bool, Bool-cases, List, arith, false, get_or, get_or_beyond, get_or_within, ap, inl, inr,
  length, ltb, ltb→le, ltb→lt, refl, some, suc, sym, true, zero, ℕ, ◌+◌, ◌<◌, ◌==◌, ◌∙◌, ◌≡◌, ◌≤◌,
}
use mathlib.Core.Bool.{false≢true}
use boost_asio_threadpool.Receive.{slide_window}

-- Where a slide that begins at `start` ends: the first clear flag from there on.
pub record FirstClear (flags : List Bool) (start t : ℕ) : Type 0 where
  pub onwards : start ≤ t
  pub clear : get_or flags t false ≡ false
  pub full : (i : ℕ) → start ≤ i → i < t → get_or flags i false ≡ true

pub set_within : (flags : List Bool) (i : ℕ) → get_or flags i false ≡ true → i + 1 ≤ length flags
set_within flags i h = elim (Bool-cases (ltb i (length flags))) [
  | inl p ↦ omega (arith, ltb→lt i (length flags) p)
  | inr p ↦ absurd (false≢true (sym (get_or_beyond flags i false (ltb→le _ _ p)) ∙ h))
]

full_from :
    (flags : List Bool) (start t : ℕ)
    → get_or flags start false ≡ true
    → FirstClear flags (start + 1) t
    → (i : ℕ) → start ≤ i
    → i < t
    → get_or flags i false ≡ true
full_from flags start t h c i p q = elim (Bool-cases (i == start)) [
  | inl e ↦ rw ((==_iff i start).0 e) h
  | inr ne ↦ c.full i (ground arith) q
]

-- With enough fuel the slide ends, where nothing set is read past the end.
pub slide_window-FirstClear :
    (fuel : ℕ) (flags : List Bool) (start : ℕ)
    → length flags < fuel + start
    → start ≤ length flags
    → (t : ℕ) × (slide_window false fuel flags start ≡ some t) × FirstClear flags start t
unfolding slide_window
slide_window-FirstClear zero flags start h b = absurd (omega arith)
slide_window-FirstClear (suc fuel) flags start h b = elim (Bool-cases (get_or flags start false)) [
  | inl set_here ↦
      let (t, e, c) =
        slide_window-FirstClear fuel flags (start + 1) (omega arith)
          (set_within flags start set_here) in
      (
        t,
        rw set_here e,
        record {
          onwards = omega (arith, c.onwards);
          clear = c.clear;
          full = λ i p q. full_from flags start t set_here c i p q;
        },
      )
  | inr clear_here ↦ (
    start,
    rw clear_here refl,
    record { onwards = omega arith; clear = clear_here; full = λ i p q. absurd (omega arith) },
  )
]

-- A slide that ends at a flag reads none behind them.
pub slide_window_inside :
    (beyond : Bool) (fuel : ℕ) (flags : List Bool) (start t : ℕ)
    → t < length flags
    → slide_window false fuel flags start ≡ some t
    → slide_window beyond fuel flags start ≡ some t
unfolding slide_window
slide_window_inside beyond zero flags start t h e = cc
slide_window_inside beyond (suc fuel) flags start t h e =
    elim (Bool-cases (get_or flags start false)) [
      | inl set_here ↦
          let same = get_or_within flags start beyond false (set_within_lt flags start set_here) in
          rw (same, set_here)
            (slide_window_inside beyond fuel flags (start + 1) t h (rw set_here at e))
      | inr clear_here ↦
          let here : start ≡ t = (let same : some start ≡ some t = rw clear_here at e in cc) in
          let same = get_or_within flags start beyond false (omega (arith, here)) in
          rw (same, clear_here) (ap some here)
    ]
  where
    set_within_lt : (flags : List Bool) (i : ℕ) → get_or flags i false ≡ true → i < length flags
    set_within_lt flags i g = omega (arith, set_within flags i g)
