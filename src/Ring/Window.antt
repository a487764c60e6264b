-- ===== src/Ring/Window.antt =====
-- Reading a run of slots of a circular buffer, and what a write leaves of it.
use native.Mathlib.Nat.{mod-add-mod, mod-eq_of_lt, mod-eq-sub-mod, mod-lt, mod-mod}
use native.Mathlib.Decide.{dec_lt}
use go_kd.Prelude.{
  ℕ, zero, suc, ◌+◌, ◌-◌, ◌%◌, ◌≤◌, ◌<◌, ◌≡◌, refl, sym, ◌≢◌, ap, ap₂, ◌∙◌, List, [], ◌∷◌, ◌++◌,
  arith, length, get_or, set, drop, get_or-set_self, get_or-set_ne,
}

module _ {ℓ} {A : Type ℓ} (cap : ℕ) (blank : A) where
  -- the `n` slots from the unreduced index `i` on
  abbrev pub window : List A → ℕ → ℕ → List A
  window xs i zero = []
  window xs i (suc n) = get_or xs (i % cap) blank ∷ window xs (i + 1) n

  pub length-window : (xs : List A) (i n : ℕ) → length (window xs i n) ≡ n
  length-window xs i zero = refl
  length-window xs i (suc n) = ap suc (length-window xs (i + 1) n)

  mod-suc : (i j : ℕ) → i % cap ≡ j % cap → (i + 1) % cap ≡ (j + 1) % cap
  mod-suc i j e = sym (mod-add-mod i cap 1) ∙ ap (λ k. (k + 1) % cap) e ∙ mod-add-mod j cap 1

  -- Only the index modulo the capacity matters.
  pub window_cong : (xs : List A) (i j n : ℕ) → i % cap ≡ j % cap → window xs i n ≡ window xs j n
  window_cong xs i j zero e = refl
  window_cong xs i j (suc n) e =
      ap₂ ◌∷◌ (ap (λ k. get_or xs k blank) e) (window_cong xs (i + 1) (j + 1) n (mod-suc i j e))

  pub window-suc :
      (xs : List A) (i n : ℕ)
      → window xs i (suc n) ≡ window xs i n ++ (get_or xs ((i + n) % cap) blank ∷ [])
  window-suc xs i zero = ap (λ k. get_or xs (k % cap) blank ∷ []) (omega arith)
  window-suc xs i (suc n) = ap (◌∷◌ (get_or xs (i % cap) blank)) (
      window-suc xs (i + 1) n
      ∙ ap (λ k. window xs (i + 1) n ++ (get_or xs (k % cap) blank ∷ [])) (omega arith))

  pub drop-window :
      (xs : List A) (i k n : ℕ) → k ≤ n → drop k (window xs i n) ≡ window xs (i + k) (n - k)
  drop-window xs i zero n h = ap₂ (window xs) (omega arith) (omega arith)
  drop-window xs i (suc k) zero h = absurd (omega arith)
  drop-window xs i (suc k) (suc n) h =
      drop-window xs (i + 1) k n (omega arith) ∙ ap₂ (window xs) (omega arith) (omega arith)

  -- Fewer than `cap` slots apart, two indices name two slots.
  mod-ne : (j k : ℕ) → j < k → k < j + cap → j % cap ≢ k % cap
  mod-ne j k h h' e =
      let d = k - j in
      let a = j % cap in
      let at : (a + d) % cap ≡ a = mod-add-mod j cap d ∙ ap (λ m. m % cap) (omega arith) ∙ sym e in
      let small : a < cap = mod-lt j (omega arith) in
      elim (dec_lt (a + d) cap) [
        | yes p ↦ omega (arith, mod-eq_of_lt p)
        | no p ↦ omega (
          arith,
          mod-eq-sub-mod {n = a + d} {m = cap} (omega arith),
          mod-eq_of_lt {n = a + d - cap} {m = cap} (omega arith),
        )
      ]

  -- A write past a window, and not so far that it comes round, leaves the window as it was.
  pub window-set_past :
      (xs : List A) (i k n : ℕ) (v : A)
      → i + n ≤ k
      → k < i + cap
      → window (set xs (k % cap) v) i n ≡ window xs i n
  window-set_past xs i k zero v h h' = refl
  window-set_past xs i k (suc n) v h h' =
      ap₂ ◌∷◌ (get_or-set_ne xs v blank (λ e. mod-ne i k (omega arith) h' (sym e)))
        (window-set_past xs (i + 1) k n v (omega arith) (omega arith))

  -- A write just past a window extends it.
  pub window-set_end :
      (xs : List A) (i n : ℕ) (v : A)
      → n < cap
      → cap ≤ length xs
      → window (set xs ((i + n) % cap) v) i (suc n) ≡ window xs i n ++ (v ∷ [])
  window-set_end xs i n v h h' =
      window-suc (set xs ((i + n) % cap) v) i n
      ∙ ap₂ (λ l x. l ++ (x ∷ [])) (window-set_past xs i (i + n) n v (omega arith) (omega arith))
          (get_or-set_self xs ((i + n) % cap) v blank
            (omega (arith, mod-lt (i + n) {m = cap} (omega arith))))

  -- On a full buffer, the write at the head that moves the head on drops the oldest value.
  pub window-set_full :
      (xs : List A) (head : ℕ) (v : A)
      → head < cap
      → cap ≤ length xs
      → window (set xs head v) ((head + 1) % cap) cap ≡ drop 1 (window xs head cap) ++ (v ∷ [])
  window-set_full xs head v h h' =
      let n = cap - 1 in
      let whole : cap ≡ suc n = omega arith in
      let full_turn : head + 1 + n - cap ≡ head = omega arith in
      let last : (head + 1 + n) % cap ≡ head =
        mod-eq-sub-mod (omega arith) ∙ ap (λ m. m % cap) full_turn ∙ mod-eq_of_lt h in
      window_cong (set xs head v) ((head + 1) % cap) (head + 1) cap (mod-mod (head + 1) cap)
      ∙ ap₂ (λ k m. window (set xs k v) (head + 1) m) (sym last) whole
      ∙ window-set_end xs (head + 1) n v (omega arith) h'
      ∙ ap (λ l. l ++ (v ∷ [])) (sym (drop-window xs head 1 cap (omega arith)))
