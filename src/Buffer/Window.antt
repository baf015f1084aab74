-- ===== src/Buffer/Window.antt =====
-- The bytes between two indices, under the copies of pulsar-client-go/pulsar/internal/buffer.go.
use pr.Base.{
  [], ap, arith, drop, length, length-drop, length-take, refl, suc, take, zero, ℕ, ◌++◌, ◌+◌, ◌-◌,
  ◌∷◌, ◌≡◌, ◌≤◌,
}
use pr.Buffer.{Bytes, overlay, copy_at}

abbrev pub window : Bytes → ℕ → ℕ → Bytes
window d r w = take (w - r) (drop r d)

pub length-overlay : (d s : Bytes) → length (overlay d s) ≡ length d
length-overlay [] s = refl
length-overlay (x ∷ d) [] = refl
length-overlay (x ∷ d) (y ∷ s) = ap suc (length-overlay d s)

pub length-copy_at : (d : Bytes) (i : ℕ) (s : Bytes) → length (copy_at d i s) ≡ length d
length-copy_at [] zero s = refl
length-copy_at (x ∷ d) zero s = length-overlay (x ∷ d) s
length-copy_at [] (suc i) s = refl
length-copy_at (x ∷ d) (suc i) s = ap suc (length-copy_at d i s)

-- What is copied stands at the start.
pub take-overlay : (d s : Bytes) → length s ≤ length d → take (length s) (overlay d s) ≡ s
take-overlay [] [] h = refl
take-overlay [] (y ∷ s) h = absurd (omega arith)
take-overlay (x ∷ d) [] h = refl
take-overlay (x ∷ d) (y ∷ s) h = ap (λ t. y ∷ t) (take-overlay d s (omega arith))

take-copy_at :
    (d : Bytes) (w : ℕ) (s : Bytes)
    → w + length s ≤ length d
    → take (w + length s) (copy_at d w s) ≡ take w d ++ s
take-copy_at d zero s h =
    let e : 0 + length s ≡ length s = omega arith in rw e (take-overlay d s (omega arith))
take-copy_at [] (suc w) s h = absurd (omega arith)
take-copy_at (x ∷ d) (suc w) s h =
    let e : suc w + length s ≡ suc (w + length s) = omega arith in
    rw e (ap (λ t. x ∷ t) (take-copy_at d w s (omega arith)))

-- A copy just past a window extends it by what is copied.
pub window-copy_at :
    (d : Bytes) (r w : ℕ) (s : Bytes)
    → r ≤ w
    → w + length s ≤ length d
    → window (copy_at d w s) r (w + length s) ≡ window d r w ++ s
window-copy_at d zero w s h l =
    let e : w + length s - 0 ≡ w + length s = omega arith in
    let e' : w - 0 ≡ w = omega arith in rw (e, e') (take-copy_at d w s l)
window-copy_at d (suc r) zero s h l = absurd (omega arith)
window-copy_at [] (suc r) (suc w) s h l = absurd (omega arith)
window-copy_at (x ∷ d) (suc r) (suc w) s h l =
    let e : suc w + length s - suc r ≡ w + length s - r = omega arith in
    let e' : suc w - suc r ≡ w - r = omega arith in
    rw (e, e') (window-copy_at d r w s (omega arith) (omega arith))

pub length-window : (d : Bytes) (r w : ℕ) → r ≤ w → w ≤ length d → length (window d r w) ≡ w - r
length-window d r w h l = omega (arith, length-take (w - r) (drop r d), length-drop r d)

take-split : (d : Bytes) (n k : ℕ) → take (n + k) d ≡ take n d ++ take k (drop n d)
take-split d zero k = let e : 0 + k ≡ k = omega arith in rw e
take-split [] (suc n) zero = let e : suc n + 0 ≡ suc n = omega arith in rw e
take-split [] (suc n) (suc k) = let e : suc n + suc k ≡ suc (n + suc k) = omega arith in rw e
take-split (x ∷ d) (suc n) k =
    let e : suc n + k ≡ suc (n + k) = omega arith in rw e (ap (λ t. x ∷ t) (take-split d n k))

drop-drop : (d : Bytes) (r n : ℕ) → drop n (drop r d) ≡ drop (r + n) d
drop-drop d zero n = let e : 0 + n ≡ n = omega arith in rw e
drop-drop [] (suc r) zero = let e : suc r + 0 ≡ suc r = omega arith in rw e
drop-drop [] (suc r) (suc n) = let e : suc r + suc n ≡ suc (r + suc n) = omega arith in rw e
drop-drop (x ∷ d) (suc r) n =
    let e : suc r + n ≡ suc (r + n) = omega arith in rw e (drop-drop d r n)

-- A window falls into its first bytes and the window after them.
pub window-split :
    (d : Bytes) (r n w : ℕ) → r + n ≤ w → window d r w ≡ take n (drop r d) ++ window d (r + n) w
window-split d r n w h =
    let e : w - r ≡ n + (w - (r + n)) = omega arith in
    rw e (rw (← drop-drop d r n) (take-split (drop r d) n (w - (r + n))))
