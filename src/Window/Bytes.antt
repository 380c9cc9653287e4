-- ===== src/Window/Bytes.antt =====
-- Accesses of a window that no alias serves, byte by byte.
use qemu_ntb_switch.Prelude.{
  ℕ, zero, suc, ◌+◌, ◌*◌, ◌/◌, ◌%◌, ◌^◌, ◌≤◌, ◌<◌, ◌≡◌, refl, sym, arith, update, ap, ◌∙◌,
}
use native.Mathlib.Nat.{
  pow-suc, one-le-pow, mod-lt, div-add-mod, mod-eq_of_lt, mul-add-mod_self_left,
}
use qemu_ntb_switch.Window.{load, store}

store_below : (bytes : ℕ → ℕ) (a n v i : ℕ) → i < a → store bytes a n v i ≡ bytes i
unfolding store
store_below bytes a zero v i lt = refl
store_below bytes a (suc n) v i lt = ground (arith, store_below bytes (a + 1) n (v / 256) i)

store_above : (bytes : ℕ → ℕ) (a n v i : ℕ) → a + n ≤ i → store bytes a n v i ≡ bytes i
unfolding store
store_above bytes a zero v i le = refl
store_above bytes a (suc n) v i le = ground (arith, store_above bytes (a + 1) n (v / 256) i)

-- A store does not reach a load that lies behind it.
load-update : (bytes : ℕ → ℕ) (a b n v : ℕ) → b < a → load (update bytes b v) a n ≡ load bytes a n
unfolding load
load-update bytes a b zero v lt = refl
load-update bytes a b (suc n) v lt = ground (arith, load-update bytes (a + 1) b n v)

pow_step : (n : ℕ) → 256 ^ suc n ≡ 256 * 256 ^ n
pow_step n = omega (arith, pow-suc 256 n)

load-suc :
    (bytes : ℕ → ℕ) (a n : ℕ) → load bytes a (suc n) ≡ bytes a % 256 + 256 * load bytes (a + 1) n
unfolding load
load-suc bytes a n = refl

digit_step : (v m : ℕ) → 0 < m → v % 256 + 256 * (v / 256 % m) ≡ v % (256 * m)
digit_step v m pos =
    let x : ℕ = v % 256 + 256 * (v / 256 % m) in
    let q : ℕ = v / 256 / m in
    let small : x < 256 * m = omega (arith, mod-lt (v / 256) pos) in
    let split : v ≡ 256 * m * q + x = omega (arith, div-add-mod (v / 256) m) in
    sym (ap (λ t. t % (256 * m)) split ∙ mul-add-mod_self_left (256 * m) q x ∙ mod-eq_of_lt small)

load-store_tail :
    (bytes : ℕ → ℕ) (a n v : ℕ)
    → load (store bytes a (suc n) v) (a + 1) n ≡ load (store bytes (a + 1) n (v / 256)) (a + 1) n
unfolding store
load-store_tail bytes a n v =
    load-update (store bytes (a + 1) n (v / 256)) (a + 1) a n (v % 256) (omega arith)

store_head : (bytes : ℕ → ℕ) (a n v : ℕ) → store bytes a (suc n) v a ≡ v % 256
unfolding store
store_head bytes a n v = ground arith

-- What is stored at an address is loaded from it, cut to the number of bytes.
pub load-store : (bytes : ℕ → ℕ) (a n v : ℕ) → load (store bytes a n v) a n ≡ v % 256 ^ n
load-store bytes a zero v = unfold load store in (omega arith)
load-store bytes a (suc n) v =
    load-suc (store bytes a (suc n) v) a n
    ∙ (rw
        (store_head bytes a n v, load-store_tail bytes a n v, load-store bytes (a + 1) n (v / 256))
        (rw (pow_step n) (omega (arith, digit_step v (256 ^ n) (one-le-pow n 256 (omega arith))))))
