-- ===== src/Registers/Fields.antt =====
-- Reading a field after an assignment: of the same field, or of one that lies apart.
use native.Mathlib.Nat.{
  pow-suc, one-le-pow, mul-add-div_right, div-eq_of_lt, mod-lt, mod-eq_of_lt,
  mul-add-mod_self_right, div-div-eq-div-mul, mul-le-mul_right, div-add-mod',
}
use raspdif.Prelude.{ℕ, zero, suc, ◌+◌, ◌-◌, ◌*◌, ◌/◌, ◌%◌, ◌^◌, ◌≤◌, ◌<◌, ◌≡◌, sym, ap, ◌∙◌, arith}
use raspdif.Registers.{Field, get, put}

two-pow_add : (a b : ℕ) → 2 ^ (a + b) ≡ 2 ^ a * 2 ^ b
two-pow_add a zero = let same : a + 0 ≡ a = omega arith in rw same (omega arith)
two-pow_add a (suc b) =
    let next : a + suc b ≡ suc (a + b) = omega arith in
    rw (next, pow-suc 2 (a + b), pow-suc 2 b, two-pow_add a b) (grind arith)

regroup : (h a b r z : ℕ) → h * (a * b) + r * a + z ≡ (h * b + r) * a + z
regroup h a b r z = grind arith

module _ (f : Field) (v x : ℕ) where
  high : ℕ
  high = x / 2 ^ (f.lo + f.width)

  stored : ℕ
  stored = v % 2 ^ f.width

  put-split : put f v x ≡ (high * 2 ^ f.width + stored) * 2 ^ f.lo + x % 2 ^ f.lo
  unfolding high stored
  put-split = rw (two-pow_add f.lo f.width) (
      regroup (x / (2 ^ f.lo * 2 ^ f.width)) (2 ^ f.lo) (2 ^ f.width) (v % 2 ^ f.width)
        (x % 2 ^ f.lo))

  low-lt : (k : ℕ) → x % 2 ^ k < 2 ^ k
  low-lt k = mod-lt x (one-le-pow k 2 (omega arith))

  -- The field itself reads as what was assigned, cut to its width.
  pub get-put_self : get f (put f v x) ≡ v % 2 ^ f.width
  unfolding stored
  get-put_self =
      let q = high * 2 ^ f.width + stored in
      let nothing : x % 2 ^ f.lo / 2 ^ f.lo ≡ 0 = div-eq_of_lt (low-lt f.lo) in
      let shifted : (q * 2 ^ f.lo + x % 2 ^ f.lo) / 2 ^ f.lo ≡ q =
        mul-add-div_right (one-le-pow f.lo 2 (omega arith)) q (x % 2 ^ f.lo)
        ∙ omega (arith, nothing) in
      ap (get f) put-split
      ∙ ap (λ t. t % 2 ^ f.width) shifted
      ∙ mul-add-mod_self_right high (2 ^ f.width) stored
      ∙ mod-eq_of_lt (mod-lt v (one-le-pow f.width 2 (omega arith)))

  rest-lt : stored * 2 ^ f.lo + x % 2 ^ f.lo < 2 ^ (f.lo + f.width)
  unfolding stored
  rest-lt =
      let bound = mul-le-mul_right (2 ^ f.lo) (mod-lt v (one-le-pow f.width 2 (omega arith))) in
      rw (two-pow_add f.lo f.width) (grind (arith, bound, low-lt f.lo))

  -- Above the field nothing changes.
  high_kept : put f v x / 2 ^ (f.lo + f.width) ≡ high
  unfolding high stored
  high_kept =
      let rest = v % 2 ^ f.width * 2 ^ f.lo + x % 2 ^ f.lo in
      let nothing : rest / 2 ^ (f.lo + f.width) ≡ 0 = div-eq_of_lt rest-lt in
      let grouped : put f v x ≡ x / 2 ^ (f.lo + f.width) * 2 ^ (f.lo + f.width) + rest =
        omega arith in
      ap (λ t. t / 2 ^ (f.lo + f.width)) grouped
      ∙ mul-add-div_right (one-le-pow (f.lo + f.width) 2 (omega arith)) (x / 2 ^ (f.lo + f.width))
          rest
      ∙ omega (arith, nothing)

  -- A field that lies higher keeps its value.
  pub get-put_above : (g : Field) → f.lo + f.width ≤ g.lo → get g (put f v x) ≡ get g x
  unfolding high
  get-put_above g h =
      ap (λ t. t % 2 ^ g.width)
        (shift_twice (put f v x)
          ∙ ap (λ t. t / 2 ^ (g.lo - (f.lo + f.width))) high_kept
          ∙ sym (shift_twice x))
    where
      shift_twice :
          (y : ℕ) → y / 2 ^ g.lo ≡ y / 2 ^ (f.lo + f.width) / 2 ^ (g.lo - (f.lo + f.width))
      shift_twice y =
          let split : g.lo ≡ f.lo + f.width + (g.lo - (f.lo + f.width)) = omega (arith, h) in
          ap (λ k. y / 2 ^ k) split
          ∙ ap (λ k. y / k) (two-pow_add (f.lo + f.width) (g.lo - (f.lo + f.width)))
          ∙ sym (div-div-eq-div-mul y (2 ^ (f.lo + f.width)) (2 ^ (g.lo - (f.lo + f.width))))

  -- What lies above a field does not show in it.
  get-above : (g : Field) (m z : ℕ) → g.lo + g.width ≤ f.lo → get g (m * 2 ^ f.lo + z) ≡ get g z
  get-above g m z h =
      let d = f.lo - (g.lo + g.width) in
      let split : f.lo ≡ g.lo + g.width + d = omega (arith, h) in
      let power : 2 ^ f.lo ≡ 2 ^ g.lo * 2 ^ g.width * 2 ^ d =
        ap (λ k. 2 ^ k) split
        ∙ two-pow_add (g.lo + g.width) d
        ∙ ap (λ t. t * 2 ^ d) (two-pow_add g.lo g.width) in
      let grouped : m * 2 ^ f.lo + z ≡ m * 2 ^ d * 2 ^ g.width * 2 ^ g.lo + z =
        grind (arith, power) in
      ap (get g) grouped
      ∙ ap (λ t. t % 2 ^ g.width)
          (mul-add-div_right (one-le-pow g.lo 2 (omega arith)) (m * 2 ^ d * 2 ^ g.width) z)
      ∙ mul-add-mod_self_right (m * 2 ^ d) (2 ^ g.width) (z / 2 ^ g.lo)

  -- A field that lies lower keeps its value.
  pub get-put_below : (g : Field) → g.lo + g.width ≤ f.lo → get g (put f v x) ≡ get g x
  get-put_below g h =
      ap (get g) put-split
      ∙ get-above g (high * 2 ^ f.width + stored) (x % 2 ^ f.lo) h
      ∙ sym (get-above g (x / 2 ^ f.lo) (x % 2 ^ f.lo) h)
      ∙ ap (get g) (div-add-mod' x (2 ^ f.lo))
