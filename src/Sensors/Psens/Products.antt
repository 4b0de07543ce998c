-- ===== src/Sensors/Psens/Products.antt =====
-- What is kept for the channels that have been measured, and how one more reading changes it.
use astro_photo_power_box.Prelude.{
  ℕ, suc, ◌+◌, ◌*◌, ◌/◌, ◌%◌, ◌<◌, ◌≡◌, ◌≢◌, ◌⊎◌, inl, inr, arith, length, get_or, set, sym, ap,
  ◌∙◌, get_or-set_self, get_or-set_ne, length-set,
}
use astro_photo_power_box.Float.{Float, nought}
use astro_photo_power_box.Sensors.Ina3221.{Value, Sensor, dummy}
use astro_photo_power_box.Sensors.Ina3221.Channels.{IsWellFormed}
use astro_photo_power_box.Sensors.Psens.{Psens, at}

module _ {F : Type 0} ⦃f : Float F⦄ where
  -- The product of the voltage and the current that a chip's driver keeps for a channel.
  abbrev pub product_of : Sensor F → ℕ → F
  product_of s c = f.mul (get_or s.voltages c dummy).value (get_or s.currents c dummy).value

  abbrev pub kept_product : Psens F → ℕ → F
  kept_product p n = product_of (at p (n / 3)) (n % 3)

  product_of-equal :
      (s : Sensor F) (c : ℕ) (voltage current : Value F)
      → get_or s.voltages c dummy ≡ voltage
      → get_or s.currents c dummy ≡ current
      → product_of s c ≡ f.mul voltage.value current.value
  product_of-equal s c voltage current v i =
      ap (λ x. f.mul x.value (get_or s.currents c dummy).value) v
      ∙ ap (λ x. f.mul voltage.value x.value) i

  -- Two chips and six powers, of which the first ones are the products of what is kept.
  pub record IsMeasured (upto : ℕ) (p : Psens F) : Type 0 where
    pub two : length p.sensors ≡ 2
    pub six : length p.powers ≡ 6
    pub formed : (i : ℕ) → i < 2 → IsWellFormed (at p i)
    pub products : (n : ℕ) → n < upto → get_or p.powers n nought ≡ kept_product p n

quotient : (index sens : ℕ) → sens < 3 → (index * 3 + sens) / 3 ≡ index
quotient index sens h = omega arith

remainder : (index sens : ℕ) → sens < 3 → (index * 3 + sens) % 3 ≡ sens
remainder index sens h = omega arith

elsewhere : (index sens n : ℕ) → n < index * 3 + sens → n / 3 ≡ index → n % 3 ≢ sens
elsewhere index sens n h e q = absurd (omega (arith, h, e, q))

pub shift : (index sens : ℕ) → suc (index * 3 + sens) ≡ index * 3 + suc sens
shift index sens = omega arith

pub eq_or_lt : (n t : ℕ) → n < suc t → (n ≡ t) ⊎ (n < t)
eq_or_lt n t h = ground arith

eq_or_ne : (m n : ℕ) → (m ≡ n) ⊎ (m ≢ n)
eq_or_ne m n = ground arith

module _ {F : Type 0} ⦃f : Float F⦄ where
  -- One channel is read; `chip` is its driver behind that.
  pub record IsRead (index sens : ℕ) (p p' : Psens F) (voltage current : Value F) : Type 0 where
    pub formed : IsWellFormed (at p' index)
    pub voltage_kept : get_or (at p' index).voltages sens dummy ≡ voltage
    pub current_kept : get_or (at p' index).currents sens dummy ≡ current
    pub other_voltages :
        (c : ℕ)
        → c ≢ sens
        → get_or (at p' index).voltages c dummy ≡ get_or (at p index).voltages c dummy
    pub other_currents :
        (c : ℕ)
        → c ≢ sens
        → get_or (at p' index).currents c dummy ≡ get_or (at p index).currents c dummy
    pub other_chip : (i : ℕ) → i ≢ index → at p' i ≡ at p i
    pub powers : p'.powers ≡ set p.powers (index * 3 + sens) (f.mul voltage.value current.value)
    pub two : length p'.sensors ≡ length p.sensors

  -- The product of a channel that was measured before stays.
  kept_product-IsRead :
      (index sens n : ℕ) (p p' : Psens F) (voltage current : Value F)
      → sens < 3
      → n < index * 3 + sens
      → IsRead index sens p p' voltage current
      → kept_product p' n ≡ kept_product p n
  kept_product-IsRead index sens n p p' voltage current k h r = elim (eq_or_ne (n / 3) index) [
    | inl e ↦
        ap (λ i. product_of (at p' i) (n % 3)) e
        ∙ product_of-equal (at p' index) (n % 3) _ _
            (r.other_voltages (n % 3) (elsewhere index sens n h e))
            (r.other_currents (n % 3) (elsewhere index sens n h e))
        ∙ ap (λ i. product_of (at p i) (n % 3)) (sym e)
    | inr ne ↦ ap (λ s. product_of s (n % 3)) (r.other_chip (n / 3) ne)
  ]

  products_after :
      (index sens : ℕ) (p p' : Psens F) (voltage current : Value F)
      → index < 2
      → sens < 3
      → IsMeasured (index * 3 + sens) p
      → IsRead index sens p p' voltage current
      → (n : ℕ) → n < suc (index * 3 + sens)
      → get_or p'.powers n nought ≡ kept_product p' n
  products_after index sens p p' voltage current h k m r n l =
      let total = index * 3 + sens in
      let power = f.mul voltage.value current.value in
      elim (eq_or_lt n total l) [
        | inl e ↦
            ap (λ xs. get_or xs n nought) r.powers
            ∙ ap (λ q. get_or (set p.powers total power) q nought) e
            ∙ get_or-set_self p.powers total power nought (omega (arith, m.six))
            ∙ sym
                (product_of-equal (at p' index) sens voltage current r.voltage_kept r.current_kept)
            ∙ ap (λ i. product_of (at p' i) sens) (sym (quotient index sens k))
            ∙ ap (product_of (at p' (total / 3))) (sym (remainder index sens k))
            ∙ ap (kept_product p') (sym e)
        | inr b ↦
            ap (λ xs. get_or xs n nought) r.powers
            ∙ get_or-set_ne p.powers total n power nought (λ q. absurd (omega (arith, q, b)))
            ∙ m.products n b
            ∙ sym (kept_product-IsRead index sens n p p' voltage current k b r)
      ]

  formed_after :
      (index sens : ℕ) (p p' : Psens F) (voltage current : Value F)
      → IsMeasured (index * 3 + sens) p
      → IsRead index sens p p' voltage current
      → (i : ℕ) → i < 2
      → IsWellFormed (at p' i)
  formed_after index sens p p' voltage current m r i l = elim (eq_or_ne i index) [
    | inl e ↦ rw e r.formed
    | inr ne ↦ rw (r.other_chip i ne) (m.formed i l)
  ]

  pub read-IsMeasured :
      (index sens : ℕ) (p p' : Psens F) (voltage current : Value F)
      → index < 2
      → sens < 3
      → IsMeasured (index * 3 + sens) p
      → IsRead index sens p p' voltage current
      → IsMeasured (suc (index * 3 + sens)) p'
  read-IsMeasured index sens p p' voltage current h k m r = record {
    two = r.two ∙ m.two;
    six = ap length r.powers ∙ length-set p.powers (index * 3 + sens) _ ∙ m.six;
    formed = formed_after index sens p p' voltage current m r;
    products = products_after index sens p p' voltage current h k m r;
  }
