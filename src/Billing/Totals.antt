-- ===== src/Billing/Totals.antt =====
-- The totals that `aggregatePackages` of workbuddy/billing.go reports, for numbers that do not wrap.
use workbuddy_cpa_plugin.Base.{
  ℕ, suc, zero, ◌+◌, ◌-◌, ◌≤◌, ◌<◌, ◌≡◌, ◌⊎◌, inl, inr, ◌∙◌, refl, true, false, List, [], ◌∷◌, ltb,
  if◌then◌else◌, arith, Bool-cases,
}
use workbuddy_cpa_plugin.Base.Int.{ℤ, pos, negsuc, is_pos}
use workbuddy_cpa_plugin.Billing.{
  ResourcePackage, PackageSum, add64, sub64, greater, clamped, smaller, of_cycle, of_sizeless_cycle,
  of_lifetime, package_remain_used, add_packages, reconciled, aggregate_packages,
}

-- Sums of numbers that fit.
add64_pos : (m n : ℕ) → m + n < 9_223_372_036_854_775_808 → add64 (pos m) (pos n) ≡ pos (m + n)
unfolding add64
add64_pos m n h = ground arith

sub64_pos : (m n : ℕ) → m < 9_223_372_036_854_775_808 → n ≤ m → sub64 (pos m) (pos n) ≡ pos (m - n)
unfolding sub64
sub64_pos m n h k = ground arith

-- A field of at most `b`, or negative.
abbrev pub IsField : ℕ → ℤ → Type 0
IsField b (pos n) = n ≤ b
IsField b (negsuc n) = 0 ≤ b

pub record IsPackage (b : ℕ) (a : ResourcePackage) : Type 0 where
  pub capacity_remain : IsField b a.capacity_remain
  pub capacity_used : IsField b a.capacity_used
  pub capacity_size : IsField b a.capacity_size
  pub cycle_capacity_remain : IsField b a.cycle_capacity_remain
  pub cycle_capacity_used : IsField b a.cycle_capacity_used
  pub cycle_capacity_size : IsField b a.cycle_capacity_size

-- A sum whose three numbers are not negative, and are within bounds.
abbrev pub IsUpTo : ℕ → PackageSum → Type 0
IsUpTo b p =
    (r : ℕ) × (u : ℕ) × (s : ℕ) × (p.remain ≡ pos r)
    × (p.used ≡ pos u)
    × (p.size ≡ pos s)
    × (r ≤ b)
    × (u ≤ b)
    × (s ≤ b)

of_cycle-IsUpTo :
    (b r s : ℕ) (x : ℤ)
    → b < 4_000_000_000_000_000_000
    → r ≤ s
    → s ≤ b
    → IsField b x
    → IsUpTo (b + b) (of_cycle (pos r) x (pos s))
unfolding of_cycle
of_cycle-IsUpTo b r s (pos x) small le fits h =
    rw (sub64_pos s r (omega arith) le) (elim (Bool-cases (ltb (s - r) x)) [
      | inl more ↦ rw more (elim (Bool-cases (ltb s x)) [
        | inl over ↦ rw over (r, x, s, refl, refl, refl, omega arith, omega arith, omega arith)
        | inr under ↦
            let xs : x ≤ s = ground arith in
            rw (under, sub64_pos s x (omega arith) xs)
              (s - x, x, s, refl, refl, refl, omega arith, omega arith, omega arith)
      ])
      | inr enough ↦
          rw enough (r, s - r, s, refl, refl, refl, omega arith, omega arith, omega arith)
    ])
of_cycle-IsUpTo b r s (negsuc x) small le fits h =
    rw (sub64_pos s r (omega arith) le)
      (r, s - r, s, refl, refl, refl, omega arith, omega arith, omega arith)

of_sizeless_cycle-IsUpTo :
    (b r u : ℕ) (c : ℤ)
    → b < 4_000_000_000_000_000_000
    → r ≤ b
    → u ≤ b
    → IsField b c
    → IsUpTo (b + b) (of_sizeless_cycle (pos r) (pos u) c)
unfolding of_sizeless_cycle
of_sizeless_cycle-IsUpTo b r u (pos c) small hr hu h =
    rw (add64_pos r u (omega arith)) (elim (Bool-cases (ltb (r + u) c)) [
      | inl more ↦
          let rc : r ≤ c = ground arith in
          let not_over : ltb c r ≡ false = ground arith in
          rw (more, not_over, sub64_pos c r (omega arith) rc)
            (r, c - r, c, refl, refl, refl, omega arith, omega arith, omega arith)
      | inr enough ↦
          rw enough (r, u, r + u, refl, refl, refl, omega arith, omega arith, omega arith)
    ])
of_sizeless_cycle-IsUpTo b r u (negsuc c) small hr hu h =
    rw (add64_pos r u (omega arith))
      (r, u, r + u, refl, refl, refl, omega arith, omega arith, omega arith)

-- The use of the lifetime branch.
lifetime_used :
    (b r u s : ℕ)
    → b < 4_000_000_000_000_000_000
    → r ≤ b
    → u ≤ b
    → s ≤ b + b
    → (v : ℕ) × ((if is_pos (pos u)
          then pos u
          else if greater (pos s) (pos r)
          then sub64 (pos s) (pos r)
          else pos u)
        ≡ pos v)
      × (v ≤ b + b)
lifetime_used b r (suc u) s small hr hu hs = (suc u, refl, omega arith)
lifetime_used b r zero s small hr hu hs = elim (Bool-cases (ltb r s)) [
  | inl more ↦
      let le : r ≤ s = ground arith in rw more (s - r, sub64_pos s r (omega arith) le, omega arith)
  | inr enough ↦ rw enough (0, refl, omega arith)
]

of_lifetime-IsUpTo :
    (b r u : ℕ) (c : ℤ)
    → b < 4_000_000_000_000_000_000
    → r ≤ b
    → u ≤ b
    → IsField b c
    → IsUpTo (b + b) (of_lifetime (pos r) (pos u) c)
unfolding of_lifetime
of_lifetime-IsUpTo b r u (pos (suc c)) small hr hu h =
    let v = lifetime_used b r u (suc c) small hr hu (omega arith) in
    (r, v.0, suc c, refl, v.1, refl, omega arith, v.2, omega arith)
of_lifetime-IsUpTo b r u (pos zero) small hr hu h = rw (add64_pos r u (omega arith)) (
    let v = lifetime_used b r u (r + u) small hr hu (omega arith) in
    (r, v.0, r + u, refl, v.1, refl, omega arith, v.2, omega arith))
of_lifetime-IsUpTo b r u (negsuc c) small hr hu h = rw (add64_pos r u (omega arith)) (
    let v = lifetime_used b r u (r + u) small hr hu (omega arith) in
    (r, v.0, r + u, refl, v.1, refl, omega arith, v.2, omega arith))

clamped_field : (b : ℕ) (x : ℤ) → IsField b x → (n : ℕ) × (clamped x ≡ pos n) × (n ≤ b)
clamped_field b (pos n) h = (n, refl, h)
clamped_field b (negsuc n) h = (0, refl, h)

smaller_pos : (r s : ℕ) → (n : ℕ) × (smaller (pos r) (pos s) ≡ pos n) × (n ≤ s)
smaller_pos r s = elim (Bool-cases (ltb s r)) [
  | inl over ↦ rw over (s, refl, omega arith)
  | inr under ↦ rw under (r, refl, ground arith)
]

positive : (b : ℕ) (x : ℤ) → IsField b x → is_pos x ≡ true → (n : ℕ) × (x ≡ pos n) × (n ≤ b)
positive b (pos n) h p = (n, refl, h)
positive b (negsuc n) h p = ground arith

package_remain_used-IsUpTo :
    (b : ℕ) (a : ResourcePackage)
    → b < 4_000_000_000_000_000_000
    → IsPackage b a
    → IsUpTo (b + b) (package_remain_used a)
unfolding package_remain_used
package_remain_used-IsUpTo b a small h =
    let cr = clamped_field b a.cycle_capacity_remain h.cycle_capacity_remain in
    let cu = clamped_field b a.cycle_capacity_used h.cycle_capacity_used in
    let lr = clamped_field b a.capacity_remain h.capacity_remain in
    let lu = clamped_field b a.capacity_used h.capacity_used in
    let sizeless =
      of_sizeless_cycle-IsUpTo b cr.0 cu.0 a.capacity_size small cr.2 cu.2 h.capacity_size in
    elim (Bool-cases (is_pos a.cycle_capacity_size)) [
      | inl sized ↦
          let s = positive b a.cycle_capacity_size h.cycle_capacity_size sized in
          let r = smaller_pos cr.0 s.0 in
          rw (sized, cr.1, s.1, r.1)
            (of_cycle-IsUpTo b r.0 s.0 a.cycle_capacity_used small r.2 s.2 h.cycle_capacity_used)
      | inr unsized ↦ elim (Bool-cases (is_pos a.cycle_capacity_remain)) [
        | inl some_left ↦ rw (unsized, some_left, cr.1, cu.1) sizeless
        | inr none_left ↦ elim (Bool-cases (is_pos a.cycle_capacity_used)) [
          | inl some_used ↦ rw (unsized, none_left, some_used, cr.1, cu.1) sizeless
          | inr none_used ↦
              rw (unsized, none_left, none_used, lr.1, lu.1)
                (of_lifetime-IsUpTo b lr.0 lu.0 a.capacity_size small lr.2 lu.2 h.capacity_size)
        ]
      ]
    ]

-- What a list of packages can add to a sum.
abbrev pub budget : ℕ → List ResourcePackage → ℕ
budget b [] = 0
budget b (a ∷ all) = (b + b) + budget b all

abbrev pub ArePackages : ℕ → List ResourcePackage → Type 0
ArePackages b [] = Unit
ArePackages b (a ∷ all) = IsPackage b a × ArePackages b all

abbrev pub amount : ℤ → ℕ
amount (pos n) = n
amount (negsuc n) = 0

-- The exact total of a number over the packages.
abbrev pub total : (PackageSum → ℤ) → List ResourcePackage → ℕ
total f [] = 0
total f (a ∷ all) = amount (f (package_remain_used a)) + total f all

nat_add_zero : (n : ℕ) → n + 0 ≡ n
nat_add_zero n = omega arith

add_assoc : (m n k : ℕ) → (m + n) + k ≡ m + (n + k)
add_assoc m n k = omega arith

nat_zero_add : (n : ℕ) → 0 + n ≡ n
nat_zero_add n = omega arith

abbrev sums : ℕ → ℕ → ℕ → PackageSum
sums r u s = record { remain = pos r; used = pos u; size = pos s }

same_sum : {r r' u u' s s' : ℕ} → r ≡ r' → u ≡ u' → s ≡ s' → sums r u s ≡ sums r' u' s'
same_sum er eu es = rw (er, eu, es) refl

-- The sums do not wrap.
add_packages-total :
    (b r u s : ℕ) (all : List ResourcePackage)
    → b < 4_000_000_000_000_000_000
    → ArePackages b all
    → r + budget b all < 9_223_372_036_854_775_808
    → u + budget b all < 9_223_372_036_854_775_808
    → s + budget b all < 9_223_372_036_854_775_808
    → (add_packages all (record { remain = pos r; used = pos u; size = pos s }) ≡ record {
      remain = pos (r + total (λ p. p.remain) all);
      used = pos (u + total (λ p. p.used) all);
      size = pos (s + total (λ p. p.size) all);
    })
      × (r + total (λ p. p.remain) all < 9_223_372_036_854_775_808)
      × (u + total (λ p. p.used) all < 9_223_372_036_854_775_808)
      × (s + total (λ p. p.size) all < 9_223_372_036_854_775_808)
unfolding add_packages
add_packages-total b r u s [] small h fr fu fs = (
  rw (nat_add_zero r, nat_add_zero u, nat_add_zero s) refl,
  omega arith,
  omega arith,
  omega arith,
)
add_packages-total b r u s (a ∷ all) small (ha, h) fr fu fs =
    let (x, y, z, ex, ey, ez, hx, hy, hz) = package_remain_used-IsUpTo b a small ha in
    rw
      (
        ex,
        ey,
        ez,
        add64_pos r x (omega arith),
        add64_pos u y (omega arith),
        add64_pos s z (omega arith),
      )
      (let (e, tr, tu, ts) =
          add_packages-total b (r + x) (u + y) (s + z) all small h (omega arith) (omega arith)
            (omega arith) in
        (
          e
              ∙ same_sum (add_assoc r x (total (λ p. p.remain) all))
                  (add_assoc u y (total (λ p. p.used) all))
                  (add_assoc s z (total (λ p. p.size) all)),
          omega arith,
          omega arith,
          omega arith,
        ))

clamped-sub64 :
    (m n : ℕ)
    → m < 9_223_372_036_854_775_808
    → n < 9_223_372_036_854_775_808
    → clamped (sub64 (pos m) (pos n)) ≡ pos (m - n)
unfolding sub64
clamped-sub64 m n hm hn = elim (Bool-cases (ltb m n)) [
  | inl less ↦ ground arith
  | inr more ↦ ground arith
]

-- The use that is kept is the larger of what was reported and what is missing.
reconciled_pos :
    (r u s : ℕ)
    → r < 9_223_372_036_854_775_808
    → s < 9_223_372_036_854_775_808
    → reconciled (record { remain = pos r; used = pos u; size = pos s })
      ≡ record { remain = pos r; used = pos (if ltb u (s - r) then s - r else u); size = pos s }
unfolding reconciled
reconciled_pos r u zero hr hs = let kept : ltb u (0 - r) ≡ false = ground arith in rw kept refl
reconciled_pos r u (suc s) hr hs =
    rw (clamped-sub64 (suc s) r hs hr) (elim (Bool-cases (ltb u (suc s - r))) [
      | inl more ↦ rw more refl
      | inr enough ↦ rw enough refl
    ])

pub aggregate_packages_cover :
    (b : ℕ) (all : List ResourcePackage)
    → b < 4_000_000_000_000_000_000
    → ArePackages b all
    → budget b all < 9_223_372_036_854_775_808
    → let rest = total (λ p. p.remain) all in
      let reported = total (λ p. p.used) all in
      let size = total (λ p. p.size) all in
      ((aggregate_packages all).remain ≡ pos rest)
      × ((aggregate_packages all).size ≡ pos size)
      × ((used : ℕ) × ((aggregate_packages all).used ≡ pos used)
          × (reported ≤ used)
          × (size ≤ rest + used)
          × ((used ≡ reported) ⊎ (rest + used ≡ size)))
unfolding aggregate_packages
aggregate_packages_cover b all small h fits =
    let room : 0 + budget b all < 9_223_372_036_854_775_808 = omega arith in
    let (e0, hr, hu, hs) = add_packages-total b 0 0 0 all small h room room room in
    let rest = total (λ p. p.remain) all in
    let reported = total (λ p. p.used) all in
    let size = total (λ p. p.size) all in
    let e = e0 ∙ same_sum (nat_zero_add rest) (nat_zero_add reported) (nat_zero_add size) in
    rw (e, reconciled_pos rest reported size (omega arith) (omega arith))
      (elim (Bool-cases (ltb reported (size - rest))) [
        | inl more ↦
            rw more (refl, refl, (size - rest, refl, ground arith, omega arith, inr (ground arith)))
        | inr enough ↦ rw enough (refl, refl, (reported, refl, omega arith, ground arith, inl refl))
      ])
