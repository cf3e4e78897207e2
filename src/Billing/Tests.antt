-- ===== src/Billing/Tests.antt =====
-- The theorems on credit packages at concrete packages.
use workbuddy_cpa_plugin.Base.{ℕ, ◌+◌, ◌≤◌, ◌≡◌, ◌⊎◌, List, [], ◌∷◌, arith}
use workbuddy_cpa_plugin.Base.Int.{pos}
use workbuddy_cpa_plugin.Billing.{ResourcePackage, aggregate_packages}
use workbuddy_cpa_plugin.Billing.Totals.{IsPackage, total, aggregate_packages_cover}

-- More used than its size, as upstream reports it.
abbrev overdrawn : ResourcePackage
overdrawn = record {
  capacity_remain = pos 0;
  capacity_used = pos 0;
  capacity_size = pos 0;
  cycle_capacity_remain = pos 10;
  cycle_capacity_used = pos 15;
  cycle_capacity_size = pos 10;
}

-- Without a cycle, and with a use that is too small.
abbrev lifetime : ResourcePackage
lifetime = record {
  capacity_remain = pos 1;
  capacity_used = pos 1;
  capacity_size = pos 100;
  cycle_capacity_remain = pos 0;
  cycle_capacity_used = pos 0;
  cycle_capacity_size = pos 0;
}

overdrawn-IsPackage : IsPackage 100 overdrawn
overdrawn-IsPackage = record {
  capacity_remain = omega arith;
  capacity_used = omega arith;
  capacity_size = omega arith;
  cycle_capacity_remain = omega arith;
  cycle_capacity_used = omega arith;
  cycle_capacity_size = omega arith;
}

lifetime-IsPackage : IsPackage 100 lifetime
lifetime-IsPackage = record {
  capacity_remain = omega arith;
  capacity_used = omega arith;
  capacity_size = omega arith;
  cycle_capacity_remain = omega arith;
  cycle_capacity_used = omega arith;
  cycle_capacity_size = omega arith;
}

abbrev two : List ResourcePackage
two = overdrawn ∷ lifetime ∷ []

aggregate_packages_cover_example :
    let rest = total (λ p. p.remain) two in
    let reported = total (λ p. p.used) two in
    let size = total (λ p. p.size) two in
    ((aggregate_packages two).remain ≡ pos rest)
    × ((aggregate_packages two).size ≡ pos size)
    × ((used : ℕ) × ((aggregate_packages two).used ≡ pos used)
        × (reported ≤ used)
        × (size ≤ rest + used)
        × ((used ≡ reported) ⊎ (rest + used ≡ size)))
aggregate_packages_cover_example =
    aggregate_packages_cover 100 two (omega arith) (overdrawn-IsPackage, (lifetime-IsPackage, tt))
      (omega arith)
