-- ===== src/Billing.antt =====
-- The sums of workbuddy/billing.go over an account's credit packages (`packageRemainUsed`,
-- `aggregatePackages`). An `int64` is an integer, and the sums wrap in 64 bits. The lifetime total and the
-- names and dates of the packages are left out. `Totals` is about the sums of an account whose numbers do not wrap.
pub mod Totals
mod Tests
use workbuddy_cpa_plugin.Base.{
  ℕ, ◌+◌, ◌-◌, ◌%◌, Bool, true, false, List, [], ◌∷◌, ltb, if◌then◌else◌,
}
use workbuddy_cpa_plugin.Base.Int.{ℤ, pos, negsuc, is_pos}

-- `resourcePackage`, without its name and dates.
pub record ResourcePackage : Type 0 where
  pub capacity_remain : ℤ
  pub capacity_used : ℤ
  pub capacity_size : ℤ
  pub cycle_capacity_remain : ℤ
  pub cycle_capacity_used : ℤ
  pub cycle_capacity_size : ℤ

-- The 64 bits of an `int64`, and the `int64` of 64 bits.
abbrev pub bits : ℤ → ℕ
bits (pos n) = n
bits (negsuc n) = 18_446_744_073_709_551_615 - n

abbrev pub of_bits : ℕ → ℤ
of_bits n =
    if ltb n 9_223_372_036_854_775_808 then pos n else negsuc (18_446_744_073_709_551_615 - n)

unfoldable pub add64 : ℤ → ℤ → ℤ
add64 a b = of_bits ((bits a + bits b) % 18_446_744_073_709_551_616)

unfoldable pub sub64 : ℤ → ℤ → ℤ
sub64 a b = of_bits ((bits a + (18_446_744_073_709_551_616 - bits b)) % 18_446_744_073_709_551_616)

-- `a > b`.
abbrev pub greater : ℤ → ℤ → Bool
greater (pos a) (pos b) = ltb b a
greater (pos a) (negsuc b) = true
greater (negsuc a) (pos b) = false
greater (negsuc a) (negsuc b) = ltb a b

-- A number, or 0 if it is negative.
abbrev pub clamped : ℤ → ℤ
clamped (pos n) = pos n
clamped (negsuc n) = pos 0

abbrev pub smaller : ℤ → ℤ → ℤ
smaller a b = if greater a b then b else a

-- What `packageRemainUsed` returns.
pub record PackageSum : Type 0 where
  pub remain : ℤ
  pub used : ℤ
  pub size : ℤ

-- The branch of the current cycle: a reported use that is larger than `size - remain` is believed.
unfoldable pub of_cycle : ℤ → ℤ → ℤ → PackageSum
unfolding sub64
of_cycle remain reported size =
    if greater reported (sub64 size remain)
    then record {
      remain = if greater reported size then remain else sub64 size reported;
      used = reported;
      size = size;
    }
    else record { remain = remain; used = sub64 size remain; size = size }

-- The branch of a cycle without a size; `capacity` is the lifetime size.
unfoldable pub of_sizeless_cycle : ℤ → ℤ → ℤ → PackageSum
unfolding add64 sub64
of_sizeless_cycle remain used capacity =
    if greater capacity (add64 remain used)
    then record {
      remain = remain;
      used = if greater remain capacity then used else sub64 capacity remain;
      size = capacity;
    }
    else record { remain = remain; used = used; size = add64 remain used }

-- The lifetime branch.
unfoldable pub of_lifetime : ℤ → ℤ → ℤ → PackageSum
unfolding add64 sub64
of_lifetime remain used capacity =
    let size = if is_pos capacity then capacity else add64 remain used in
    record {
      remain = remain;
      used = if is_pos used then used else if greater size remain then sub64 size remain else used;
      size = size;
    }

-- `packageRemainUsed`.
unfoldable pub package_remain_used : ResourcePackage → PackageSum
unfolding of_cycle of_sizeless_cycle of_lifetime
package_remain_used a =
    if is_pos a.cycle_capacity_size
    then of_cycle (smaller (clamped a.cycle_capacity_remain) a.cycle_capacity_size)
        a.cycle_capacity_used a.cycle_capacity_size
    else if is_pos a.cycle_capacity_remain
    then of_sizeless_cycle (clamped a.cycle_capacity_remain) (clamped a.cycle_capacity_used)
        a.capacity_size
    else if is_pos a.cycle_capacity_used
    then of_sizeless_cycle (clamped a.cycle_capacity_remain) (clamped a.cycle_capacity_used)
        a.capacity_size
    else of_lifetime (clamped a.capacity_remain) (clamped a.capacity_used) a.capacity_size

-- The loop of `aggregatePackages`.
unfoldable pub add_packages : List ResourcePackage → PackageSum → PackageSum
unfolding package_remain_used add64
add_packages [] sum = sum
add_packages (a ∷ all) sum =
    let p = package_remain_used a in
    add_packages all (record {
      remain = add64 sum.remain p.remain;
      used = add64 sum.used p.used;
      size = add64 sum.size p.size;
    })

-- The end of `aggregatePackages`: the use is at least `size - remain`.
unfoldable pub reconciled : PackageSum → PackageSum
unfolding sub64
reconciled sum =
    if is_pos sum.size
    then (if greater (clamped (sub64 sum.size sum.remain)) sum.used
        then record sum { used = clamped (sub64 sum.size sum.remain) }
        else sum)
    else sum

unfoldable pub aggregate_packages : List ResourcePackage → PackageSum
unfolding add_packages reconciled
aggregate_packages all =
    reconciled (add_packages all (record { remain = pos 0; used = pos 0; size = pos 0 }))
