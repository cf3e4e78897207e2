-- ===== src/Schedule/Soonest.antt =====
-- The next wake-up of the schedule on a day whose clocks do not change: `nextCheckinTime` of
-- workbuddy/checkin.go.
use workbuddy_cpa_plugin.Base.{
  ℕ, ◌+◌, ◌*◌, ◌≤◌, ◌<◌, ◌≡◌, ◌⊎◌, inl, inr, refl, sym, subst, Bool, true, false, ◌&&◌, ◌||◌, List,
  [], ◌∷◌, Option, none, some, leb, ltb, if◌then◌else◌, arith, Bool-cases, nat_eq, ◌==◌,
}
use workbuddy_cpa_plugin.Base.Lists.{any, All}
use workbuddy_cpa_plugin.Schedule.{
  hour, day, scheduled_in_current_hour, next_slot, next_time, next_checkin_time,
}

-- The local clock runs evenly on the date of a time and on the next one: the two dates begin at
-- `midnight` and 24 hours later, and each hour of theirs begins where it should.
pub record IsEven (date : ℕ → ℕ → ℕ) (now midnight : ℕ) : Type 0 where
  pub begun : midnight ≤ now
  pub lasting : now < midnight + day
  pub today :
      (t h : ℕ) → midnight ≤ t → t < midnight + day → h < 24 → date t h ≡ midnight + h * hour
  pub tomorrow :
      (t h : ℕ)
      → midnight + day ≤ t
      → t < midnight + (day + day)
      → h < 24
      → date t h ≡ midnight + (day + h * hour)

or_true : (b : Bool) → (b || true) ≡ true
or_true true = refl
or_true false = refl

module _ (date : ℕ → ℕ → ℕ) (now : ℕ) where
  -- A time that is soonest among the slots of the hours, and the hour at which it falls.
  abbrev pub IsSoonest : List ℕ → Option ℕ → Type 0
  IsSoonest hours none = ⊥
  IsSoonest hours (some t) =
      (now < t)
      × (t ≤ now + day)
      × (scheduled_in_current_hour date t hours ≡ true)
      × All (λ h. t ≤ next_slot date now h) hours

module _ (date : ℕ → ℕ → ℕ) (now midnight : ℕ) (even : IsEven date now midnight) where
  date_now : (h : ℕ) → h < 24 → date now h ≡ midnight + h * hour
  date_now h lt = even.today now h even.begun even.lasting lt

  next_slot_bounds :
      (h : ℕ) → h < 24 → (now < next_slot date now h) × (next_slot date now h ≤ now + day)
  next_slot_bounds h lt = ground (arith, lt, date_now h lt, even.begun, even.lasting)

  starts :
      (h : ℕ)
      → h < 24
      → leb (date (next_slot date now h) h) (next_slot date now h)
          && ltb (next_slot date now h) (date (next_slot date now h) h + hour)
        ≡ true
  starts h lt = elim (Bool-cases (ltb now (midnight + h * hour))) [
    | inl ahead ↦
        let same = even.today (midnight + h * hour) h (omega arith) (omega arith) lt in
        rw (date_now h lt, ahead, same) (ground arith)
    | inr passed ↦
        let same = even.tomorrow (midnight + h * hour + day) h (omega arith) (omega arith) lt in
        rw (date_now h lt, passed, same) (ground arith)
  ]

  -- Whether a time is the slot of one of the hours.
  abbrev is_slot : List ℕ → ℕ → Bool
  is_slot hours t = any (λ h. next_slot date now h == t) hours

  slot_bounds :
      (t : ℕ) (hours : List ℕ)
      → All (λ h. h < 24) hours
      → is_slot hours t ≡ true
      → (now < t) × (t ≤ now + day) × (scheduled_in_current_hour date t hours ≡ true)
  unfolding scheduled_in_current_hour any
  slot_bounds t [] a e = cc
  slot_bounds t (h ∷ hours) a e = elim (Bool-cases (next_slot date now h == t)) [
    | inl here ↦
        let same : next_slot date now h ≡ t = (nat_eq.beq_iff (next_slot date now h) t).0 here in
        let b = next_slot_bounds h a.0 in
        let begins =
          subst (λ u. leb (date u h) u && ltb u (date u h + hour) ≡ true) same (starts h a.0) in
        (rw⁻¹ same b.0, rw⁻¹ same b.1, rw begins refl)
    | inr later ↦
        let rest = slot_bounds t hours a.1 (rw later at e) in
        (rest.0, rest.1, rw rest.2 (or_true (leb (date t h) t && ltb t (date t h + hour))))
  ]

  -- What the loop ends with, from an earliest time.
  record Ends (e : ℕ) (hours : List ℕ) : Type 0 where
    t : ℕ
    ends : next_time date now (some e) hours ≡ some t
    before : t ≤ e
    soonest : All (λ h. t ≤ next_slot date now h) hours
    origin : (t ≡ e) ⊎ (is_slot hours t ≡ true)

  next_time-Ends : (e : ℕ) (hours : List ℕ) → Ends e hours
  unfolding next_time any
  next_time-Ends e [] = record {
    t = e;
    ends = refl;
    before = omega arith;
    soonest = tt;
    origin = inl refl;
  }
  next_time-Ends e (h ∷ hours) =
      let s = if ltb (next_slot date now h) e then next_slot date now h else e in
      let r = next_time-Ends s hours in
      record {
        t = r.t;
        ends = r.ends;
        before = ground (arith, r.before);
        soonest = (ground (arith, r.before), r.soonest);
        origin = ground (arith, r.origin);
      }

  four : All (λ h. h < 24) (9 ∷ 21 ∷ 22 ∷ 23 ∷ [])
  four = (omega arith, (omega arith, (omega arith, (omega arith, tt))))

  next_checkin_time_origin :
      (r : Ends (next_slot date now 9) (21 ∷ 22 ∷ 23 ∷ []))
      → is_slot (9 ∷ 21 ∷ 22 ∷ 23 ∷ []) r.t ≡ true
  unfolding any
  next_checkin_time_origin r = elim r.origin [
    | inl first ↦ rw ((nat_eq.beq_iff (next_slot date now 9) r.t).1 (sym first)) refl
    | inr later ↦ rw later (or_true (next_slot date now 9 == r.t))
  ]

  pub next_checkin_time-IsSoonest :
      IsSoonest date now (9 ∷ 21 ∷ 22 ∷ 23 ∷ []) (next_checkin_time date now)
  unfolding next_checkin_time any
  next_checkin_time-IsSoonest =
      let r = next_time-Ends (next_slot date now 9) (21 ∷ 22 ∷ 23 ∷ []) in
      let b = slot_bounds r.t (9 ∷ 21 ∷ 22 ∷ 23 ∷ []) four (next_checkin_time_origin r) in
      let ends : next_checkin_time date now ≡ some r.t = r.ends in
      subst (IsSoonest date now (9 ∷ 21 ∷ 22 ∷ 23 ∷ [])) (sym ends)
        (b.0, b.1, b.2, (r.before, r.soonest))
