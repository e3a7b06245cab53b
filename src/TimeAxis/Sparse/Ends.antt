-- ===== src/TimeAxis/Sparse/Ends.antt =====
-- The loop of `combine` for axes with holes ends.
use shyft.Prelude.{
  ℕ, zero, suc, ◌+◌, ◌-◌, ◌≤◌, ◌<◌, ◌≡◌, refl, arith, ◌⊎◌, inl, inr, true, false, ◌&&◌, List, [],
}
use shyft.Prelude.Tests.{Bool-cases, ltb, if◌then◌else◌}
use shyft.Prelude.Int.{◌<ℤ◌, ◌-ℤ◌, ltb_ℤ, leb_ℤ, min_ℤ, max_ℤ}
use shyft.Prelude.Outcome.{ok}
use shyft.Utc.{
  UtcTime, UtcPeriod, period, null_period, no_utctime, timespan, valid, period_eq, contains_period,
  intersection,
}
use shyft.TimeAxis.Sparse.{
  Axis, Round, step, pushed, is_empty, common_round, make_round, combine_loop,
}

-- A part of `tp` that is not empty is a valid period, where `tp` starts after the missing time.
IsPart : UtcPeriod → Type 0
IsPart p = (no_utctime <ℤ p.start) × (p.start <ℤ p.end)

span-IsPart :
    (t0 t1 : UtcTime)
    → no_utctime <ℤ t0
    → is_empty (if leb_ℤ t0 t1 then period t0 t1 else null_period) ≡ false
    → IsPart (if leb_ℤ t0 t1 then period t0 t1 else null_period)
unfolding timespan IsPart ◌-ℤ◌
span-IsPart t0 t1 after something = elim (Bool-cases (leb_ℤ t0 t1)) [
  | inl up ↦ rw up (after, ground (arith, up, rw up at something))
  | inr down ↦ absurd (cc (rw down at something))
]

intersection-IsPart :
    (q tp : UtcPeriod)
    → no_utctime <ℤ tp.start
    → is_empty (intersection q tp) ≡ false
    → IsPart (intersection q tp)
unfolding intersection
intersection-IsPart q tp after something =
    span-IsPart (max_ℤ q.start tp.start) (min_ℤ q.end tp.end) (ground arith) something

-- Two such parts of which neither contains the other do not start together, so a round goes on.
abbrev GoesOn : Round → Type 0
GoesOn r = (r.next_a ≡ true) ⊎ (r.next_b ≡ true)

nested :
    (p q : UtcPeriod)
    → IsPart p
    → IsPart q
    → ltb_ℤ p.start q.start ≡ false
    → ltb_ℤ q.start p.start ≡ false
    → (contains_period q p ≡ true) ⊎ (contains_period p q ≡ true)
unfolding contains_period valid IsPart
nested p q P Q later earlier = elim (Bool-cases (leb_ℤ p.end q.end)) [
  | inl shorter ↦ inl (ground (arith, P, Q, later, earlier, shorter))
  | inr longer ↦ inr (ground (arith, P, Q, later, earlier, longer))
]

common_round-GoesOn : (p q p_i : UtcPeriod) → IsPart p → IsPart q → GoesOn (common_round p q p_i)
unfolding common_round
common_round-GoesOn p q p_i P Q = elim (Bool-cases (period_eq p q)) [
  | inl same ↦ rw same (inl refl)
  | inr other ↦ elim (Bool-cases (contains_period q p)) [
    | inl inside ↦ rw (other, inside) (inl refl)
    | inr outside ↦ elim (Bool-cases (contains_period p q)) [
      | inl around ↦ rw (other, outside, around) (inr refl)
      | inr apart ↦ elim (Bool-cases (ltb_ℤ p.start q.start)) [
        | inl first ↦ rw (other, outside, apart, first) (inl refl)
        | inr later ↦ elim (Bool-cases (ltb_ℤ q.start p.start)) [
          | inl second ↦ rw (other, outside, apart, later, second) (inr refl)
          | inr together ↦ elim (nested p q P Q later together) [
            | inl h ↦ absurd (cc (outside, h))
            | inr h ↦ absurd (cc (apart, h))
          ]
        ]
      ]
    ]
  ]
]

make_round-GoesOn :
    (p q : UtcPeriod)
    → (is_empty p ≡ false → IsPart p)
    → (is_empty q ≡ false → IsPart q)
    → GoesOn (make_round p q)
unfolding make_round
make_round-GoesOn p q P Q = elim (Bool-cases (is_empty p)) [
  | inl nothing ↦ rw nothing (inl refl)
  | inr some_p ↦ elim (Bool-cases (is_empty q)) [
    | inl nothing ↦ rw (some_p, nothing) (inr refl)
    | inr some_q ↦ elim (Bool-cases (is_empty (intersection p q))) [
      | inr meet ↦
          rw (some_p, some_q, meet)
            (common_round-GoesOn p q (intersection p q) (P some_p) (Q some_q))
      | inl apart ↦ elim (Bool-cases (ltb_ℤ p.start q.start)) [
        | inl first ↦ rw (some_p, some_q, apart, first) (inl refl)
        | inr later ↦ elim (Bool-cases (ltb_ℤ q.start p.start)) [
          | inl second ↦ rw (some_p, some_q, apart, later, second) (inr refl)
          | inr together ↦ rw (some_p, some_q, apart, later, together) (inl refl)
        ]
      ]
    ]
  ]
]

-- The loop over the periods of two axes that can all be read returns, where the span that is looked at
-- starts after the missing time, and there is fuel for as many rounds as periods are left.
pub combine_loop-returns :
    (fuel : ℕ) (a b : Axis) (tp : UtcPeriod) (ia ea ib eb : ℕ)
    → no_utctime <ℤ tp.start
    → ((i : ℕ) → i < ea → (q : UtcPeriod) × (a.period_at i ≡ ok q))
    → ((i : ℕ) → i < eb → (q : UtcPeriod) × (b.period_at i ≡ ok q))
    → ea - ia + (eb - ib) ≤ fuel
    → (l : List UtcPeriod) × (combine_loop fuel a b tp ia ea ib eb ≡ ok l)
unfolding combine_loop
combine_loop-returns zero a b tp ia ea ib eb after of_a of_b enough =
    let over : (ltb ia ea && ltb ib eb) ≡ false = ground arith in ([], rw over refl)
combine_loop-returns (suc fuel) a b tp ia ea ib eb after of_a of_b enough =
    elim (Bool-cases (ltb ia ea && ltb ib eb)) [
      | inr over ↦ ([], rw over refl)
      | inl more ↦
          let more_a : ia < ea = ground (arith, more) in
          let more_b : ib < eb = ground (arith, more) in
          let (q, is_q) = of_a ia more_a in
          let (r, is_r) = of_b ib more_b in
          let now = make_round (intersection q tp) (intersection r tp) in
          let goes_on =
            make_round-GoesOn (intersection q tp) (intersection r tp)
              (intersection-IsPart q tp after) (intersection-IsPart r tp after) in
          let (l, rest) =
            combine_loop-returns fuel a b tp (step now.next_a ia) ea (step now.next_b ib) eb after
              of_a of_b (fewer now ia ea ib eb goes_on more_a more_b enough) in
          (pushed now.push l, rw (more, is_q, is_r, rest) refl)
    ]
  where
    fewer :
        (now : Round) (ia ea ib eb : ℕ)
        → GoesOn now
        → ia < ea
        → ib < eb
        → ea - ia + (eb - ib) ≤ suc fuel
        → ea - step now.next_a ia + (eb - step now.next_b ib) ≤ fuel
    fewer now ia ea ib eb goes_on more_a more_b enough = ground arith
