-- ===== src/Routing/Network/Change.antt =====
-- What `rid_map[i].downstream.id = d` leaves behind.
use shyft.Prelude.{
  ◌≡◌, refl, sym, ap, ◌∙◌, arith, inl, inr, Bool, true, false, none, some, List, [], ◌∷◌,
}
use shyft.Prelude.Tests.{Bool-cases, Option-cases, if◌then◌else◌}
use shyft.Prelude.Lists.{All}
use shyft.Prelude.Int.{ℤ, pos, eqb_ℤ, eq_of_parts, ◌<ℤ◌}
use shyft.Routing.Maps.{find, insert, IsSorted, find-insert, find-All, insert-IsSorted, All-insert}
use shyft.Routing.Network.{
  RiverNetwork, River, with_downstream, upstreams, set_downstream, clear_downstream,
}

-- Whether an id is in a list of ids.
pub is_in : ℤ → List ℤ → Bool
is_in j [] = false
is_in j (i ∷ rids) = let rest = is_in j rids in if eqb_ℤ j i then true else rest

module _ {ℓ} {D : Type ℓ} where
  set_downstream-absent :
      (i d : ℤ) (m : RiverNetwork D) → find i m ≡ none → set_downstream i d m ≡ m
  unfolding set_downstream
  set_downstream-absent i d m absent = rw (absent, set_downstream) refl

  pub set_downstream-found :
      (i d : ℤ) (m : RiverNetwork D) (r : River D)
      → find i m ≡ some r
      → set_downstream i d m ≡ insert i (with_downstream d r) m
  unfolding set_downstream
  set_downstream-found i d m r found = rw (found, set_downstream) refl

  -- A property of all entries, that does not depend on the id downstream of the river changed.
  pub set_downstream-All {κ} :
      (P : ℤ × River D → Type κ) (i d : ℤ) (m : RiverNetwork D)
      → ((r : River D) → find i m ≡ some r → P (i, r) → P (i, with_downstream d r))
      → All P m
      → All P (set_downstream i d m)
  unfolding set_downstream
  set_downstream-All P i d m keep h = elim (Option-cases (find i m)) [
    | inl absent ↦ rw (absent, set_downstream) h
    | inr (r, found) ↦
        rw (found, set_downstream)
          (All-insert P i (with_downstream d r) m (keep r found (find-All P i r m h found)) h)
  ]

  pub set_downstream-IsSorted :
      (i d : ℤ) (m : RiverNetwork D) → IsSorted m → IsSorted (set_downstream i d m)
  unfolding set_downstream
  set_downstream-IsSorted i d m s = elim (Option-cases (find i m)) [
    | inl absent ↦ rw (absent, set_downstream) s
    | inr (r, found) ↦ rw (found, set_downstream) (insert-IsSorted i (with_downstream d r) m s)
  ]

  -- A river that is not the one changed is as before.
  pub find-set_downstream_other :
      (j i d : ℤ) (m : RiverNetwork D)
      → eqb_ℤ j i ≡ false
      → find j (set_downstream i d m) ≡ find j m
  find-set_downstream_other j i d m other = elim (Option-cases (find i m)) [
    | inl absent ↦ rw (set_downstream-absent i d m absent) refl
    | inr (r, found) ↦
        rw (set_downstream-found i d m r found, find-insert j i (with_downstream d r) m, other) refl
  ]

  pub find-set_downstream_self :
      (i d : ℤ) (m : RiverNetwork D) (r : River D)
      → find i m ≡ some r
      → find i (set_downstream i d m) ≡ some (with_downstream d r)
  find-set_downstream_self i d m r found =
      let same : eqb_ℤ i i ≡ true = ground arith in
      rw (set_downstream-found i d m r found, find-insert i i (with_downstream d r) m, same) refl

  pub find-set_downstream-none :
      (j i d : ℤ) (m : RiverNetwork D) → find j m ≡ none → find j (set_downstream i d m) ≡ none
  find-set_downstream-none j i d m absent = elim (Bool-cases (eqb_ℤ j i)) [
    | inl same ↦
        let here : j ≡ i = eq_of_parts j i (ground arith) in
        let absent' : find i m ≡ none = rw (← here) absent in
        rw (set_downstream-absent i d m absent') absent
    | inr other ↦ rw (find-set_downstream_other j i d m other) absent
  ]

  pub find-clear_downstream-none :
      (j : ℤ) (rids : List ℤ) (m : RiverNetwork D)
      → find j m ≡ none
      → find j (clear_downstream rids m) ≡ none
  unfolding clear_downstream
  find-clear_downstream-none j [] m absent = absent
  find-clear_downstream-none j (i ∷ rids) m absent =
      find-clear_downstream-none j rids (set_downstream i (pos 0) m)
        (find-set_downstream-none j i (pos 0) m absent)

  -- The rivers of the list flow nowhere, and the others are as before.
  pub find-clear_downstream :
      (j : ℤ) (rids : List ℤ) (m : RiverNetwork D) (r : River D)
      → find j m ≡ some r
      → find j (clear_downstream rids m)
        ≡ some (if is_in j rids then with_downstream (pos 0) r else r)
  unfolding clear_downstream is_in
  find-clear_downstream j [] m r found = found
  find-clear_downstream j (i ∷ rids) m r found = elim (Bool-cases (eqb_ℤ j i)) [
    | inl same ↦
        let here : j ≡ i = eq_of_parts j i (ground arith) in
        let found' : find i m ≡ some r = rw (← here) found in
        let cleared : find j (set_downstream i (pos 0) m) ≡ some (with_downstream (pos 0) r) =
          rw here (find-set_downstream_self i (pos 0) m r found') in
        rw same (
          find-clear_downstream j rids (set_downstream i (pos 0) m) (with_downstream (pos 0) r)
            cleared
          ∙ elim (Bool-cases (is_in j rids)) [
            | inl inside ↦ rw inside refl
            | inr outside ↦ rw outside refl
          ])
    | inr other ↦ rw other (
        find-clear_downstream j rids (set_downstream i (pos 0) m) r
          (find-set_downstream_other j i (pos 0) m other ∙ found))
  ]

  pub clear_downstream-All {κ} :
      (P : ℤ × River D → Type κ) (rids : List ℤ) (m : RiverNetwork D)
      → ((i : ℤ) (r : River D) → P (i, r) → P (i, with_downstream (pos 0) r))
      → All P m
      → All P (clear_downstream rids m)
  unfolding clear_downstream
  clear_downstream-All P [] m keep h = h
  clear_downstream-All P (i ∷ rids) m keep h =
      clear_downstream-All P rids (set_downstream i (pos 0) m) keep
        (set_downstream-All P i (pos 0) m (λ r _. keep i r) h)

  pub clear_downstream-IsSorted :
      (rids : List ℤ) (m : RiverNetwork D) → IsSorted m → IsSorted (clear_downstream rids m)
  unfolding clear_downstream
  clear_downstream-IsSorted [] m s = s
  clear_downstream-IsSorted (i ∷ rids) m s =
      clear_downstream-IsSorted rids (set_downstream i (pos 0) m)
        (set_downstream-IsSorted i (pos 0) m s)

  find-later : (j : ℤ) (m : RiverNetwork D) → All (λ e. j <ℤ e.0) m → find j m ≡ none
  unfolding find
  find-later j [] h = refl
  find-later j (e ∷ m) h =
      let other : eqb_ℤ j e.0 ≡ false = ground (arith, h.0) in rw other (find-later j m h.1)

  is_in-upstreams-none :
      (j rid : ℤ) (m : RiverNetwork D) → find j m ≡ none → is_in j (upstreams rid m) ≡ false
  unfolding upstreams is_in find
  is_in-upstreams-none j rid [] absent = refl
  is_in-upstreams-none j rid (e ∷ m) absent = elim (Bool-cases (eqb_ℤ j e.0)) [
    | inl same ↦ let absent' = rw same at absent in cc
    | inr other ↦ ground (arith, is_in-upstreams-none j rid m)
  ]

  -- The rivers upstream of `rid` are those that flow into it.
  pub is_in-upstreams :
      (j rid : ℤ) (m : RiverNetwork D) (r : River D)
      → IsSorted m
      → find j m ≡ some r
      → is_in j (upstreams rid m) ≡ eqb_ℤ r.downstream.id rid
  unfolding upstreams is_in find
  is_in-upstreams j rid [] r s found = cc
  is_in-upstreams j rid (e ∷ m) r s found = elim (Bool-cases (eqb_ℤ j e.0)) [
    | inl same ↦
        let here : j ≡ e.0 = eq_of_parts j e.0 (ground arith) in
        let value : e.1 ≡ r = ground arith in
        let later = is_in-upstreams-none j rid m (find-later j m (rw here s.0)) in
        elim (Bool-cases (eqb_ℤ e.1.downstream.id rid)) [
          | inl flows ↦
              rw (flows, same) (sym flows ∙ ap (λ (q : River D). eqb_ℤ q.downstream.id rid) value)
          | inr not_flows ↦
              rw not_flows
                (later ∙ sym not_flows ∙ ap (λ (q : River D). eqb_ℤ q.downstream.id rid) value)
        ]
    | inr other ↦
        let ih = is_in-upstreams j rid m r s.1 (ground (arith, other, found)) in
        elim (Bool-cases (eqb_ℤ e.1.downstream.id rid)) [
          | inl flows ↦ rw (flows, other) ih
          | inr not_flows ↦ rw not_flows ih
        ]
  ]
