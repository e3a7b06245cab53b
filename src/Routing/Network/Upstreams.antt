-- ===== src/Routing/Network/Upstreams.antt =====
-- `all_upstreams_by_id` returns, with the rivers that lead to the given one.
use shyft.Prelude.{
  ℕ, zero, suc, ◌+◌, ◌≤◌, ◌<◌, ◌≡◌, refl, ap, ◌∙◌, arith, ◌↔◌, inl, inr, true, some, List, ◌++◌,
}
use mathlib.Core.Path.{subst}
use mathlib.Core.List.{Memᴰ}
use mathlib.Core.List.Memᴰ
use shyft.Prelude.Lists.{length}
use shyft.Prelude.Int.{ℤ, eqb_ℤ, eq_of_parts, to_int}
use shyft.Prelude.Outcome.{Outcome, ok}
use shyft.Routing.Maps.{find, find-All, All-find}
use shyft.Routing.Network.{
  RiverNetwork, River, valid_routing_id, downstream_id, upstreams, upstreams_by_id, all_upstreams,
  all_upstreams_by_id,
}
use shyft.Routing.Network.Entries.{
  collect-returns, Memᴰ-upstreams_entry, entry-Memᴰ-upstreams, All-Memᴰ, Memᴰ-find,
}
use shyft.Routing.Network.Cycles.{Edge, Reaches, edge, further, EndsIn, EndsIn-unique, EndsIn-Edge}
use shyft.Routing.Network.Search.{ends_of_acyclic}
use shyft.Routing.Network.Invariant.{Fits, IsKeyed, IsNetwork, check_rid-found}

module _ {ℓ} {D : Type ℓ} (m : RiverNetwork D) (N : IsNetwork m) where
  -- The rivers upstream of one that is there are those with an edge to it.
  Memᴰ-upstreams_iff :
      (rid : ℤ) (r : River D)
      → find rid m ≡ some r
      → (x : ℤ) → Memᴰ x (upstreams rid m) ↔ Edge m x rid
  unfolding downstream_id
  Memᴰ-upstreams_iff rid r found x = (to_edge, from_edge)
    where
      to_edge : Memᴰ x (upstreams rid m) → Edge m x rid
      to_edge h =
          let (e, inside, is, flows) = Memᴰ-upstreams_entry rid m x h in
          let found_e =
            All-Memᴰ (λ e. find e.0 m ≡ some e.1) m e (All-find m N.is_closed.sorted) inside in
          let to : e.1.downstream.id ≡ rid = eq_of_parts e.1.downstream.id rid (ground arith) in
          let is_int = (find-All IsKeyed rid r m N.keyed found).1 in
          let valid =
            find-All (λ e. valid_routing_id e.0 ≡ true) rid r m N.is_closed.valid_keys found in
          (e.1, rw is found_e, ap to_int to ∙ is_int, valid)

      from_edge : Edge m x rid → Memᴰ x (upstreams rid m)
      from_edge (s, found_s, to, valid) =
          let fits = find-All (λ e. Fits e.1) x s m N.fitting found_s in
          let is : s.downstream.id ≡ rid = fits (rw to valid) ∙ to in
          let flows : eqb_ℤ s.downstream.id rid ≡ true = rw is (ground arith) in
          entry-Memᴰ-upstreams rid m (x, s) (Memᴰ-find m x s found_s) flows

  -- The way from a river that is there has no more steps than there are rivers.
  ends-le-length :
      (n : ℕ) (x : ℤ) (r : River D) → find x m ≡ some r → EndsIn m n x → n ≤ suc (length m)
  ends-le-length n x r found ends =
      let (k, short, ends') = ends_of_acyclic m N.is_closed N.acyclic x r found in
      omega (arith, EndsIn-unique m n (suc k) x ends (r, found, ends'))

  abbrev IsAnswer : ℤ → List ℤ → Type ℓ
  IsAnswer rid l = (x : ℤ) → Memᴰ x l ↔ Reaches m x rid

  IsAnswer-of_parts :
      (rid : ℤ) (r : River D) (call : ℤ → Outcome (List ℤ)) (more : List ℤ)
      → find rid m ≡ some r
      → ((i : ℤ) → Memᴰ i (upstreams rid m) → (l : List ℤ) × (call i ≡ ok l) × IsAnswer i l)
      → ((x : ℤ)
          → Memᴰ x more
            ↔ ((i : ℤ) × Memᴰ i (upstreams rid m) × (k : List ℤ) × (call i ≡ ok k) × Memᴰ x k))
      → IsAnswer rid (upstreams rid m ++ more)
  IsAnswer-of_parts rid r call more found answers inside x = (to_way, from_way)
    where
      to_way : Memᴰ x (upstreams rid m ++ more) → Reaches m x rid
      to_way h = elim (Memᴰ.append_cases (upstreams rid m) h) [
        | inl direct ↦ edge ((Memᴰ-upstreams_iff rid r found x).0 direct)
        | inr indirect ↦
            let (i, up, k, called, h') = (inside x).0 indirect in
            let (l, called', answer) = answers i up in
            let same : k ≡ l = cc in
            further ((answer x).0 (subst (Memᴰ x) same h'))
              ((Memᴰ-upstreams_iff rid r found i).0 up)
      ]

      from_way : Reaches m x rid → Memᴰ x (upstreams rid m ++ more)
      from_way (edge e) = Memᴰ.append_left more ((Memᴰ-upstreams_iff rid r found x).1 e)
      from_way (further {y} way e) =
          let up = (Memᴰ-upstreams_iff rid r found y).1 e in
          let (l, called, answer) = answers y up in
          Memᴰ.append_right (upstreams rid m) ((inside x).1 (y, up, l, called, (answer x).1 way))

  all_upstreams-returns :
      (fuel n : ℕ) (rid : ℤ) (r : River D)
      → find rid m ≡ some r
      → EndsIn m n rid
      → suc (length m) < fuel + n
      → (l : List ℤ) × (all_upstreams fuel m rid ≡ ok l) × IsAnswer rid l
  unfolding all_upstreams upstreams_by_id
  all_upstreams-returns zero n rid r found ends enough =
      absurd (omega (arith, ends-le-length n rid r found ends))
  all_upstreams-returns (suc fuel) n rid r found ends enough =
      let above : (i : ℤ)
          → Memᴰ i (upstreams rid m)
          → (l : List ℤ) × (all_upstreams fuel m i ≡ ok l) × IsAnswer i l =
        λ i up.
          let e = (Memᴰ-upstreams_iff rid r found i).0 up in
          all_upstreams-returns fuel (suc n) i e.0 e.1 (EndsIn-Edge m n i rid e ends)
            (omega arith) in
      let (more, collected, inside) =
        collect-returns (all_upstreams fuel m) (upstreams rid m)
          (λ i up. let (l, called, _) = above i up in (l, called)) in
      let there = check_rid-found m rid r N.is_closed.valid_keys found in
      (
        upstreams rid m ++ more,
        rw (there, collected) refl,
        IsAnswer-of_parts rid r (all_upstreams fuel m) more found above inside,
      )

  -- In a sound network (sorted by valid ids, each river under its own id, which is an `int`, and
  -- with the river that it flows into; each 64-bit id downstream that stands for a river as an
  -- `int` is the same as that `int`; without cycles), `all_upstreams_by_id` of a river returns: its
  -- recursion ends, and the answer has exactly the rivers from which one or more rivers lead to the
  -- given one.
  pub all_upstreams_by_id_lem :
      (rid : ℤ) (r : River D)
      → find rid m ≡ some r
      → (l : List ℤ) × (all_upstreams_by_id m rid ≡ ok l) × ((x : ℤ) → Memᴰ x l ↔ Reaches m x rid)
  unfolding all_upstreams_by_id
  all_upstreams_by_id_lem rid r found =
      let (n, _, ends) = ends_of_acyclic m N.is_closed N.acyclic rid r found in
      all_upstreams-returns (suc (suc (length m))) (suc n) rid r found (r, found, ends)
        (omega arith)
