-- ===== src/Server/Read/Order.antt =====
-- Reads without the cache: the answers stand in the order of the identifiers, whichever of them are
-- the server's own.
use shyft.Prelude.{
  ◌≤◌, ◌≡◌, ◌⊎◌, inl, inr, refl, sym, ap, ◌∙◌, arith, Bool, true, false, Option, none, some, List,
  [], ◌∷◌, map,
}
use mathlib.Core.Path.{subst}
use shyft.Prelude.Tests.{Bool-cases, ltb, ◌==◌, if◌then◌else◌}
use shyft.Prelude.Lists.{length, All}
use shyft.Prelude.Outcome.{Outcome, ok}
use shyft.Utc.{UtcPeriod}
use shyft.Cache.Fragments.{Fragment}
use shyft.Server.Url.{Text, extract_shyft_url_container, path_of}
use shyft.Server.Requests.{TsDb, Callbacks, Server, internal}
use shyft.Server.Read.{
  read_internal, read_slots, read_others, read_cache, read_misses, do_read, others, fill_slots,
}

abbrev pub is_own : Text → Bool
is_own id = ltb 0 (length (extract_shyft_url_container id))

module _ {F X W V : Type 0} (same_name : Discrete Text) (T : Fragment F V)
    (container : List (Text × TsDb F X W)) (cb : Callbacks F X W) (self : Server F W)
    (p : UtcPeriod) (source : Text → F) where
  -- What `source` gives for an own series is what its container reads.
  abbrev pub IsSource : Text → Type 1
  IsSource id =
      (is_own id ≡ false)
      ⊎ ((is_own id ≡ true)
          × (db : TsDb F X W) × (internal same_name container (extract_shyft_url_container id)
              ≡ ok db)
          × (db.read self.stored (path_of (extract_shyft_url_container id) id) p ≡ ok (source id)))

  -- The callback answers each of its identifiers with `source`.
  abbrev pub IsAnswering : Type 0
  IsAnswering =
      (bind_ts : W → List Text → UtcPeriod → Outcome (List F)) × (cb.bind_ts_cb ≡ some bind_ts)
      × ((ids : List Text) → bind_ts self.stored ids p ≡ ok (map source ids))

  slots_of : List Text → List (Option F)
  slots_of [] = []
  slots_of (id ∷ ids) = (if is_own id then some (source id) else none) ∷ slots_of ids

  read_slots-slots_of :
      (ids : List Text)
      → All IsSource ids
      → read_slots same_name T container cb false self [] ids p ≡ ok (self, slots_of ids)
  unfolding read_slots slots_of read_internal
  read_slots-slots_of [] h = refl
  read_slots-slots_of (id ∷ ids) (inl foreign, k) = rw (foreign, read_slots-slots_of ids k) refl
  read_slots-slots_of (id ∷ ids) (inr (own, db, found, answer), k) =
      rw (own, found, answer, read_slots-slots_of ids k) refl

  fill_slots-slots_of :
      (ids : List Text)
      → fill_slots same_name T container cb
          (slots_of ids)
          (map source (others same_name T container cb ids (slots_of ids)))
        ≡ ok (map (λ i. some (source i)) ids)
  unfolding slots_of
  fill_slots-slots_of [] = refl
  fill_slots-slots_of (id ∷ ids) = elim (Bool-cases (is_own id)) [
    | inl own ↦ rw (own, fill_slots-slots_of ids) refl
    | inr foreign ↦ rw (foreign, fill_slots-slots_of ids) refl
  ]

  foreign_ids : List Text → List Text
  foreign_ids ids = others same_name T container cb ids (slots_of ids)

  foreign_ids-length : (ids : List Text) → length (foreign_ids ids) ≤ length ids
  unfolding foreign_ids slots_of
  foreign_ids-length [] = omega arith
  foreign_ids-length (id ∷ ids) = elim (Bool-cases (is_own id)) [
    | inl own ↦ rw own (omega (arith, foreign_ids-length ids))
    | inr foreign ↦ rw foreign (omega (arith, foreign_ids-length ids))
  ]

  -- When all are foreign, the callback is asked for all of them.
  foreign_ids-all :
      (ids : List Text) → length (foreign_ids ids) ≡ length ids → foreign_ids ids ≡ ids
  unfolding foreign_ids slots_of
  foreign_ids-all [] h = refl
  foreign_ids-all (id ∷ ids) h = elim (Bool-cases (is_own id)) [
    | inl own ↦ absurd (omega (arith, rw own at h, foreign_ids-length ids))
    | inr foreign ↦
        rw foreign (ap (λ l. id ∷ l) (foreign_ids-all ids (omega (arith, rw foreign at h))))
  ]

  -- When none is, the slots are full.
  foreign_ids-none :
      (ids : List Text)
      → length (foreign_ids ids) ≡ 0
      → slots_of ids ≡ map (λ i. some (source i)) ids
  unfolding foreign_ids slots_of
  foreign_ids-none [] h = refl
  foreign_ids-none (id ∷ ids) h = elim (Bool-cases (is_own id)) [
    | inl own ↦ rw own (ap (λ l. some (source id) ∷ l) (foreign_ids-none ids (rw own at h)))
    | inr foreign ↦ absurd (omega (arith, rw foreign at h))
  ]

  map-map : (ids : List Text) → map some (map source ids) ≡ map (λ i. some (source i)) ids
  map-map [] = refl
  map-map (id ∷ ids) = ap (λ l. some (source id) ∷ l) (map-map ids)

  read_others-slots_of :
      (ids : List Text)
      → IsAnswering
      → read_others same_name T container cb false self ids (slots_of ids) p
        ≡ ok (self, map (λ i. some (source i)) ids)
  unfolding read_others foreign_ids
  read_others-slots_of ids (bind_ts, given, answers) =
      let o = foreign_ids ids in
      elim (Bool-cases (length o == length ids)) [
        | inl all ↦
            let same : o ≡ ids = foreign_ids-all ids (ground (arith, all)) in
            simp (read_others, given, answers o, all)
              (ap (λ l. ok (self, map some (map source l))) same
                ∙ ap (λ l. ok (self, l)) (map-map ids))
        | inr mixed ↦ simp (read_others, given, answers o, mixed, fill_slots-slots_of ids) refl
      ]

  read_misses-map :
      (ids : List Text)
      → All IsSource ids
      → IsAnswering
      → read_misses same_name T container cb false self [] ids p
        ≡ ok (self, map (λ i. some (source i)) ids)
  unfolding read_misses foreign_ids
  read_misses-map ids h k = elim (Bool-cases (ltb 0 (length (foreign_ids ids)))) [
    | inl some_foreign ↦ rw (read_slots-slots_of ids h, some_foreign) (read_others-slots_of ids k)
    | inr all_own ↦
        rw (read_slots-slots_of ids h, all_own)
          (ap (λ l. ok (self, l)) (foreign_ids-none ids (ground (arith, all_own))))
  ]

  -- A read that does not use or fill the cache changes nothing, and its answers stand in the order
  -- of the identifiers: for an own series what its container reads, for another one what the
  -- callback answers, which it answers for each identifier by itself.
  pub do_read-uncached :
      (ids : List Text)
      → self.cache_all_reads ≡ false
      → All IsSource ids
      → IsAnswering
      → do_read same_name T container cb self ids p false false
        ≡ ok (self, map (λ i. some (source i)) ids)
  unfolding do_read read_cache
  do_read-uncached [] plain h k = refl
  do_read-uncached (id ∷ ids) plain h k =
      let some_ids : (0 == length (id ∷ ids)) ≡ false = ground arith in
      rw some_ids (
        subst
          (λ b.
            read_misses same_name T container cb b self [] (id ∷ ids) p
            ≡ ok (self, map (λ i. some (source i)) (id ∷ ids)))
          (sym plain) (read_misses-map (id ∷ ids) h k))
