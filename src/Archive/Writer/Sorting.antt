-- ===== src/Archive/Writer/Sorting.antt =====
-- The stable sort of the timings by their time.
use gossip_observer.Archive.Records.{Feed, MessageNodeTimings}
use gossip_observer.Archive.Writer.{insert_timing, sort_timings}
use gossip_observer.Prelude.{
  ℕ, ◌≤◌, ◌≡◌, refl, Bool, true, false, List, [], ◌∷◌, leb, leb→le, arith, All, All-impl,
}
use mathlib.Core.List.{Permᴰ}
use mathlib.Core.List.Permᴰ

module _ (f : Feed) where
  abbrev pub time : MessageNodeTimings f → ℕ
  time t = f.timestamp t.net_timestamp

  abbrev pub IsSorted : List (MessageNodeTimings f) → Type 0
  IsSorted [] = Unit
  IsSorted (t ∷ ts) = All (λ u. time t ≤ time u) ts × IsSorted ts

  insert_timing-All :
      (P : MessageNodeTimings f → Type 0) (t : MessageNodeTimings f)
      (us : List (MessageNodeTimings f))
      → P t
      → All P us
      → All P (insert_timing f t us)
  unfolding insert_timing
  insert_timing-All P t [] p h = (p, tt)
  insert_timing-All P t (u ∷ us) p (h, hs) =
      cases (leb (time t) (time u)) refl (insert_timing-All P t us p hs)
    where
      cases :
          (b : Bool)
          → leb (time t) (time u) ≡ b
          → All P (insert_timing f t us)
          → All P (insert_timing f t (u ∷ us))
      cases true e r = rw (e, insert_timing) (p, (h, hs))
      cases false e r = rw (e, insert_timing) (h, r)

  insert_timing-IsSorted :
      (t : MessageNodeTimings f) (us : List (MessageNodeTimings f))
      → IsSorted us
      → IsSorted (insert_timing f t us)
  unfolding insert_timing
  insert_timing-IsSorted t [] h = (tt, tt)
  insert_timing-IsSorted t (u ∷ us) (h, hs) =
      cases (leb (time t) (time u)) refl (insert_timing-IsSorted t us hs)
    where
      cases :
          (b : Bool)
          → leb (time t) (time u) ≡ b
          → IsSorted (insert_timing f t us)
          → IsSorted (insert_timing f t (u ∷ us))
      cases true e r =
          let le : time t ≤ time u = leb→le _ _ e in
          rw (e, insert_timing)
            (
              (
                le,
                All-impl (λ v. time u ≤ time v) (λ v. time t ≤ time v) us (λ v k. omega arith) h,
              ),
              (h, hs),
            )
      cases false e r =
          rw (e, insert_timing) (insert_timing-All (λ v. time u ≤ time v) t us (ground arith) h, r)

  insert_timing-Perm :
      (t : MessageNodeTimings f) (us : List (MessageNodeTimings f))
      → Permᴰ (insert_timing f t us) (t ∷ us)
  unfolding insert_timing
  insert_timing-Perm t [] = Permᴰ.refl (t ∷ [])
  insert_timing-Perm t (u ∷ us) = cases (leb (time t) (time u)) refl (insert_timing-Perm t us)
    where
      cases :
          (b : Bool)
          → leb (time t) (time u) ≡ b
          → Permᴰ (insert_timing f t us) (t ∷ us)
          → Permᴰ (insert_timing f t (u ∷ us)) (t ∷ u ∷ us)
      cases true e r = rw (e, insert_timing) (Permᴰ.refl (t ∷ u ∷ us))
      cases false e r =
          rw (e, insert_timing) (Permᴰ.trans (Permᴰ.cons refl r) (Permᴰ.swap refl refl))

  pub sort_timings_lem :
      (ts : List (MessageNodeTimings f))
      → IsSorted (sort_timings f ts) × Permᴰ (sort_timings f ts) ts
  unfolding sort_timings
  sort_timings_lem [] = (tt, Permᴰ.nil)
  sort_timings_lem (t ∷ ts) =
      let (s, p) = sort_timings_lem ts in
      (
        insert_timing-IsSorted t (sort_timings f ts) s,
        Permᴰ.trans (insert_timing-Perm t (sort_timings f ts)) (Permᴰ.cons refl p),
      )
