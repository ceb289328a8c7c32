-- ===== src/Logger/Markers/Sets.antt =====
-- What is left of a record's markers.
use demo_hybrid_microservice.Common.{
  ◌≡◌, refl, String, not, ◌&&◌, ◌||◌, List, [], ◌∷◌, ◌++◌, Option, none, some, str_eq, eq_iff,
  includes, includes-append, Unique, Unique-append, Bool-cases, inl, inr, arith, ◌∙◌,
}
use demo_hybrid_microservice.Logger.Markers.{keep_markers, unless_empty, filter_markers}

abbrev pub listed : Option (List String) → List String
listed none = []
listed (some ms) = ms

includes-keep_markers :
    (markers ms : List String) (t : String)
    → includes (keep_markers markers ms) t
      ≡ (includes markers t || (includes ms t && not (str_eq t "")))
unfolding keep_markers
includes-keep_markers markers [] t = ground arith
includes-keep_markers markers (m ∷ ms) t =
    elim (Bool-cases (not (includes markers m) && not (str_eq m ""))) [
      | inl fresh ↦ rw fresh (
          includes-keep_markers (markers ++ m ∷ []) ms t
          ∙ ground (arith, includes-append markers (m ∷ []) t, eq_iff m t, fresh))
      | inr old ↦ rw old (includes-keep_markers markers ms t ∙ ground (arith, eq_iff m t, old))
    ]

keep_markers-Unique : (markers ms : List String) → Unique markers → Unique (keep_markers markers ms)
unfolding keep_markers
keep_markers-Unique markers [] u = u
keep_markers-Unique markers (m ∷ ms) u =
    elim (Bool-cases (not (includes markers m) && not (str_eq m ""))) [
      | inl fresh ↦ rw fresh (
          keep_markers-Unique (markers ++ m ∷ []) ms
            (Unique-append markers m u (ground (arith, fresh))))
      | inr old ↦ rw old (keep_markers-Unique markers ms u)
    ]

listed-unless_empty : (ms : List String) → listed (unless_empty ms) ≡ ms
unfolding unless_empty
listed-unless_empty [] = refl
listed-unless_empty (m ∷ ms) = refl

-- The markers that are left are the given ones but the empty string, each of them once.
filter_markers-Unique :
    (ms : Option (List String))
    → Unique (listed (filter_markers ms))
      × ((t : String)
          → includes (listed (filter_markers ms)) t ≡ (includes (listed ms) t && not (str_eq t "")))
unfolding filter_markers
filter_markers-Unique none = (tt, λ t. refl)
filter_markers-Unique (some []) = (tt, λ t. refl)
filter_markers-Unique (some (m ∷ ms)) =
    rw (listed-unless_empty (keep_markers [] (m ∷ ms)))
      (keep_markers-Unique [] (m ∷ ms) tt, includes-keep_markers [] (m ∷ ms))
