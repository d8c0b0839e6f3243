-- ===== src/World/Entries.antt =====
-- The entries of a callback list that is being walked (sigc++/trackable.cc).
use libsigcplusplus.Prelude.{
  ℕ, suc, ◌<◌, ◌≡◌, refl, ap, ◌∙◌, true, none, List, [], ◌∷◌, ◌++◌, arith, Bool-cases, inl, inr,
  All, length, get_elem?, is_some,
}
use libsigcplusplus.Trackable.Callbacks.{Callback, is_entry}
use libsigcplusplus.Trackable.Kept.{KeptAll}
use libsigcplusplus.Trackable.Removal.{live}

abbrev pub Dead : Callback → Type 0
Dead c = c.func ≡ none

pub get_elem?-end : (ds : List Callback) → get_elem? ds (length ds) ≡ none
get_elem?-end [] = refl
get_elem?-end (d ∷ ds) = get_elem?-end ds

pub live-here :
    (ds es : List Callback) (c : Callback)
    → is_some c.func ≡ true
    → 0 < live c.object (ds ++ c ∷ es)
unfolding live is_entry
live-here [] es c h = ground arith
live-here (d ∷ ds) es c h = ground (arith, live-here ds es c h)

pub KeptAll-length :
    (P : ℕ → Type 0) (ds es : List Callback) → KeptAll P es ds → length ds ≡ length es
KeptAll-length P [] [] h = refl
KeptAll-length P [] (e ∷ es) h = absurd h
KeptAll-length P (d ∷ ds) [] h = absurd h
KeptAll-length P (d ∷ ds) (e ∷ es) h = ap suc (KeptAll-length P ds es h.1)

-- Entries kept, in the two parts of a list.
pub kept-parts :
    (P : ℕ → Type 0) (ds es xs : List Callback) (c : Callback)
    → KeptAll P (ds ++ c ∷ es) xs
    → All Dead ds
    → (ds' : List Callback) × (c' : Callback) × (es' : List Callback) × (xs ≡ ds' ++ c' ∷ es')
      × All Dead ds'
      × (c'.object ≡ c.object)
      × (length ds' ≡ length ds)
      × (length es' ≡ length es)
kept-parts P [] es [] c h d = absurd h
kept-parts P [] es (x ∷ xs) c h d = ([], x, xs, refl, tt, h.0.0, refl, KeptAll-length P xs es h.1)
kept-parts P (y ∷ ds) es [] c h d = absurd h
kept-parts P (y ∷ ds) es (x ∷ xs) c h d =
    let (ds', c', es', e, dead, same, n, m) = kept-parts P ds es xs c h.1 d.1 in
    (
      x ∷ ds',
      c',
      es',
      ap (λ u. x ∷ u) e,
      (elim h.0.1 [ inl g ↦ g ∙ d.0 | inr g ↦ g.0 ], dead),
      same,
      ap suc n,
      m,
    )

pub live-Dead : (r : ℕ) (ds : List Callback) → All Dead ds → live r ds ≡ 0
unfolding live is_entry
live-Dead r [] h = refl
live-Dead r (d ∷ ds) h = ground (arith, live-Dead r ds h.1)

pub Dead-live : (ds es : List Callback) (c : Callback) → live c.object (ds ++ c ∷ es) ≡ 0 → Dead c
Dead-live ds es c h = elim (Bool-cases (is_some c.func)) [
  | inl on ↦ (let pos = live-here ds es c on in absurd (omega arith))
  | inr off ↦ ground arith
]
